-- ===== src/Routing.antt =====
-- The attention providers that a block of sol_h3/runtime.py installs for VDN, from the checks of a
-- call to the route that is recorded for it; the prefix of an external sequence, the chain of
-- preprocessors and the inherited dense attention.
pub mod Shapes
pub mod State
pub mod Preflight
pub mod Local
pub mod Recorded
pub mod Mapped
pub mod External
pub mod ExternalPacked
pub mod Providers
pub mod ProviderIds
pub mod ProviderChains
pub mod Dense
pub mod Demoted
mod Examples
