-- ===== src/Weighted.antt =====
-- sol_h3/weighted_measure.py: the plan of a weighted attention route, its caches on the request, and
-- the identity of a stateful provider.
pub mod Plans
pub mod Prepare
pub mod Bound
pub mod Accepted
pub mod Owners
pub mod Generations
mod Examples
