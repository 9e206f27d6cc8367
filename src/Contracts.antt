-- ===== src/Contracts.antt =====
-- sol_h3/contracts.py: the checked configuration, and the prefix of a packed layout; `merge_config`
-- of sol_h3/runtime.py.
pub mod Config
pub mod Merge
pub mod Layout
pub mod Packed
mod Examples
