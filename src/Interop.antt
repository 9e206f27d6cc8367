-- ===== src/Interop.antt =====
-- The decisions of sol_h3/interop.py that attention calls share.
pub mod Warmup
