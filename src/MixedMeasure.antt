-- ===== src/MixedMeasure.antt =====
-- The key rows that a mixed-grid attention measure keeps: `kv_gather_indices` and
-- `representative_spatial_indices` of sol_h3/mixed_measure.py.
pub mod Gather
pub mod Rows
pub mod Representatives
pub mod Least
pub mod Products
pub mod Nearest
pub mod Contract
pub mod Accounted
pub mod Reduce
mod Examples
