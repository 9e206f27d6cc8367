-- ===== src/MappedNeighbors.antt =====
-- sol_h3/mapped_neighbors.py: validation of VDN's query-position maps and their compilation to one
-- interval of key blocks for each query tile.
pub mod Types
pub mod Wire
pub mod Intervals
pub mod Descriptor
pub mod Digests
pub mod PlanCache
pub mod Transparent
pub mod Refines
pub mod RefinesCompile
pub mod Examples
