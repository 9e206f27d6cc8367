-- ===== src/PartitionedRequest/Facts.antt =====
-- What is known of a call of sol_h3/partitioned_request.py once its arguments have passed.
pub mod Ranges
pub mod Maps
pub mod Checked
pub mod Weighed
pub mod Plans
pub mod Valid
