-- ===== src/Caches.antt =====
-- The bounded caches of a request: `_key_bias` of sol_h3/partitioned_request.py and
-- `device_descriptor` of sol_h3/mapped_neighbors.py, which keep tensors in an `OrderedDict`, oldest
-- first, with the sum of their sizes.
pub mod Lru
pub mod Hits
pub mod Bias
pub mod Weighs
pub mod Returned
pub mod DeviceDescriptor
pub mod DeviceExact
pub mod Examples
pub mod DeviceExamples
