-- ===== src/PartitionedRequest.antt =====
-- One attention call over a single union of keys, `partitioned_request_attention` of
-- sol_h3/partitioned_request.py, from its arguments to the receipt that it publishes.
pub mod Tensors
pub mod Engine
pub mod Kernels
pub mod Checks
pub mod Union
pub mod Dense
pub mod Descriptors
pub mod Arguments
pub mod Calls
pub mod Completions
pub mod Attention
pub mod Facts
pub mod Published
pub mod Described
pub mod Returned
pub mod Counted
pub mod Failed
pub mod Gated
pub mod Examples
