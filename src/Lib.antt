-- ===== src/Lib.antt =====
-- A model of the contract logic of ComfyUI-Sol-H3, the attention backend that routes blocks of an
-- H3 diffusion model to a sparse (Sol) kernel. The kernels and the tensor arithmetic run on the
-- device and are outside the model. What decides which rows they read, what they are told and which
-- of their results may be reused is inside.
--
-- The parts, and how they meet:
-- * sol_h3/contracts.py reads the user's policy (`Config`) and the packed layout of a sequence;
--   sol_h3/runtime.py merges the policies of two nodes on one model. Files: Contracts/Config (the
--   data class and `merge_config`), Contracts/Merge, Contracts/Layout (`prefix_length`, its loop
--   body is `place`), Contracts/Packed.
-- * sol_h3/mapped_neighbors.py takes a wire tuple that maps query rows to key rows, validates it
--   (`validate_wire_map`: MappedNeighbors/Wire, `validate_cold`) and compiles for each tile of 64
--   query rows the interval of key blocks beside its rows (`compile_descriptor`:
--   MappedNeighbors/Descriptor, `compile_cold`; `_merge_block_intervals`:
--   MappedNeighbors/Intervals). Wire/Runs gives a map its meaning, the key position of each query
--   row, and Descriptor/Neighbors gives a tile its neighbouring blocks; the proofs are in
--   Wire/Sound, Wire/Accepts and Descriptor/Exact. MappedNeighbors/PlanCache puts the plan cache of
--   a request in front of both (`validate_wire_map`, `compile_descriptor`), with its facts in
--   Transparent, Refines and RefinesCompile; the callers below are modelled on the code behind the
--   cache. `device_descriptor`, the cache of the interval tensors, is in Caches/DeviceDescriptor
--   and Caches/DeviceExact.
-- * sol_h3/partitioned_request.py prepares the measure of the key rows (`_key_bias`: Caches/Bias,
--   on the ordered dictionary of Caches/Lru, with Caches/Hits and Caches/Weighs) and publishes what
--   a call has completed (`_completion_fields`, `_record_completion`: Receipts/Publish, on the
--   request fields of Receipts/Ledger; `receipt` of sol_h3/interop.py is there too). Its entry
--   `partitioned_request_attention` is PartitionedRequest/Attention: the checks of the arguments
--   (PartitionedRequest/Arguments, on `_validate_thd` of PartitionedRequest/Tensors), what is
--   derived of them (PartitionedRequest/Calls, with `_descriptor_for_wire` of
--   PartitionedRequest/Descriptors), the dense or the sparse route with the arithmetic gate of a
--   new layout (`_weighted_dense`, `_checked_weighted_dense`: PartitionedRequest/Dense;
--   `_sm120_union`: PartitionedRequest/Checks and PartitionedRequest/Union;
--   `arithmetic_gate_passes` of sol_h3/sparse.py: PartitionedRequest/Kernels), the counts
--   (PartitionedRequest/Completions) and the receipt. PartitionedRequest/Engine is the state and
--   its actions, in which a call that raises leaves the state as it was when it raised. Its facts
--   are in PartitionedRequest/Facts, PartitionedRequest/Published and PartitionedRequest/Described;
--   PartitionedRequest/Returned,
--   PartitionedRequest/Failed, PartitionedRequest/Gated and PartitionedRequest/Counted have the
--   results.
-- * sol_h3/interop.py says which evaluations run dense (`dense_evaluation_warmup`: Interop/Warmup).
--   `HistoryPolicy.accept_receipts` is Receipts/History, on Receipts/Mapped for the twelve fields
--   of a mapped receipt; Receipts/MappedAccepted and Receipts/Fallbacks are about what it accepts.
-- * sol_h3/runtime.py gives VDN a provider for its local attention (`_vdn_legacy_local` and
--   `vdn_provider_v4`: Routing/Local, on `_shape_reason` in Routing/Shapes, `record` in
--   Routing/State and `validate_preflight_summary` of sol_h3/mapped_neighbors.py in
--   Routing/Preflight). The proofs are in Routing/Recorded and Routing/Mapped. Its chain of
--   preprocessors (`_preprocess_chain`, `_provider_leaf`) is Routing/Providers, with ProviderIds
--   and ProviderChains, and `_external_sequence_prefix` is Routing/External, with ExternalPacked.
--   The inherited dense attention that they lead to (`dense` of `BlockPatch._call`, with
--   `_provider_unavailable_reason`) is Routing/Dense, with Routing/Demoted.
-- * sol_h3/mixed_measure.py chooses the key rows that a mixed-grid measure keeps
--   (`validate_measure_contract`: MixedMeasure/Contract; `kv_gather_indices`: MixedMeasure/Gather,
--   with MixedMeasure/Rows; `representative_spatial_indices`: MixedMeasure/Representatives, with
--   MixedMeasure/Least, MixedMeasure/Products and MixedMeasure/Nearest) and drops the others
--   (`reduce_kv`: MixedMeasure/Reduce).
--   MixedMeasure/Accounted puts the contract and the gather together. Py/Order orders floats.
-- * sol_h3/weighted_measure.py binds a weighted route: `prepare` (Weighted/Prepare, on the keys and
--   plans of Weighted/Plans, where `Capability.prepare` is too) caches a plan for each key and a
--   buffer for each digest and device; its facts are in Weighted/Bound, and in Weighted/Accepted
--   for the receipt (`receipt_fields`). `_owner_identity`, whose tokens name the providers in those
--   keys, is in Weighted/Owners, with a step relation of the objects that are made and die, and
--   Weighted/Generations.
-- * sol_h3/partitioned_history.py decides whether a published receipt is of the running evaluation
--   (`_accept_partitioned_receipt`: Receipts/Partitioned). Receipts/Accepted and Receipts/Runs put
--   the two sides together, and Receipts/Routes is about the route that a receipt names.
--
-- Conventions. A value that the code inspects dynamically is a `Value` (Py/Data), with Python's
-- `==` as `py_eq`: Booleans, integers and floats compare by value, and `type(v) is int` excludes
-- Booleans. A float is a sign, a magnitude and an exponent, an infinity or a NaN (Py/Floats). What
-- raises returns an `Outcome` with the exception's class and message (Py/Outcome), or a `Result`
-- with the reason of a `MappingUnavailable`. State is passed on explicitly; outside
-- PartitionedRequest, Routing and Weighted, what a call that raises has changed is not said. A value that Python cannot
-- hash, in the place of a receipt's route, kind or mode, is refused by the model and raises a
-- `TypeError` in the code.
--
-- Parameters. `sha256_json`, the digest of a value's canonical JSON, is any function of values to
-- texts; where a property needs its results to be 64 hexadecimal digits, this is a hypothesis.
-- `Arithmetic` is that of floats; `index_select` is that of torch, and may raise; `float32` is what a
-- tensor of that type holds of a float. `Core` (Weighted/Plans) holds
-- what the weighted route takes from the module comfy.attention_measure, and `uuid` is the text of
-- each draw of `uuid4`. `capturing` is whether CUDA captures a graph. `Kernels`
-- (PartitionedRequest/Kernels) holds what a partitioned call takes from the vendored kernels, from
-- torch, from `verify_source` of sol_h3/provenance.py and from `current` of sol_h3/grouped_kv.py:
-- any functions. The compiled kernels that the vendored module keeps are in the state of the
-- request, since one request runs. `Scope` (Routing/State) holds what a block call reads, with
-- torch, `attention` of sol_h3/sparse.py and the plan hook of VDN as any functions; `native`, VDN's
-- own attention, is an outcome.
--
-- Bounds and fuel. The walk over a chain of preprocessors (Routing/Providers) has fuel, one more
-- than the providers that have an inner one: it meets each of them once, or ends. No other
-- definition has fuel: the loops run over the runs, tiles, segments or entries and recurse on them.
-- Row counts are natural numbers, read from values that have been checked to be integers in range;
-- Python's integers do not wrap.
--
-- Not modelled: the kernels, their vendored source, Triton code and torch arithmetic; the streams
-- and events of CUDA; locks and wall clocks; node registration, tools and tests; the sampling
-- lifecycle of sol_h3/runtime.py, its other attention routes and the dense attention up to the leaf
-- of its provider chain; the partitioned domains and their merge, the streamed projections and the
-- grouped preparation, which are tensor code; the identity of stateless functions; the rest of
-- sol_h3/interop.py; diagnostics.
pub mod Base
pub mod Caches
pub mod Contracts
pub mod Interop
pub mod MappedNeighbors
pub mod MixedMeasure
pub mod PartitionedRequest
pub mod Py
pub mod Receipts
pub mod Routing
pub mod Weighted
