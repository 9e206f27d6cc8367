-- ===== src/PartitionedRequest/Examples.antt =====
-- Runs of `partitioned_request_attention` of sol_h3/partitioned_request.py on a sparse call of 70
-- query rows and 80 key rows, with kernels whose contents are numbers.
use comfy_ui_sol_h.Base.{
  String, ℕ, ◌≡◌, true, false, some, arith, refl, ◌∷◌, none, [], ap, ◌/◌, ◌+◌, ◌⊎◌,
}
use comfy_ui_sol_h.Py.{
  Value, dict, whole, end, int, is_finite, float_lt, float_eq, nothing, str, float_le, py_eq,
}
use comfy_ui_sol_h.Py.Text.{digest_text}
use comfy_ui_sol_h.PartitionedRequest.Kernels.{Prepared, Metrics, Kernels, arithmetic_gate_passes}
use comfy_ui_sol_h.Caches.DeviceDescriptor.{Device}
use comfy_ui_sol_h.PartitionedRequest.Arguments.{Arguments, native_scale}
use comfy_ui_sol_h.PartitionedRequest.Engine.{Engine}
use comfy_ui_sol_h.PartitionedRequest.Completions.{Counters, Request, Done}
use comfy_ui_sol_h.Py.Outcome.{Outcome, runtime_error}
use comfy_ui_sol_h.PartitionedRequest.Attention.{
  partitioned_request_attention, sparse_result, trusted_layout, sparse_done,
}
use comfy_ui_sol_h.PartitionedRequest.Returned.{
  IsPublished, partitioned_request_attention-IsPublished,
}
use comfy_ui_sol_h.PartitionedRequest.Counted.{IsBalanced, partitioned_request_attention-IsBalanced}
use comfy_ui_sol_h.PartitionedRequest.Tensors.{
  Strided, Tensor, validate_thd, geometry_valid, float32, bfloat16,
}
use comfy_ui_sol_h.Caches.Lru.{empty_cache}
use comfy_ui_sol_h.Contracts.Config.{default_config}
use comfy_ui_sol_h.Base.Int.{pos}
use comfy_ui_sol_h.Interop.Warmup.{dense_evaluation_warmup}
use comfy_ui_sol_h.Caches.Bias.{key_bias}
use comfy_ui_sol_h.Receipts.Publish.{record_completion}
use comfy_ui_sol_h.Receipts.Ledger.{holds_value, add_value}
use comfy_ui_sol_h.MappedNeighbors.Wire.{digest_of}
use comfy_ui_sol_h.PartitionedRequest.Descriptors.{descriptor_for_wire, no_mapping}
use comfy_ui_sol_h.PartitionedRequest.Union.{sm120_union}
use comfy_ui_sol_h.PartitionedRequest.Dense.{weighted_dense}
use comfy_ui_sol_h.PartitionedRequest.Failed.{partitioned_request_attention-raises}
use comfy_ui_sol_h.PartitionedRequest.Calls.{Plan}
use comfy_ui_sol_h.PartitionedRequest.Gated.{IsMeasured, sparse_result-IsMeasured, Launched}

abbrev hex_digest : String
hex_digest = "0123456789abcdef0123456789abcdef0123456789abcdef0123456789abcdef"

abbrev constant_sha256 : Value → String
constant_sha256 v = hex_digest

constant_sha256-digest_text : (v : Value) → digest_text (constant_sha256 v) ≡ true
unfolding digest_text
constant_sha256-digest_text v = refl

abbrev row : ℕ → Strided
row n = record { shape = n ∷ []; strides = 1 ∷ []; dtype = float32 }

abbrev plain_prepared : Prepared ℕ
plain_prepared = record { kc = row 2; vc = row 2; threshold = row 2; centroids = 0 }

abbrev good_metrics : Metrics
good_metrics = record {
  all_finite = true;
  mean_abs = whole 0;
  rel_l2 = whole 0;
  max_abs = whole 0;
  catastrophic_max_abs_limit = whole 1;
}

abbrev number_kernels : Kernels ℕ ℕ
number_kernels = record {
  capability = λ d. (12, 0);
  index = λ d. 0;
  tracked = false;
  capturing = false;
  core_ops = true;
  verify_source = Outcome.ok tt;
  backend_for_arch = λ arch. "cute_sm120";
  validate_cute = λ arch n. Outcome.ok tt;
  grouped = λ q k v tau scale. none;
  prepare = λ q k v tau scale. plain_prepared;
  sink_block_range = λ kv_rows start stop. (start / 64, (stop + 63) / 64);
  unsqueeze = λ t. t;
  empty_like = λ t. t;
  compile = λ key l. Outcome.ok tt;
  launch = λ l. Outcome.ok (l.q.contents + l.k.contents + l.v.contents);
  dense = λ q k v bias scale. Outcome.ok (q.contents + k.contents + v.contents);
  float32 = λ f. f;
  rounded = λ d b. b;
  error_metrics = λ a b. Outcome.ok good_metrics;
}

abbrev cuda : Device
cuda = record { is_cuda = true; name = "cuda:0" }

abbrev thd : ℕ → ℕ → Tensor ℕ
thd n c = record {
  layout = record { shape = n ∷ 2 ∷ 128 ∷ []; strides = 256 ∷ 128 ∷ 1 ∷ []; dtype = bfloat16 };
  device = cuda;
  contents = c;
}

abbrev sparse_call : Arguments ℕ
sparse_call = record {
  q = thd 70 1;
  k = thd 80 2;
  v = thd 80 4;
  transformer_options = dict end;
  block_index = int (pos 5);
  kind = "local";
  scale = native_scale;
  sink_rows = int (pos 16);
  prefix_k_range = nothing;
  prefix_log_key_measure = whole 0;
  semantic_digest = str hex_digest;
  query_position_map = nothing;
  force_dense = false;
}

abbrev idle_engine : Engine
idle_engine = record {
  bias = record { cache = empty_cache; unit_measure_calls = 0 };
  descriptors = empty_cache;
  source_verified = false;
  source_verification_calls = 0;
  compiled = [];
  compile_calls = 0;
  compile_cache_hits = 0;
  core_dense_calls = 0;
  torch_dense_calls = 0;
  weighted_dense_verified = [];
  weighted_dense_calls = 0;
  weighted_dense_q_rows = 0;
  sparse_verified = [];
  gates = [];
}

abbrev no_counts : Counters
no_counts = record {
  eligible_calls = 0;
  dense_calls = 0;
  partitioned_dense_calls = 0;
  partitioned_sparse_calls = 0;
  partitioned_requested_q_rows = 0;
  partitioned_kernel_q_rows = 0;
  sparse_calls = 0;
  vdn_local_sol_calls = 0;
  vdn_requested_q_rows = 0;
  vdn_kernel_q_rows = 0;
  vdn_rectangular_sol_calls = 0;
  vdn_mapped_sol_calls = 0;
}

abbrev start : Request
start = record {
  ledger = record {
    identity = 7;
    forward = some (record { owner = 7; evaluation = 3; routes = [] });
    mapped_validated = [];
    partitioned_validated = [];
    receipt_evaluation = none;
    partitioned_receipts = 0;
    sink = some [];
  };
  config = default_config;
  engine = idle_engine;
  counters = no_counts;
}

abbrev after_call : Outcome ℕ × Request
after_call = partitioned_request_attention number_kernels constant_sha256 sparse_call start

sparse_call-returns : after_call.0 ≡ Outcome.ok 7
unfolding partitioned_request_attention validate_thd geometry_valid is_finite float_lt float_eq
    digest_text dense_evaluation_warmup key_bias arithmetic_gate_passes float_le record_completion
    py_eq holds_value add_value digest_of descriptor_for_wire sm120_union weighted_dense
sparse_call-returns = refl

partitioned_request_attention-IsPublished_example :
    IsPublished constant_sha256 start.config sparse_call 7 start.ledger after_call.1.ledger
partitioned_request_attention-IsPublished_example =
    partitioned_request_attention-IsPublished number_kernels constant_sha256
      constant_sha256-digest_text sparse_call start after_call.1 7
      (ap (λ o. (o, after_call.1)) sparse_call-returns)

no_counts-IsBalanced : IsBalanced no_counts
no_counts-IsBalanced = record {
  calls = omega arith;
  rows = refl;
  sparse = omega arith;
  rectangular = omega arith;
  mapped = omega arith;
  vdn_rows = omega arith;
}

partitioned_request_attention-IsBalanced_example : IsBalanced after_call.1.counters
partitioned_request_attention-IsBalanced_example =
    partitioned_request_attention-IsBalanced number_kernels constant_sha256 sparse_call start
      no_counts-IsBalanced

-- A launch that fails late in the call.
abbrev failing_kernels : Kernels ℕ ℕ
failing_kernels = record number_kernels { launch = λ l. Outcome.raise (runtime_error "launch") }

abbrev after_failure : Outcome ℕ × Request
after_failure = partitioned_request_attention failing_kernels constant_sha256 sparse_call start

sparse_call-fails : after_failure.0 ≡ Outcome.raise (runtime_error "launch")
unfolding partitioned_request_attention validate_thd geometry_valid is_finite float_lt float_eq
    digest_text dense_evaluation_warmup key_bias arithmetic_gate_passes float_le record_completion
    py_eq holds_value add_value digest_of descriptor_for_wire sm120_union weighted_dense
sparse_call-fails = refl

partitioned_request_attention-raises_example : after_failure.1.ledger ≡ start.ledger
partitioned_request_attention-raises_example =
    partitioned_request_attention-raises failing_kernels constant_sha256 sparse_call start
      (runtime_error "launch") sparse_call-fails

abbrev sparse_plan : Plan ℕ
sparse_plan = record {
  arguments = sparse_call;
  checked = record { block = 5; sink = 16; semantic_digest = hex_digest };
  warmup = false;
  key_bias = none;
  prefix = none;
  exact_end = 16;
  mapping = no_mapping;
}

abbrev run_of_plan : Outcome (Done ℕ) × Engine
run_of_plan = sparse_result number_kernels constant_sha256 default_config sparse_plan idle_engine

sparse_plan-returns :
    run_of_plan.0 ≡ Outcome.ok (sparse_done number_kernels constant_sha256 sparse_plan 7)
unfolding sparse_result sm120_union weighted_dense arithmetic_gate_passes float_le py_eq holds_value
    add_value
sparse_plan-returns = refl

sparse_result-IsMeasured_example :
    Launched number_kernels sparse_plan sparse_plan.exact_end 7
    × ((trusted_layout number_kernels constant_sha256 sparse_plan idle_engine ≡ true)
        ⊎ IsMeasured number_kernels sparse_plan)
sparse_result-IsMeasured_example =
    sparse_result-IsMeasured number_kernels constant_sha256 default_config sparse_plan idle_engine
      run_of_plan.1 (sparse_done number_kernels constant_sha256 sparse_plan 7)
      (ap (λ o. (o, run_of_plan.1)) sparse_plan-returns)
