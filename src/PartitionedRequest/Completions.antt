-- ===== src/PartitionedRequest/Completions.antt =====
-- What `partitioned_request_attention` of sol_h3/partitioned_request.py counts, keys its gates by and
-- says of a completed call.
use comfy_ui_sol_h.Base.{
  none, some, [], ◌∷◌, String, ℕ, Option, Bool, false, ◌||◌, if◌then◌else◌, ◌++◌, List, true,
}
use comfy_ui_sol_h.PartitionedRequest.Calls.{Plan}
use comfy_ui_sol_h.PartitionedRequest.Checks.{Union}
use comfy_ui_sol_h.PartitionedRequest.Engine.{Engine, Gate}
use comfy_ui_sol_h.PartitionedRequest.Kernels.{Prepared}
use comfy_ui_sol_h.PartitionedRequest.Tensors.{rows_in}
use comfy_ui_sol_h.Contracts.Config.{Config}
use comfy_ui_sol_h.Receipts.Ledger.{Ledger, add_value}
use comfy_ui_sol_h.Receipts.Publish.{
  Call, Mapped, k_range, rows, map_digest_of, descriptor_digest_of,
}
use comfy_ui_sol_h.MappedNeighbors.Types.{ValidatedMap, DescriptorPlan}
use comfy_ui_sol_h.Py.{Value, str, bool, tuple, dict, entry, end, values, float}
use comfy_ui_sol_h.Receipts.Partitioned.{request_abi}
use comfy_ui_sol_h.PartitionedRequest.Dense.{numbers}

-- `CONTRACT` of sol_h3/provenance.py.
abbrev pub sol_contract : String
sol_contract = "sana-sol-engine-sol-attn-64-rect-sm120-query-origin-v5"

-- The counts that `partitioned_request_attention` itself keeps.
pub record Counters : Type 0 where
  pub eligible_calls : ℕ
  pub dense_calls : ℕ
  pub partitioned_dense_calls : ℕ
  pub partitioned_sparse_calls : ℕ
  pub partitioned_requested_q_rows : ℕ
  pub partitioned_kernel_q_rows : ℕ
  pub sparse_calls : ℕ
  pub vdn_local_sol_calls : ℕ
  pub vdn_requested_q_rows : ℕ
  pub vdn_kernel_q_rows : ℕ
  pub vdn_rectangular_sol_calls : ℕ
  pub vdn_mapped_sol_calls : ℕ

pub record Request : Type 0 where
  pub ledger : Ledger
  pub config : Config
  pub engine : Engine
  pub counters : Counters

-- A result, and what is said of it.
pub record Done (C : Type 0) : Type 0 where
  pub result : C
  pub route : String
  pub completion : Call

abbrev pub is_some : {A : Type 0} → Option A → Bool
is_some none = false
is_some (some a) = true

abbrev pub descriptor_digest_in : Option DescriptorPlan → Option String
descriptor_digest_in none = none
descriptor_digest_in (some d) = some d.descriptor_digest

abbrev pub mapped_in : Option ValidatedMap → Option DescriptorPlan → Option Mapped
mapped_in none descriptor = none
mapped_in (some v) descriptor =
    some (record { map_digest = v.map_digest; descriptor_digest = descriptor_digest_in descriptor })

module _ {C : Type 0} where
  abbrev pub is_dense : Plan C → Bool
  is_dense p = p.arguments.force_dense || p.warmup

  unfoldable pub completion_of : Plan C → (mode : String) → (contract : Option String) → Call
  completion_of p mode contract = record {
    semantic_digest = p.checked.semantic_digest;
    kind = p.arguments.kind;
    execution_mode = mode;
    q_rows = rows_in p.arguments.q;
    kv_rows = rows_in p.arguments.k;
    sink_rows = p.checked.sink;
    prefix_k_range = p.prefix;
    prefix_log_key_measure = p.arguments.prefix_log_key_measure;
    mapped = mapped_in p.mapping.validated p.mapping.descriptor;
    kernel_contract = contract;
  }

  abbrev pub native_mode : Plan C → String
  native_mode p = if p.arguments.force_dense then "dense_forced" else "dense_warmup"

  abbrev pub sm120_mode : Plan C → String
  sm120_mode p = if p.arguments.force_dense then "dense_sm120_forced" else "dense_sm120_warmup"

  -- The identity of the numbers that a weighted dense gate was about.
  abbrev pub numerical_identity : Plan C → Value
  numerical_identity p = tuple (
      values (
        str p.checked.semantic_digest
        ∷ k_range p.prefix
        ∷ float p.arguments.prefix_log_key_measure
        ∷ []))

  abbrev pub sparse_gate : Plan C → Gate
  sparse_gate p = record {
    route = request_abi;
    kind = p.arguments.kind;
    mapped_neighbor_abi = is_some p.mapping.intervals;
    key_measure_bias = is_some p.key_bias;
  }

  abbrev pub trust_sparse : Value → Plan C → Engine → Engine
  trust_sparse key p s = record s {
    sparse_verified = add_value key s.sparse_verified;
    gates = s.gates ++ sparse_gate p ∷ [];
  }

  module _ {P : Type 0} where
    abbrev pub union_of : Plan C → Config → (sink_rows : ℕ) → Option (List (Prepared P)) → Union C P
    union_of p config sink_rows shared = record {
      q = p.arguments.q;
      k = p.arguments.k;
      v = p.arguments.v;
      tau = config.tau;
      scale = p.arguments.scale;
      sink_rows = sink_rows;
      key_bias = p.key_bias;
      mapped = p.mapping.intervals;
      preparation = shared;
    }

  -- What the sparse gate of a call depends on besides the layouts.
  abbrev pub calibration_payload : Plan C → Value
  calibration_payload p =
      let m = mapped_in p.mapping.validated p.mapping.descriptor in
      dict (
        entry "abi" (str request_abi) (
          entry "semantic_digest" (str p.checked.semantic_digest) (
            entry "kind" (str p.arguments.kind) (
              entry "q_rows" (rows (rows_in p.arguments.q)) (
                entry "kv_rows" (rows (rows_in p.arguments.k)) (
                  entry "sink_rows" (rows p.checked.sink) (
                    entry "exact_end" (rows p.exact_end) (
                      entry "mapped" (bool (is_some p.mapping.intervals)) (
                        entry "map_digest" (map_digest_of m)
                          (entry "descriptor_digest" (descriptor_digest_of m) end))))))))))

  abbrev pub sparse_layout_key : (sha256_json : Value → String) → Plan C → Value
  sparse_layout_key sha256_json p =
      let a = p.arguments in
      tuple (
        values (
          numbers a.q.layout.shape
          ∷ numbers a.q.layout.strides
          ∷ numbers a.k.layout.shape
          ∷ numbers a.k.layout.strides
          ∷ numbers a.v.layout.shape
          ∷ numbers a.v.layout.strides
          ∷ str (sha256_json (calibration_payload p))
          ∷ []))
