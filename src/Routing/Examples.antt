-- ===== src/Routing/Examples.antt =====
-- Runs of `vdn_provider_v4` of sol_h3/runtime.py on a map that shifts two of its rows, with kernels
-- whose results are numbers; an external sequence, a chain of two preprocessors, and a dense provider
-- that cannot be loaded.
use comfy_ui_sol_h.Base.{
  String, ℕ, ◌≡◌, true, some, refl, ◌∷◌, false, [], ap, none, ◌+◌, Option, suc, ◌<◌, zero, arith,
  List, some≢none, sym,
}
use comfy_ui_sol_h.Py.{Value, tuple, dict, values, entry, end, str, nothing, int, cons, nil, py_eq}
use comfy_ui_sol_h.Caches.DeviceDescriptor.{Device}
use comfy_ui_sol_h.Routing.State.{Scope, LocalCall, Block, record_route}
use comfy_ui_sol_h.Py.Outcome.{Outcome, ◌>>=◌, import_error}
use comfy_ui_sol_h.Routing.Local.{vdn_provider_v4, vdn_legacy_local}
use comfy_ui_sol_h.Routing.Recorded.{IsRecorded, LegacySource, vdn_legacy_local-IsRecorded}
use comfy_ui_sol_h.PartitionedRequest.Tensors.{Tensor, bfloat16}
use comfy_ui_sol_h.Contracts.Config.{default_config}
use comfy_ui_sol_h.PartitionedRequest.Arguments.{native_scale}
use comfy_ui_sol_h.MappedNeighbors.Types.{wire_tag}
use comfy_ui_sol_h.Base.Int.{pos}
use comfy_ui_sol_h.Caches.Lru.{empty_cache}
use comfy_ui_sol_h.Routing.External.{external_sequence_prefix, prefix_of}
use comfy_ui_sol_h.Routing.ExternalPacked.{IsExternal, external_sequence_prefix-IsExternal}
use comfy_ui_sol_h.Contracts.Layout.{Layout, place, span_at, known_kind}
use comfy_ui_sol_h.Routing.Providers.{
  Operands, Operand, provider_leaf, preprocess_chain, onward, Leads, here, visit_all, transformed,
}
use comfy_ui_sol_h.Routing.ProviderChains.{provider_leaf-Leads, preprocess_chain-Leads}
use Prim.Native.Nat.{zero}
use comfy_ui_sol_h.Routing.Dense.{Attention, DenseState, dense_call}
use comfy_ui_sol_h.Routing.Demoted.{IsAnswered, dense_call-IsAnswered}

abbrev hex_digest : String
hex_digest = "0123456789abcdef0123456789abcdef0123456789abcdef0123456789abcdef"

abbrev constant_sha256 : Value → String
constant_sha256 v = hex_digest

-- 80 query rows, from key row 16 on.
abbrev shifted_map : Value
shifted_map = tuple (
    values (
      str wire_tag
      ∷ int (pos 1)
      ∷ str "owner"
      ∷ str hex_digest
      ∷ int (pos 0)
      ∷ int (pos 80)
      ∷ int (pos 96)
      ∷ int (pos 16)
      ∷ tuple (cons (tuple (values (int (pos 0) ∷ int (pos 80) ∷ int (pos 16) ∷ []))) nil)
      ∷ []))

abbrev plan_summary : Value
plan_summary = dict (
    entry "tag" (str "vdn_query_position_plan_v1") (
      entry "schema" (int (pos 1)) (
        entry "mode" (str "grouped") (
          entry "owner_generation" (str "owner") (
            entry "plan_digest" (str hex_digest)
              (entry "groups" (tuple (cons shifted_map nil)) end))))))

abbrev cuda : Device
cuda = record { is_cuda = true; name = "cuda:0" }

abbrev thd : ℕ → ℕ → Tensor ℕ
thd n c = record {
  layout = record { shape = n ∷ 2 ∷ 128 ∷ []; strides = 256 ∷ 128 ∷ 1 ∷ []; dtype = bfloat16 };
  device = cuda;
  contents = c;
}

abbrev block_scope : Scope ℕ ℕ
block_scope = record {
  index = 5;
  config = default_config;
  evaluation = 3;
  options = dict end;
  layout = nothing;
  streamed = false;
  capability = λ d. (12, 0);
  tracked = false;
  capturing = false;
  head_scale = λ d. native_scale;
  heads_first = λ c. c;
  reshaped = λ shape c. c;
  attention = λ call k. (Outcome.ok (call.q.contents + call.k.contents), k + 1);
  describe = some (λ options layout. Outcome.ok plan_summary);
}

abbrev local_call : LocalCall ℕ
local_call = record {
  native = Outcome.ok 100;
  q = thd 80 1;
  k = thd 96 2;
  v = thd 96 4;
  kind = "local";
  scale = native_scale;
  square_aligned = false;
  sink_rows = int (pos 16);
  query_position_map = shifted_map;
}

abbrev start : Block ℕ
start = record {
  ledger = record {
    identity = 7;
    forward = some (record { owner = 7; evaluation = 3; routes = [] });
    mapped_validated = [];
    partitioned_validated = [];
    receipt_evaluation = none;
    partitioned_receipts = 0;
    sink = some [];
  };
  eligible_calls = 0;
  dense_calls = 0;
  fallbacks = [];
  descriptors = empty_cache;
  vdn_local_sol_calls = 0;
  vdn_mapped_sol_calls = 0;
  vdn_rectangular_sol_calls = 0;
  vdn_requested_q_rows = 0;
  vdn_kernel_q_rows = 0;
  sparse = 0;
}

abbrev after_call : Outcome ℕ × Block ℕ
after_call = vdn_provider_v4 block_scope constant_sha256 local_call start

-- The older provider leaves the rectangular call to VDN.
abbrev after_legacy : Outcome ℕ × Block ℕ
after_legacy = vdn_legacy_local block_scope local_call start

legacy_call-returns : after_legacy.0 ≡ Outcome.ok 100
unfolding vdn_legacy_local record_route
legacy_call-returns = refl

vdn_legacy_local-IsRecorded_example :
    IsRecorded
      (LegacySource block_scope local_call start.sparse)
      5
      start.ledger
      after_legacy.1.ledger
      100
vdn_legacy_local-IsRecorded_example =
    vdn_legacy_local-IsRecorded block_scope local_call start after_legacy.1 100
      (ap (λ o. (o, after_legacy.1)) legacy_call-returns)

-- Two protected frames of nine rows and one of four, behind three rows of text.
abbrev grid_sequence : Value
grid_sequence = dict (
    entry "api" (int (pos 2)) (
      entry "mode" (str "dense_gate_no_linear") (
        entry "topology" (str "mixed_grid_low_suffix") (
          entry "native_sequence_rows" (int (pos 15)) (
            entry "sequence_rows" (int (pos 25)) (
              entry "video_start" (int (pos 3)) (
                entry "temporal" (int (pos 3)) (
                  entry "prefix_t" (int (pos 2)) (
                    entry "source_rows_per_frame" (int (pos 4))
                      (entry "prefix_rows_per_frame" (int (pos 9)) end))))))))))

abbrev grid_layout : Layout
grid_layout = record {
  segments =
      record { a = int (pos 0); b = int (pos 3); kind = "text" }
      ∷ record { a = int (pos 3); b = int (pos 25); kind = "video" }
      ∷ [];
  seq_len = int (pos 25);
}

grid_prefixed : external_sequence_prefix grid_sequence grid_layout 25 ≡ prefix_of 3
unfolding external_sequence_prefix py_eq place span_at known_kind
grid_prefixed = refl

external_sequence_prefix-IsExternal_example : IsExternal grid_sequence grid_layout 25 3
external_sequence_prefix-IsExternal_example =
    external_sequence_prefix-IsExternal grid_sequence grid_layout 25 3 grid_prefixed

-- Provider 0 is wrapped around provider 1, and that one around the leaf 2.
abbrev wrapped : ℕ → Option ((Operands ℕ → Outcome (Operands ℕ)) × ℕ)
wrapped zero = some (Outcome.ok, 1)
wrapped (suc zero) = some (Outcome.ok, 2)
wrapped (suc (suc n)) = none

wrapped-bounded :
    (p : ℕ) (t : Operands ℕ → Outcome (Operands ℕ)) (q : ℕ) → wrapped p ≡ some (t, q) → p < 2
wrapped-bounded zero t q e = omega arith
wrapped-bounded (suc zero) t q e = omega arith
wrapped-bounded (suc (suc n)) t q e = absurd (some≢none (sym e))

abbrev operand : Operand ℕ
operand = record { shape = 1 ∷ 2 ∷ []; dtype = "bf16"; device = "cuda:0"; contents = 4 }

abbrev operands : Operands ℕ
operands = record { q = operand; k = operand; v = operand }

preprocess_chain-Leads_example :
    (o : Outcome (Operands ℕ × ℕ)) × (preprocess_chain wrapped 2 0 operands ≡ some o)
    × ((leaf : ℕ) (ts : List (Operands ℕ → Outcome (Operands ℕ)))
        → Leads wrapped leaf 0 ts
        → o ≡ (visit_all transformed ts operands >>= λ z. Outcome.ok (z, leaf)))
preprocess_chain-Leads_example = preprocess_chain-Leads wrapped 2 0 operands wrapped-bounded

provider_leaf-Leads_example : provider_leaf wrapped 2 0 ≡ some (Outcome.ok (tt, 2))
provider_leaf-Leads_example =
    provider_leaf-Leads wrapped 2 0 2 (Outcome.ok ∷ Outcome.ok ∷ []) wrapped-bounded
      (onward refl (onward refl (here refl refl)))

abbrev broken : Attention ℕ
broken = record {
  object = 5;
  name = "sage";
  outcome = Outcome.raise (import_error "undefined symbol: x");
}

abbrev fallback : Attention ℕ
fallback = record { object = 6; name = "original"; outcome = Outcome.ok 8 }

abbrev fresh_dense : DenseState
fresh_dense = record {
  disabled_dense_providers = [];
  dense_provider_failures = [];
  fallbacks = [];
  backend_transitions = 3;
  dense_attention_backends = [];
}

-- The provider is given up, and the original attention gives the result.
dense_call-IsAnswered_example :
    IsAnswered 3
      (some fallback)
      (some broken)
      fresh_dense
      (dense_call (some fallback) (some broken) fresh_dense)
dense_call-IsAnswered_example =
    dense_call-IsAnswered 3 (some fallback) (some broken) fresh_dense
      (record { distinct = tt; failures = refl; transitions = refl })
