-- ===== src/Routing/Local.antt =====
-- The providers that `BlockPatch._call` of sol_h3/runtime.py gives to VDN for its local attention:
-- `_vdn_legacy_local` behind the versions 1 to 3, and `vdn_provider_v4`.
use Prim.Native.String.{◌++◌ as text_append}
use comfy_ui_sol_h.Py.Outcome.{Outcome, kernel_unavailable, mapping_unavailable}
use comfy_ui_sol_h.Base.{
  String, Bool, Option, not, if◌then◌else◌, ℕ, ◌+◌, List, some, ◌&&◌, true, none, str_eq, false,
  ◌==◌,
}
use comfy_ui_sol_h.Routing.State.{Scope, LocalCall, Block, record_route, Attend, in_warmup}
use comfy_ui_sol_h.PartitionedRequest.Engine.{Stateful, modify, ◌>>◌, lift, ◌>>=◌, pure}
use comfy_ui_sol_h.PartitionedRequest.Tensors.{Tensor, rows_in, last?}
use comfy_ui_sol_h.Py.{
  Value, dict, find, int, entry, Entries, get, bool, float_eq, end, natural, nothing,
}
use comfy_ui_sol_h.Routing.Shapes.{
  shape_reason, local_domain, heads_first_axes, is_nothing, same_shape,
}
use comfy_ui_sol_h.Caches.DeviceDescriptor.{Given, Descriptors, device_descriptor}
use comfy_ui_sol_h.Routing.Preflight.{validate_preflight_summary}
use comfy_ui_sol_h.Receipts.Mapped.{int_within, mapped_receipt_fields}
use comfy_ui_sol_h.MappedNeighbors.Types.{DescriptorPlan, Result, Interval, ValidatedMap}
use comfy_ui_sol_h.Receipts.Publish.{rows, mapped_local_route}
use mathlib.Core.Option.{none}
use comfy_ui_sol_h.MappedNeighbors.Wire.{validate_cold}
use comfy_ui_sol_h.PartitionedRequest.Descriptors.{reason_text}
use comfy_ui_sol_h.Base.Int.{pos}
use comfy_ui_sol_h.PartitionedRequest.Attention.{one_if}
use comfy_ui_sol_h.Receipts.History.{measure_key}
use comfy_ui_sol_h.MappedNeighbors.Descriptor.{compile_cold}
use comfy_ui_sol_h.PartitionedRequest.Completions.{sol_contract}
use comfy_ui_sol_h.PartitionedRequest.Union.{heads_of}

-- `try: ... except KernelUnavailable`, on an attempt that has ended.
abbrev pub or_caught :
    {S A B : Type 0}
    → Outcome A
    → S
    → (caught : String → Stateful S B) → (A → Stateful S B)
    → Outcome B × S
or_caught (Outcome.ok a) s caught next = next a s
or_caught (Outcome.raise (kernel_unavailable message)) s caught next = caught message s
or_caught (Outcome.raise exn) s caught next = (Outcome.raise exn, s)

-- The same for `MappingUnavailable`.
abbrev pub or_unmapped :
    {S A B : Type 0}
    → Outcome A
    → S
    → (caught : String → Stateful S B) → (A → Stateful S B)
    → Outcome B × S
or_unmapped (Outcome.ok a) s caught next = next a s
or_unmapped (Outcome.raise (mapping_unavailable reason)) s caught next = caught reason s
or_unmapped (Outcome.raise exn) s caught next = (Outcome.raise exn, s)

abbrev or_zero : Option ℕ → ℕ
or_zero none = 0
or_zero (some n) = n

abbrev entries_of : Value → Entries
entries_of (dict es) = es
entries_of _ = end

abbrev pub mapping_route : String → String
mapping_route reason = text_append "vdn_local_native_mapping:" reason

abbrev or_else : {A : Type 0} → Bool → A → Option A → Option A
or_else fine a o = if fine then o else some a

module _ {C K : Type 0} (scope : Scope C K) where
  abbrev pub view : Tensor C → Tensor C
  view t = record {
    layout = record {
      shape = heads_first_axes 1 t.layout.shape;
      strides = heads_first_axes 0 t.layout.strides;
      dtype = t.layout.dtype;
    };
    device = t.device;
    contents = scope.heads_first t.contents;
  }

  abbrev head_dimension : Tensor C → ℕ
  head_dimension t = or_zero (last? t.layout.shape)

  abbrev pub skip_reshape : Value
  skip_reshape = dict (entry "skip_reshape" (bool true) end)

  -- The last check that fails names the reason.
  unfoldable pub local_reason : LocalCall C → Option String
  unfolding shape_reason
  local_reason call = or_else (int_within call.sink_rows (rows (rows_in call.k))) "vdn_sink_rows" (
      or_else (float_eq call.scale (scope.head_scale (head_dimension call.q))) "vdn_scale" (
        shape_reason scope.capability scope.tracked true (view call.q) (view call.k) (view call.v)
          (heads_of call.q.layout.shape) nothing skip_reshape))

  -- `sink_rows`, once it has been checked.
  abbrev pub sink_of : LocalCall C → ℕ
  sink_of call = or_zero (natural call.sink_rows)

  -- VDN's own attention, and the route that says why.
  abbrev pub fall_back : LocalCall C → String → Stateful (Block K) C
  fall_back call route = record_route scope route true none >> lift call.native

  abbrev pub note_eligible : Block K → Block K
  note_eligible s = record s { eligible_calls = s.eligible_calls + 1 }

  abbrev pub note_dense : Block K → Block K
  note_dense s = record s { dense_calls = s.dense_calls + 1 }

  abbrev pub warm_up : LocalCall C → Stateful (Block K) C
  warm_up call =
      modify note_dense >> record_route scope "vdn_dense_warmup" false none >> lift call.native

  abbrev pub attend_of : LocalCall C → Option (List Interval) → Option String → Attend C
  attend_of call intervals identity = record {
    q = view call.q;
    k = view call.k;
    v = view call.v;
    sink_rows = sink_of call;
    mapped_neighbor_intervals = intervals;
    mapped_calibration_identity = identity;
  }

  abbrev pub with_sparse : Block K → K → Block K
  with_sparse s k = record s { sparse = k }

  -- The sparse attention, or the fallback if no kernel is available.
  unfoldable pub try_attention :
      LocalCall C → Attend C → (C → Stateful (Block K) C) → Stateful (Block K) C
  try_attention call arguments next s =
      or_caught (scope.attention arguments s.sparse).0
        (with_sparse s (scope.attention arguments s.sparse).1)
        (λ message. fall_back call (text_append "kernel_unavailable:" message)) next

  abbrev count_local : LocalCall C → Block K → Block K
  count_local call s = record s {
    vdn_requested_q_rows = s.vdn_requested_q_rows + rows_in call.q;
    vdn_kernel_q_rows = s.vdn_kernel_q_rows + rows_in call.q;
    vdn_local_sol_calls = s.vdn_local_sol_calls + 1;
  }

  abbrev pub finish_local : LocalCall C → C → Stateful (Block K) C
  finish_local call result =
      modify (count_local call)
      >> record_route scope "vdn_local_sol" false none
      >> pure (scope.reshaped call.q.layout.shape result)

  unfoldable pub run_local : LocalCall C → Stateful (Block K) C
  unfolding try_attention
  run_local call =
      modify note_eligible
      >> (if in_warmup scope
          then warm_up call
          else try_attention call (attend_of call none none) (finish_local call))

  abbrev pub run_unless : LocalCall C → Option String → Stateful (Block K) C → Stateful (Block K) C
  run_unless call none run = run
  run_unless call (some reason) run = fall_back call reason

  abbrev pub other_kind : LocalCall C → String
  other_kind call = text_append "vdn_" (text_append call.kind "_native")

  abbrev pub square : LocalCall C → Bool
  square call =
      call.square_aligned
      && same_shape call.q.layout.shape call.k.layout.shape
      && same_shape call.q.layout.shape call.v.layout.shape

  abbrev pub in_domain : LocalCall C → Bool
  in_domain call = local_domain call.q.layout.shape call.k.layout.shape call.v.layout.shape

  -- VDN's own attention unless a test passes.
  abbrev pub guarded : LocalCall C → Bool → String → Stateful (Block K) C → Stateful (Block K) C
  guarded call fine route run = if not fine then fall_back call route else run

  abbrev pub domain_local : LocalCall C → Stateful (Block K) C
  domain_local call =
      guarded call (in_domain call) "vdn_local_domain"
        (run_unless call (local_reason call) (run_local call))

  abbrev pub square_local : LocalCall C → Stateful (Block K) C
  square_local call = guarded call (square call) "vdn_local_native" (domain_local call)

  unfoldable pub vdn_legacy_local : LocalCall C → Stateful (Block K) C
  unfolding local_domain local_reason run_local
  vdn_legacy_local call =
      guarded call (str_eq call.kind "local") (other_kind call) (square_local call)

  abbrev count_mapped : LocalCall C → Block K → Block K
  count_mapped call s = record s {
    vdn_requested_q_rows = s.vdn_requested_q_rows + rows_in call.q;
    vdn_kernel_q_rows = s.vdn_kernel_q_rows + rows_in call.q;
    vdn_rectangular_sol_calls =
        s.vdn_rectangular_sol_calls + one_if (not (rows_in call.q == rows_in call.k));
    vdn_local_sol_calls = s.vdn_local_sol_calls + 1;
    vdn_mapped_sol_calls = s.vdn_mapped_sol_calls + 1;
  }

  abbrev pub finish_mapped : LocalCall C → DescriptorPlan → C → Stateful (Block K) C
  finish_mapped call plan result =
      modify (count_mapped call)
      >> record_route scope mapped_local_route false
          (some (mapped_receipt_fields plan sol_contract))
      >> pure (scope.reshaped call.q.layout.shape result)

  abbrev pub given_tensor : Outcome Given → Outcome (List Interval)
  given_tensor (Outcome.ok given) = Outcome.ok given.0
  given_tensor (Outcome.raise exn) = Outcome.raise exn

  abbrev pub given_cache : Outcome Given → Descriptors → Descriptors
  given_cache (Outcome.ok given) cache = given.1
  given_cache (Outcome.raise exn) cache = cache

  abbrev pub given_to : LocalCall C → DescriptorPlan → Block K → Outcome Given
  given_to call plan s = device_descriptor scope.capturing plan call.q.device s.descriptors

  abbrev pub with_cache : LocalCall C → DescriptorPlan → Block K → Block K
  with_cache call plan s = record s {
    descriptors = given_cache (given_to call plan s) s.descriptors;
  }

  unfoldable pub device_tensor :
      LocalCall C → DescriptorPlan → (List Interval → Stateful (Block K) C) → Stateful (Block K) C
  device_tensor call plan next s =
      or_unmapped (given_tensor (given_to call plan s)) (with_cache call plan s)
        (λ reason. fall_back call (mapping_route reason)) next

  -- The sparse attention on the neighbours that the descriptor names.
  abbrev pub attend_mapped : LocalCall C → DescriptorPlan → List Interval → Stateful (Block K) C
  attend_mapped call plan intervals =
      try_attention call (attend_of call (some intervals) (some plan.descriptor_digest))
        (finish_mapped call plan)

  unfoldable pub run_mapped : LocalCall C → DescriptorPlan → Stateful (Block K) C
  unfolding device_tensor try_attention
  run_mapped call plan =
      modify note_eligible
      >> (if in_warmup scope
          then warm_up call
          else device_tensor call plan (attend_mapped call plan))

  -- The plan hook of the forward must own the map.
  abbrev pub with_summary : LocalCall C → DescriptorPlan → Value → Stateful (Block K) C
  with_summary call plan summary =
      guarded call (validate_preflight_summary summary call.query_position_map (some plan))
        (mapping_route "owner") (run_mapped call plan)

  abbrev pub layout_of : Value
  layout_of = elim (find "minimax_h3_layout" (entries_of scope.options)) [
    | none ↦ scope.layout
    | some layout ↦ layout
  ]

  abbrev pub with_hook :
      LocalCall C → DescriptorPlan → Option (Value → Value → Outcome Value) → Stateful (Block K) C
  with_hook call plan none = fall_back call (mapping_route "owner")
  with_hook call plan (some describe) =
      lift (describe scope.options layout_of) >>= with_summary call plan

  -- An identity-aligned map is left to the older provider.
  unfoldable pub with_descriptor : LocalCall C → Option DescriptorPlan → Stateful (Block K) C
  unfolding validate_preflight_summary run_mapped vdn_legacy_local
  with_descriptor call none = vdn_legacy_local call
  with_descriptor call (some plan) = with_hook call plan scope.describe

  -- Weighted and external routes have their own owners.
  unfoldable pub claimed_elsewhere : Bool
  claimed_elsewhere = not (
      is_nothing (get measure_key scope.options)
      && is_nothing (get "h3_flow_mixed_grid_attention_measure_v1" scope.options)
      && is_nothing (get "vdn_h3_external_sequence_v1" scope.options))

  module _ (sha256_json : Value → String) where
    abbrev pub compile_validated : Result ValidatedMap → Result (Option DescriptorPlan)
    compile_validated (Result.ok v) = compile_cold sha256_json v
    compile_validated (Result.unavailable reason) = Result.unavailable reason

    unfoldable pub compiled_map : LocalCall C → Result (Option DescriptorPlan)
    compiled_map call = compile_validated (
        validate_cold sha256_json call.query_position_map (rows (rows_in call.q))
          (rows (rows_in call.k)) call.sink_rows)

    abbrev pub with_map : LocalCall C → Result (Option DescriptorPlan) → Stateful (Block K) C
    with_map call (Result.ok plan) = with_descriptor call plan
    with_map call (Result.unavailable reason) = fall_back call (mapping_route (reason_text reason))

    unfoldable pub mapped_local : LocalCall C → Stateful (Block K) C
    unfolding claimed_elsewhere compiled_map with_descriptor
    mapped_local call =
        guarded call (not claimed_elsewhere) (mapping_route "backend")
          (with_map call (compiled_map call))

    abbrev pub domain_mapped : LocalCall C → Stateful (Block K) C
    domain_mapped call =
        guarded call (in_domain call) (mapping_route "domain")
          (run_unless call (local_reason call) (mapped_local call))

    unfoldable pub vdn_provider_v4 : LocalCall C → Stateful (Block K) C
    unfolding local_domain local_reason mapped_local
    vdn_provider_v4 call =
        guarded call (str_eq call.kind "local") (other_kind call) (domain_mapped call)

-- The older versions of the provider.
module _ {C K : Type 0} (scope : Scope C K) where
  abbrev pub vdn_provider_v1 : LocalCall C → Stateful (Block K) C
  vdn_provider_v1 call = vdn_legacy_local scope (record call { sink_rows = int (pos 0) })

  abbrev pub vdn_provider_v3 : LocalCall C → Stateful (Block K) C
  vdn_provider_v3 call = vdn_legacy_local scope call
