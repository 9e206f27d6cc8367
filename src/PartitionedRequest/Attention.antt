-- ===== src/PartitionedRequest/Attention.antt =====
-- `partitioned_request_attention` of sol_h3/partitioned_request.py.
use comfy_ui_sol_h.Base.{
  none, some, [], ⊤, ℕ, Option, Bool, ◌+◌, if◌then◌else◌, String, true, str_eq, List, ◌*◌, ◌&&◌,
  not, ◌==◌,
}
use comfy_ui_sol_h.PartitionedRequest.Arguments.{Arguments, check_arguments, Checked}
use comfy_ui_sol_h.PartitionedRequest.Calls.{Plan, plan_call}
use comfy_ui_sol_h.PartitionedRequest.Completions.{
  Counters, Request, Done, completion_of, is_dense, is_some, sparse_layout_key, union_of,
  native_mode, trust_sparse, numerical_identity, sm120_mode, sol_contract,
}
use comfy_ui_sol_h.PartitionedRequest.Engine.{
  Action, Stateful, pure, lift, modify, gets, demand, ◌>>=◌, ◌>>◌, Engine,
}
use comfy_ui_sol_h.PartitionedRequest.Kernels.{Kernels, Prepared, arithmetic_gate_passes}
use comfy_ui_sol_h.Contracts.Config.{Config}
use comfy_ui_sol_h.Receipts.Ledger.{Ledger, Forward, holds_value}
use comfy_ui_sol_h.Py.{Value, Float}
use comfy_ui_sol_h.Py.Outcome.{Outcome, runtime_error}
use comfy_ui_sol_h.PartitionedRequest.Tensors.{rows_in}
use comfy_ui_sol_h.Receipts.Publish.{record_completion, completion_fields}
use mathlib.Core.Bool.{true, false}
use comfy_ui_sol_h.PartitionedRequest.Union.{sm120_union}
use comfy_ui_sol_h.Receipts.Partitioned.{
  mapped_route, sol_route, dense_route, weighted_dense_contract,
}
use comfy_ui_sol_h.Interop.Warmup.{dense_evaluation_warmup}
use comfy_ui_sol_h.PartitionedRequest.Dense.{checked_weighted_dense, weighted_dense}

abbrev pub on_engine : {A : Type 0} → Action A → Stateful Request A
on_engine act s = ((act s.engine).0, record s { engine = (act s.engine).1 })

abbrev pub kept_ledger : Outcome Ledger → Request → Outcome ⊤ × Request
kept_ledger (Outcome.ok ledger) s = (Outcome.ok tt, record s { ledger = ledger })
kept_ledger (Outcome.raise exn) s = (Outcome.raise exn, s)

-- `_record_completion` on the request.
unfoldable pub publish_done : {C : Type 0} → (block : ℕ) → Done C → Stateful Request ⊤
publish_done block d s =
    kept_ledger (record_completion block d.route (completion_fields d.completion) s.ledger) s

abbrev pub evaluation_of : Option Forward → Outcome ℕ
evaluation_of none =
    Outcome.raise
      (runtime_error "partitioned Sol must execute inside the native Sol diffusion lifecycle")
evaluation_of (some f) = Outcome.ok f.evaluation

-- `_forward_evaluation`
unfoldable pub forward_evaluation : Stateful Request ℕ
forward_evaluation s = (evaluation_of s.ledger.forward, s)

abbrev pub one_if : Bool → ℕ
one_if true = 1
one_if false = 0

abbrev pub count_eligible : Request → Request
count_eligible s = record s {
  counters = record s.counters { eligible_calls = s.counters.eligible_calls + 1 };
}

module _ {C : Type 0} where
  abbrev pub dense_counts : Plan C → Counters → Counters
  dense_counts p n = record n {
    partitioned_dense_calls = n.partitioned_dense_calls + 1;
    dense_calls = n.dense_calls + one_if p.warmup;
  }

  -- The counts of a sparse call; those of VDN's local attention only for a local call.
  abbrev pub sparse_counts : Plan C → Counters → Counters
  sparse_counts p n =
      let q_rows = rows_in p.arguments.q in
      let local = str_eq p.arguments.kind "local" in
      let local_rows = one_if local * q_rows in
      record n {
        partitioned_sparse_calls = n.partitioned_sparse_calls + 1;
        partitioned_requested_q_rows = n.partitioned_requested_q_rows + q_rows;
        partitioned_kernel_q_rows = n.partitioned_kernel_q_rows + q_rows;
        sparse_calls = n.sparse_calls + 1;
        vdn_local_sol_calls = n.vdn_local_sol_calls + one_if local;
        vdn_requested_q_rows = n.vdn_requested_q_rows + local_rows;
        vdn_kernel_q_rows = n.vdn_kernel_q_rows + local_rows;
        vdn_rectangular_sol_calls =
            n.vdn_rectangular_sol_calls + one_if (local && not (q_rows == rows_in p.arguments.k));
        vdn_mapped_sol_calls =
            n.vdn_mapped_sol_calls + one_if (local && is_some p.mapping.intervals);
      }

  unfoldable pub count_done : Plan C → Request → Request
  count_done p s = record s {
    counters = if is_dense p then dense_counts p s.counters else sparse_counts p s.counters;
  }

module _ {C P : Type 0} (kernels : Kernels C P) where
  -- With no bias the native attention, else the checked kernel with every key selected.
  unfoldable pub dense_result : Config → Plan C → Option (List Float) → Action (Done C)
  unfolding completion_of
  dense_result config p none = do
    let a = p.arguments
    out ← weighted_dense kernels a.q a.k a.v none a.scale
    pure (record {
      result = out;
      route = dense_route;
      completion = completion_of p (native_mode p) none;
    })
  dense_result config p (some bias) = do
    let a = p.arguments
    out ←
        checked_weighted_dense kernels a.q a.k a.v bias config.tau a.scale a.kind
          (numerical_identity p)
    pure (record {
      result = out;
      route = dense_route;
      completion = completion_of p (sm120_mode p) (some weighted_dense_contract);
    })

  module _ (sha256_json : Value → String) where
    -- The kernel with every key selected against the native attention, before the layout is
    -- trusted. The preparation is kept for the call itself.
    unfoldable pub gate_sparse : Config → Plan C → Action (Option (List (Prepared P)))
    gate_sparse config p = do
      let a = p.arguments
      got ← sm120_union kernels (union_of p config (rows_in a.k) (some []))
      want ← weighted_dense kernels a.q a.k a.v p.key_bias a.scale
      gate ← lift (kernels.error_metrics got.0 want)
      demand (arithmetic_gate_passes gate)
          (runtime_error "partitioned Sol all-selected arithmetic gate failed")
      modify (trust_sparse (sparse_layout_key sha256_json p) p)
      pure got.1

    abbrev pub sparse_route : Plan C → String
    sparse_route p = if is_some p.mapping.intervals then mapped_route else sol_route

    abbrev pub sparse_mode : Plan C → String
    sparse_mode p = if is_some p.mapping.intervals then "sm120_mapped" else "sm120_union"

    abbrev pub sparse_done : Plan C → C → Done C
    sparse_done p out = record {
      result = out;
      route = sparse_route p;
      completion = completion_of p (sparse_mode p) (some sol_contract);
    }

    abbrev pub run_union : Config → Plan C → Option (List (Prepared P)) → Action (Done C)
    run_union config p shared = do
      out ← sm120_union kernels (union_of p config p.exact_end shared)
      pure (sparse_done p out.0)

    abbrev pub preparation_for : Config → Plan C → Bool → Action (Option (List (Prepared P)))
    preparation_for config p true = pure (some [])
    preparation_for config p false = gate_sparse config p

    abbrev pub trusted_layout : Plan C → Engine → Bool
    trusted_layout p s = holds_value (sparse_layout_key sha256_json p) s.sparse_verified

    unfoldable pub sparse_result : Config → Plan C → Action (Done C)
    unfolding gate_sparse completion_of
    sparse_result config p = do
      trusted ← gets (trusted_layout p)
      shared ← preparation_for config p trusted
      run_union config p shared

    unfoldable pub execute : Config → Plan C → Action (Done C)
    unfolding dense_result sparse_result
    execute config p =
        if is_dense p then dense_result config p p.key_bias else sparse_result config p

    -- A call that has its result: counted, published and handed back.
    unfoldable pub close_call : Plan C → Done C → Stateful Request C
    unfolding count_done publish_done
    close_call p d = do modify (count_done p); publish_done p.checked.block d; pure d.result

    unfoldable pub run_call : Config → Plan C → Stateful Request C
    unfolding execute close_call
    run_call config p = do modify count_eligible; d ← on_engine (execute config p); close_call p d

    unfoldable pub attend : Arguments C → Checked → Config → (evaluation : ℕ) → Stateful Request C
    unfolding plan_call run_call
    attend a c config evaluation = do
      let warmup = dense_evaluation_warmup config evaluation a.transformer_options
      p ← on_engine (plan_call kernels sha256_json a c warmup)
      run_call config p

    unfoldable pub partitioned_request_attention : Arguments C → Stateful Request C
    unfolding check_arguments forward_evaluation attend
    partitioned_request_attention a = do
      c ← lift (check_arguments kernels a)
      config ← gets (λ s. s.config)
      evaluation ← forward_evaluation
      attend a c config evaluation
