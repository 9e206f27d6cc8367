-- ===== src/PartitionedRequest/Counted.antt =====
-- The call counts that `partitioned_request_attention` of sol_h3/partitioned_request.py keeps.
use comfy_ui_sol_h.PartitionedRequest.Completions.{Counters, Request, is_dense, Done}
use comfy_ui_sol_h.Base.{
  Bool, true, false, refl, ℕ, ◌+◌, ◌≤◌, ◌≡◌, arith, ◌&&◌, str_eq, Bool-cases, String, ap, inl, inr,
  subst, sym, ◌*◌,
}
use comfy_ui_sol_h.PartitionedRequest.Calls.{Plan, plan_call}
use comfy_ui_sol_h.Py.Outcome.{Outcome}
use comfy_ui_sol_h.PartitionedRequest.Kernels.{Kernels}
use comfy_ui_sol_h.PartitionedRequest.Attention.{
  count_eligible, one_if, dense_counts, sparse_counts, count_done, kept_ledger, close_call,
  run_call, attend, partitioned_request_attention, publish_done, forward_evaluation, on_engine,
  execute,
}
use comfy_ui_sol_h.Receipts.Ledger.{Ledger}
use comfy_ui_sol_h.Py.{Value}
use comfy_ui_sol_h.PartitionedRequest.Tensors.{rows_in}
use comfy_ui_sol_h.Contracts.Config.{Config}
use comfy_ui_sol_h.PartitionedRequest.Arguments.{Arguments, Checked, check_arguments}
use comfy_ui_sol_h.PartitionedRequest.Engine.{after_outcome-cases, ◌>>=◌, pure, gets}
use comfy_ui_sol_h.Receipts.Publish.{record_completion, completion_fields}
use comfy_ui_sol_h.Interop.Warmup.{dense_evaluation_warmup}

-- How the counts of a request bound each other.
pub record IsBalanced (n : Counters) : Type 0 where
  pub calls : n.partitioned_dense_calls + n.partitioned_sparse_calls ≤ n.eligible_calls
  pub rows : n.partitioned_kernel_q_rows ≡ n.partitioned_requested_q_rows
  pub sparse : n.partitioned_sparse_calls ≤ n.sparse_calls
  pub rectangular : n.vdn_rectangular_sol_calls ≤ n.vdn_local_sol_calls
  pub mapped : n.vdn_mapped_sol_calls ≤ n.vdn_local_sol_calls
  pub vdn_rows : n.vdn_requested_q_rows ≤ n.vdn_kernel_q_rows

-- Balanced counts with a call that is eligible and not counted as dense or sparse.
record IsOpen (n : Counters) : Type 0 where
  pub balanced : IsBalanced n
  pub call : ℕ.suc (n.partitioned_dense_calls + n.partitioned_sparse_calls) ≤ n.eligible_calls

eligible-IsOpen : (s : Request) → IsBalanced s.counters → IsOpen (count_eligible s).counters
eligible-IsOpen s h =
    let n = s.counters in
    let calls = h.calls in
    record {
      balanced = record {
        calls = omega arith;
        rows = h.rows;
        sparse = h.sparse;
        rectangular = h.rectangular;
        mapped = h.mapped;
        vdn_rows = h.vdn_rows;
      };
      call = omega arith;
    }

one_if-and : (a b : Bool) → one_if (a && b) ≤ one_if a
one_if-and true true = omega arith
one_if-and true false = omega arith
one_if-and false b = omega arith

self_le : (a : ℕ) → a ≤ a
self_le a = omega arith

add_le : (a b c d : ℕ) → a ≤ b → c ≤ d → a + c ≤ b + d
add_le a b c d h k = omega arith

module _ {C : Type 0} (p : Plan C) where
  dense_counts-IsBalanced : (n : Counters) → IsOpen n → IsBalanced (dense_counts p n)
  dense_counts-IsBalanced n h =
      let call = h.call in
      record {
        calls = omega arith;
        rows = h.balanced.rows;
        sparse = h.balanced.sparse;
        rectangular = h.balanced.rectangular;
        mapped = h.balanced.mapped;
        vdn_rows = h.balanced.vdn_rows;
      }

  sparse_counts-IsBalanced : (n : Counters) → IsOpen n → IsBalanced (sparse_counts p n)
  sparse_counts-IsBalanced n h =
      let call = h.call in
      let sparse = h.balanced.sparse in
      let local = str_eq p.arguments.kind "local" in
      record {
        calls = omega arith;
        rows = ap (λ r. r + rows_in p.arguments.q) h.balanced.rows;
        sparse = omega arith;
        rectangular = add_le _ _ _ _ h.balanced.rectangular (one_if-and local _);
        mapped = add_le _ _ _ _ h.balanced.mapped (one_if-and local _);
        vdn_rows =
            add_le _ _ _ _ h.balanced.vdn_rows (self_le (one_if local * rows_in p.arguments.q));
      }

  count_done-IsBalanced : (s : Request) → IsOpen s.counters → IsBalanced (count_done p s).counters
  unfolding count_done
  count_done-IsBalanced s h = elim (Bool-cases (is_dense p)) [
    | inl dense ↦ rw dense (dense_counts-IsBalanced s.counters h)
    | inr sparse ↦ rw sparse (sparse_counts-IsBalanced s.counters h)
  ]

kept_ledger-counters :
    (o : Outcome Ledger) (s : Request) → (kept_ledger o s).1.counters ≡ s.counters
kept_ledger-counters (Outcome.ok ledger) s = refl
kept_ledger-counters (Outcome.raise exn) s = refl

-- The counts in the state after an action.
abbrev Leaves : {C : Type 0} → Outcome C × Request → Type 0
Leaves r = IsBalanced r.1.counters

module _ {C P : Type 0} (kernels : Kernels C P) (sha256_json : Value → String) where
  close_call-IsBalanced :
      (p : Plan C) (d : Done C) (s : Request)
      → IsOpen s.counters
      → Leaves (close_call kernels sha256_json p d s)
  unfolding close_call publish_done
  close_call-IsBalanced p d s h =
      let outcome =
        record_completion p.checked.block d.route (completion_fields d.completion) s.ledger in
      let kept =
        subst IsBalanced (sym (kept_ledger-counters outcome (count_done p s)))
          (count_done-IsBalanced p s h) in
      after_outcome-cases Leaves (publish_done p.checked.block d (count_done p s)).0 _
        (λ _. pure d.result) (λ _. kept) (λ _ _. kept)

  run_call-IsBalanced :
      (config : Config) (p : Plan C) (s : Request)
      → IsBalanced s.counters
      → Leaves (run_call kernels sha256_json config p s)
  unfolding run_call
  run_call-IsBalanced config p s h =
      let opened = eligible-IsOpen s h in
      after_outcome-cases Leaves
        (on_engine (execute kernels sha256_json config p) (count_eligible s)).0 _
        (close_call kernels sha256_json p) (λ _. opened.balanced)
        (λ d _. close_call-IsBalanced p d _ opened)

  attend-IsBalanced :
      (a : Arguments C) (c : Checked) (config : Config) (n : ℕ) (s : Request)
      → IsBalanced s.counters
      → Leaves (attend kernels sha256_json a c config n s)
  unfolding attend
  attend-IsBalanced a c config n s h =
      after_outcome-cases Leaves
        (on_engine
          (plan_call kernels sha256_json a c
            (dense_evaluation_warmup config n a.transformer_options))
          s).0
        _ (run_call kernels sha256_json config) (λ _. h) (λ p _. run_call-IsBalanced config p _ h)

  -- A call leaves balanced counts balanced, whether it returns or raises and wherever it raises.
  pub partitioned_request_attention-IsBalanced :
      (a : Arguments C) (s : Request)
      → IsBalanced s.counters
      → IsBalanced (partitioned_request_attention kernels sha256_json a s).1.counters
  unfolding partitioned_request_attention forward_evaluation
  partitioned_request_attention-IsBalanced a s h =
      after_outcome-cases Leaves (check_arguments kernels a) s
        (λ c. gets (λ (t : Request). t.config) >>= λ config.
          forward_evaluation >>= attend kernels sha256_json a c config)
        (λ _. h)
        (λ c _.
          after_outcome-cases Leaves (forward_evaluation s).0 s
            (attend kernels sha256_json a c s.config) (λ _. h)
            (λ n _. attend-IsBalanced a c s.config n s h))
