-- ===== src/PartitionedRequest/Returned.antt =====
-- A call of `partitioned_request_attention` of sol_h3/partitioned_request.py that returns, and the
-- receipt that it leaves for `_accept_partitioned_receipt` of sol_h3/partitioned_history.py.
use comfy_ui_sol_h.PartitionedRequest.Arguments.{Arguments, Checked, check_arguments}
use comfy_ui_sol_h.Py.Outcome.{Outcome, ok-eq}
use comfy_ui_sol_h.Receipts.Publish.{
  record_completion, publish, receipt, completion_fields, append_sink,
}
use comfy_ui_sol_h.PartitionedRequest.Kernels.{Kernels}
use comfy_ui_sol_h.Receipts.Ledger.{Ledger, full_receipt, Forward}
use comfy_ui_sol_h.Py.{Value, natural}
use comfy_ui_sol_h.Base.{
  ℕ, String, ⊤, ◌≡◌, some, ap, refl, ◌∙◌, true, sym, subst, ◌||◌, Option, none,
}
use comfy_ui_sol_h.PartitionedRequest.Completions.{Request, Done}
use comfy_ui_sol_h.PartitionedRequest.Attention.{
  close_call, kept_ledger, publish_done, count_done, run_call, attend,
  partitioned_request_attention, forward_evaluation, evaluation_of, on_engine, execute,
  count_eligible,
}
use comfy_ui_sol_h.PartitionedRequest.Calls.{Plan, plan_call}
use comfy_ui_sol_h.PartitionedRequest.Facts.Checked.{IsChecked, check_arguments-IsChecked}
use comfy_ui_sol_h.PartitionedRequest.Described.{IsDescribed, IsPlanOf-IsDescribed}
use comfy_ui_sol_h.PartitionedRequest.Published.{IsSound, execute-IsSound}
use comfy_ui_sol_h.PartitionedRequest.Engine.{pure, lift, >>=-eq-ok}
use comfy_ui_sol_h.Receipts.Accepted.{record_completion-accepted, publish_of}
use comfy_ui_sol_h.Py.Text.{digest_text}
use comfy_ui_sol_h.Receipts.Partitioned.{accept_partitioned}
use comfy_ui_sol_h.Contracts.Config.{Config}
use comfy_ui_sol_h.Interop.Warmup.{dense_evaluation_warmup}
use comfy_ui_sol_h.PartitionedRequest.Facts.Plans.{plan_call-IsPlan, IsPlan, outcome_eq}

-- The receipt of a completed call, published on the request that `s'` is the ledger of. The call runs
-- in a forward, and is dense if it is asked to be or the schedule is in its warmup.
pub record IsPublished {C : Type 0} (sha256_json : Value → String) (config : Config)
    (a : Arguments C) (result : C) (s s' : Ledger) : Type 0 where
  pub block : ℕ
  pub forward : Forward
  pub done : Done C
  pub numbered : natural a.block_index ≡ some block
  pub running : s.forward ≡ some forward
  pub returned : done.result ≡ result
  pub described :
      IsDescribed sha256_json
        (a.force_dense || dense_evaluation_warmup config forward.evaluation a.transformer_options)
        a
        done
  pub appended :
      s'.sink
      ≡ append_sink s.sink (full_receipt block done.route (completion_fields done.completion))
  pub accepted :
      accept_partitioned
        (some s')
        (full_receipt block done.route (completion_fields done.completion))
      ≡ true

-- A plan that has run and is published.
record IsClosed {C : Type 0} (p : Plan C) (result : C) (s s' : Ledger) : Type 0 where
  pub done : Done C
  pub returned : done.result ≡ result
  pub sound : IsSound p done
  pub appended :
      s'.sink
      ≡ append_sink s.sink
          (full_receipt p.checked.block done.route (completion_fields done.completion))
  pub accepted :
      accept_partitioned
        (some s')
        (full_receipt p.checked.block done.route (completion_fields done.completion))
      ≡ true

kept_ledger-ok :
    (o : Outcome Ledger) (s s' : Request) (u : ⊤)
    → kept_ledger o s ≡ (Outcome.ok u, s')
    → o ≡ Outcome.ok s'.ledger
kept_ledger-ok (Outcome.ok ledger) s s' u h = ap (λ r. Outcome.ok r.1.ledger) h
kept_ledger-ok (Outcome.raise exn) s s' u h = cc

kept_ledger-outcome :
    (o : Outcome Ledger) (s : Request) (u : ⊤)
    → (kept_ledger o s).0 ≡ Outcome.ok u
    → o ≡ Outcome.ok (kept_ledger o s).1.ledger
kept_ledger-outcome (Outcome.ok ledger) s u h = refl
kept_ledger-outcome (Outcome.raise exn) s u h = cc

record_completion-sink :
    (s s' : Ledger) (block : ℕ) (route : String) (fields : Value)
    → record_completion block route fields s ≡ Outcome.ok s'
    → s'.sink ≡ append_sink s.sink (full_receipt block route fields)
unfolding record_completion publish receipt
record_completion-sink s s' block route fields h =
    let (f, active, own, eq) = publish_of s.forward s s' block route fields h in
    sym (ap (λ (l : Ledger). l.sink) eq)

evaluation_of-running :
    (o : Option Forward) (n : ℕ)
    → evaluation_of o ≡ Outcome.ok n
    → (f : Forward) × (o ≡ some f) × (f.evaluation ≡ n)
evaluation_of-running none n h = cc
evaluation_of-running (some f) n h = (f, refl, ok-eq f.evaluation n h)

module _ {C P : Type 0} (kernels : Kernels C P) (sha256_json : Value → String) where
  close_call-IsClosed :
      (p : Plan C) (d : Done C) (s s' : Request) (result : C)
      → IsSound p d
      → close_call kernels sha256_json p d s ≡ (Outcome.ok result, s')
      → IsClosed p result s.ledger s'.ledger
  unfolding close_call publish_done count_done
  close_call-IsClosed p d s s' result sound h =
      let outcome =
        record_completion p.checked.block d.route (completion_fields d.completion) s.ledger in
      let (u, ran, h1) =
        >>=-eq-ok (kept_ledger outcome) (λ _. pure d.result) (count_done p s) result s' h in
      let done =
        kept_ledger-outcome outcome (count_done p s) u ran ∙ ap (λ z. Outcome.ok z.1.ledger) h1 in
      record {
        done = d;
        sound = sound;
        returned = ok-eq _ result (ap (λ z. z.0) h1);
        appended =
            record_completion-sink s.ledger s'.ledger p.checked.block d.route
              (completion_fields d.completion) done;
        accepted =
            record_completion-accepted s.ledger s'.ledger p.checked.block d.route d.completion
              sound.finite_measure sound.routed sound.fields done;
      }

  run_call-IsClosed :
      (config : Config) (p : Plan C) (s s' : Request) (result : C)
      → IsPlan p
      → run_call kernels sha256_json config p s ≡ (Outcome.ok result, s')
      → IsClosed p result s.ledger s'.ledger
  unfolding run_call
  run_call-IsClosed config p s s' result plan h =
      let (d, ran, closed) =
        >>=-eq-ok (on_engine (execute kernels sha256_json config p))
          (close_call kernels sha256_json p) (count_eligible s) result s' h in
      close_call-IsClosed p d _ s' result
        (execute-IsSound kernels sha256_json config p plan s.engine _ d (outcome_eq _ d ran)) closed

  module _ (hex : (v : Value) → digest_text (sha256_json v) ≡ true) where
    attend-IsPublished :
        (a : Arguments C) (c : Checked) (config : Config) (forward : Forward) (s s' : Request)
        (result : C)
        → IsChecked a c
        → s.ledger.forward ≡ some forward
        → attend kernels sha256_json a c config forward.evaluation s ≡ (Outcome.ok result, s')
        → IsPublished sha256_json config a result s.ledger s'.ledger
    unfolding attend
    attend-IsPublished a c config forward s s' result checked running h =
        let warmup = dense_evaluation_warmup config forward.evaluation a.transformer_options in
        let (p, planned, h1) =
          >>=-eq-ok (on_engine (plan_call kernels sha256_json a c warmup))
            (run_call kernels sha256_json config) s result s' h in
        let (plan, own) =
          plan_call-IsPlan kernels sha256_json hex a c warmup s.engine _ p checked
            (outcome_eq _ p planned) in
        let closed = run_call-IsClosed config p _ s' result plan h1 in
        record {
          block = p.checked.block;
          forward = forward;
          done = closed.done;
          numbered = checked.block ∙ ap (λ z. some z.block) (sym own.checked);
          running = running;
          returned = closed.returned;
          described =
              IsPlanOf-IsDescribed sha256_json a c warmup p closed.done checked own closed.sound;
          appended = closed.appended;
          accepted = closed.accepted;
        }

    -- A call that returns runs in a forward and has appended one receipt to the sink, which the
    -- history policy accepts. The receipt is numbered by the block index and has the arguments' kind,
    -- row counts, sink rows, digest, range and measure; the digests of the map are those that the
    -- call's own map validates and compiles to. The route, the mode and the contract are those of a
    -- dense call if the call is asked to be dense or in the warmup, weighted exactly if the measure is
    -- not zero, and else those of a sparse one.
    -- It is assumed that `sha256_json` gives 64 hexadecimal digits.
    pub partitioned_request_attention-IsPublished :
        (a : Arguments C) (s s' : Request) (result : C)
        → partitioned_request_attention kernels sha256_json a s ≡ (Outcome.ok result, s')
        → IsPublished sha256_json s.config a result s.ledger s'.ledger
    unfolding partitioned_request_attention forward_evaluation
    partitioned_request_attention-IsPublished a s s' result h =
        let (c, checked, h1) = >>=-eq-ok (lift (check_arguments kernels a)) _ s result s' h in
        let (n, ran, h2) =
          >>=-eq-ok forward_evaluation (attend kernels sha256_json a c s.config) s result s' h1 in
        let (forward, running, same) = evaluation_of-running s.ledger.forward n ran in
        attend-IsPublished a c s.config forward s s' result
          (check_arguments-IsChecked kernels a c checked) running
          (subst (λ m. attend kernels sha256_json a c s.config m s ≡ (Outcome.ok result, s'))
            (sym same) h2)
