-- ===== src/PartitionedRequest/Failed.antt =====
-- A call of `partitioned_request_attention` of sol_h3/partitioned_request.py that raises.
use comfy_ui_sol_h.Receipts.Ledger.{Ledger}
use comfy_ui_sol_h.Py.Outcome.{Outcome, Exn}
use comfy_ui_sol_h.PartitionedRequest.Kernels.{Kernels}
use comfy_ui_sol_h.PartitionedRequest.Completions.{Request, Done}
use comfy_ui_sol_h.Base.{⊤, String, ◌≡◌, refl, ℕ}
use comfy_ui_sol_h.Py.{Value}
use comfy_ui_sol_h.PartitionedRequest.Attention.{
  kept_ledger, close_call, run_call, attend, partitioned_request_attention, publish_done,
  forward_evaluation, count_done, on_engine, execute, count_eligible,
}
use comfy_ui_sol_h.PartitionedRequest.Engine.{after_outcome, pure, after_outcome-cases, gets, ◌>>=◌}
use comfy_ui_sol_h.Contracts.Config.{Config}
use comfy_ui_sol_h.PartitionedRequest.Arguments.{Arguments, Checked, check_arguments}
use comfy_ui_sol_h.PartitionedRequest.Calls.{Plan, plan_call}
use comfy_ui_sol_h.Receipts.Publish.{record_completion, completion_fields}
use comfy_ui_sol_h.Interop.Warmup.{dense_evaluation_warmup}

-- If an action raises, then the ledger is still `ledger`.
abbrev Spares : {C : Type 0} → Ledger → Outcome C × Request → Type 0
Spares ledger r = (exn : Exn) → r.0 ≡ Outcome.raise exn → r.1.ledger ≡ ledger

returned-Spares :
    {C : Type 0} (c : C) (ledger : Ledger) (s : Request) → Spares ledger (Outcome.ok c, s)
returned-Spares c ledger s exn h = cc

kept_ledger-Spares : (o : Outcome Ledger) (s : Request) → Spares s.ledger (kept_ledger o s)
kept_ledger-Spares (Outcome.ok ledger) s exn h = cc
kept_ledger-Spares (Outcome.raise raised) s exn h = refl

after-Spares :
    {C : Type 0} (c : C) (ledger : Ledger) (r : Outcome ⊤ × Request)
    → Spares ledger r
    → Spares ledger (after_outcome r.0 r.1 (λ _. pure c))
after-Spares c ledger (Outcome.ok u, s) h = returned-Spares c ledger s
after-Spares c ledger (Outcome.raise exn, s) h = λ e raised. h exn refl

module _ {C P : Type 0} (kernels : Kernels C P) (sha256_json : Value → String) where
  close_call-Spares :
      (p : Plan C) (d : Done C) (s : Request)
      → Spares s.ledger (close_call kernels sha256_json p d s)
  unfolding close_call publish_done count_done
  close_call-Spares p d s =
      after-Spares d.result s.ledger (publish_done p.checked.block d (count_done p s)) (
        kept_ledger-Spares
          (record_completion p.checked.block d.route (completion_fields d.completion) s.ledger)
          (count_done p s))

  run_call-Spares :
      (config : Config) (p : Plan C) (s : Request)
      → Spares s.ledger (run_call kernels sha256_json config p s)
  unfolding run_call
  run_call-Spares config p s =
      after_outcome-cases (Spares s.ledger)
        (on_engine (execute kernels sha256_json config p) (count_eligible s)).0 _
        (close_call kernels sha256_json p) (λ _ _ _. refl) (λ d _. close_call-Spares p d _)

  attend-Spares :
      (a : Arguments C) (c : Checked) (config : Config) (n : ℕ) (s : Request)
      → Spares s.ledger (attend kernels sha256_json a c config n s)
  unfolding attend
  attend-Spares a c config n s =
      after_outcome-cases (Spares s.ledger)
        (on_engine
          (plan_call kernels sha256_json a c
            (dense_evaluation_warmup config n a.transformer_options))
          s).0
        _ (run_call kernels sha256_json config) (λ _ _ _. refl) (λ p _. run_call-Spares config p _)

  -- A call that raises has published nothing: the receipts, the proofs and the routes of the forward
  -- are what they were before it.
  pub partitioned_request_attention-raises :
      (a : Arguments C) (s : Request) (exn : Exn)
      → (partitioned_request_attention kernels sha256_json a s).0 ≡ Outcome.raise exn
      → (partitioned_request_attention kernels sha256_json a s).1.ledger ≡ s.ledger
  unfolding partitioned_request_attention forward_evaluation
  partitioned_request_attention-raises a s =
      after_outcome-cases (Spares s.ledger) (check_arguments kernels a) s
        (λ c. gets (λ (t : Request). t.config) >>= λ config.
          forward_evaluation >>= attend kernels sha256_json a c config)
        (λ _ _ _. refl)
        (λ c _.
          after_outcome-cases (Spares s.ledger) (forward_evaluation s).0 s
            (attend kernels sha256_json a c s.config) (λ _ _ _. refl)
            (λ n _. attend-Spares a c s.config n s))
