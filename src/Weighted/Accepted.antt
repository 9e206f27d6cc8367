-- ===== src/Weighted/Accepted.antt =====
-- The receipt of a weighted plan, `receipt_fields` of sol_h3/weighted_measure.py, put before
-- `HistoryPolicy.accept_receipts` of sol_h3/interop.py.
use comfy_ui_sol_h.Py.Outcome.{Outcome}
use comfy_ui_sol_h.Weighted.Plans.{
  MeasurePlan, Core, same_profile, Registry, route_profile, MeasureCall, Measures,
}
use comfy_ui_sol_h.Base.{String, ℕ, ◌≡◌, true, sym, eq_iff, refl, some, subst, ◌∙◌}
use comfy_ui_sol_h.Receipts.History.{accept_weighted, sparse_profile}
use comfy_ui_sol_h.Receipts.Mapped.{nonempty_str, positive_int}
use comfy_ui_sol_h.Weighted.Prepare.{plan_receipt_fields, prepare}
use comfy_ui_sol_h.Py.{str, Value, py_eq}
use comfy_ui_sol_h.Weighted.Bound.{IsShared, Binds, prepare-Binds}
use comfy_ui_sol_h.Receipts.Publish.{rows}

-- The texts and the row counts of a plan that the history policy reads are not empty.
pub record IsNamed {B : Type 0} (plan : MeasurePlan B) : Type 0 where
  pub generation : nonempty_str (str plan.owner_generation) ≡ true
  pub digest : nonempty_str (str plan.semantic_digest) ≡ true
  pub range : nonempty_str (str plan.exact_range_digest) ≡ true
  pub preprocess : nonempty_str (str plan.preprocess_digest) ≡ true
  pub queries : positive_int (rows plan.q_rows) ≡ true
  pub keys : positive_int (rows plan.kv_rows) ≡ true

abbrev pub mixed_weighted_route : String
mixed_weighted_route = "sol_external_mixed_weighted_measure"

valid-fields :
    {B : Type 0} (plan : MeasurePlan B) (token : ℕ)
    → IsNamed plan
    → plan.implementation_profile ≡ sparse_profile.0
    → plan.numerical_route ≡ sparse_profile.1
    → accept_weighted mixed_weighted_route (plan_receipt_fields plan token) ≡ true
unfolding accept_weighted plan_receipt_fields py_eq
valid-fields plan token named profile route = rw named.generation (
    rw named.digest (
      rw named.range
        (rw named.preprocess (rw named.queries (rw named.keys (rw profile (rw route refl)))))))

profile-of :
    (profile : String)
    → same_profile (route_profile sparse_profile.1) profile ≡ true
    → profile ≡ sparse_profile.0
profile-of profile h = sym ((eq_iff sparse_profile.0 profile).0 h)

-- A call of `prepare` for the sparse weighted route that returns gives a plan whose receipt the
-- history policy accepts under the mixed weighted route, if the texts of the plan are not empty and
-- its row counts are positive.
pub prepare-accept_weighted :
    {B : Type 0} (core : Core B) (options : Registry) (request : Value) (call : MeasureCall)
    (s s' : Measures B) (plan : MeasurePlan B) (token : ℕ)
    → IsShared s
    → prepare (some core) options request call s ≡ (Outcome.ok plan, s')
    → call.numerical_route ≡ sparse_profile.1
    → IsNamed plan
    → accept_weighted mixed_weighted_route (plan_receipt_fields plan token) ≡ true
prepare-accept_weighted core options request call s s' plan token valid returned route named =
    let bound =
      subst (Binds core options request call s) returned
        (prepare-Binds core options request call s valid) in
    let pair =
      subst (λ z. same_profile (route_profile z) call.implementation_profile ≡ true) route
        bound.pair in
    valid-fields plan token named (bound.profile ∙ profile-of call.implementation_profile pair)
      (bound.route ∙ route)
