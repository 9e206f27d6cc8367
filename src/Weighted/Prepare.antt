-- ===== src/Weighted/Prepare.antt =====
-- `prepare` and `receipt_fields` of sol_h3/weighted_measure.py.
use comfy_ui_sol_h.Py.Outcome.{Outcome, runtime_error, value_error, or_raise}
use comfy_ui_sol_h.Weighted.Plans.{
  MeasureCall, Core, plan_at, MeasurePlan, Registry, bias_at, Context, Owner, PlanKey, Measures,
  context_of, plan_key_of, keep_plan, same_profile, route_profile, owner_in,
}
use comfy_ui_sol_h.Base.{Option, Bool, ℕ, str_eq, ◌&&◌, String, some, none, ◌∷◌, [], true}
use comfy_ui_sol_h.Py.{Value, tuple, values, str, py_eq, int, bool}
use comfy_ui_sol_h.PartitionedRequest.Engine.{Stateful, ◌>>=◌, ◌>>◌, lift, demand, pure}
use mathlib.Core.Option.{none}
use comfy_ui_sol_h.Receipts.History.{measure_key}
use comfy_ui_sol_h.Base.Int.{pos}
use comfy_ui_sol_h.Receipts.Publish.{rows}

abbrev pub both_match : {B : Type 0} → MeasureCall → MeasurePlan B → Bool
both_match call plan =
    str_eq plan.implementation_profile call.implementation_profile
    && str_eq plan.numerical_route call.numerical_route

module _ {B : Type 0} (core : Core B) (options : Registry) (request : Value)
    (call : MeasureCall) where
  abbrev pub store_plan : PlanKey → MeasurePlan B → Stateful (Measures B) (MeasurePlan B)
  store_plan key plan s = keep_plan key plan (bias_at key.digest key.device s.measure_biases) s

  abbrev pub fresh_plan : Context → PlanKey → Stateful (Measures B) (MeasurePlan B)
  fresh_plan context key = do
    plan ← lift (core.prepare_capability options request context)
    demand (both_match call plan)
        (runtime_error "Sol-H3 capability selected an unexpected attention-measure route/profile")
    store_plan key plan

  -- The objects of this call are validated before a cached plan is used.
  abbrev pub cached_plan : MeasurePlan B → Stateful (Measures B) (MeasurePlan B)
  cached_plan plan = do
    lift (core.validate_h3 request call.layout call.q_rows call.kv_rows call.external_sequence)
    range ← lift (core.merge_exact_k_blocks request 64 call.existing_sink)
    demand (py_eq range plan.exact_k_block_range)
        (runtime_error "cached Sol-H3 attention-measure exact K range is stale")
    pure plan

  abbrev pub plan_or_fresh :
      Context → PlanKey → Option (MeasurePlan B) → Stateful (Measures B) (MeasurePlan B)
  plan_or_fresh context key none = fresh_plan context key
  plan_or_fresh context key (some plan) = cached_plan plan

  abbrev pub bound_plan : Owner → (digest : String) → Stateful (Measures B) (MeasurePlan B)
  bound_plan owner digest s =
      plan_or_fresh (context_of call owner) (plan_key_of call owner digest)
        (plan_at (plan_key_of call owner digest) s.measure_plans) s

  abbrev pub digested_plan : Owner → Stateful (Measures B) (MeasurePlan B)
  digested_plan owner = lift (core.semantic_digest request) >>= bound_plan owner

  abbrev pub owned_plan : Stateful (Measures B) (MeasurePlan B)
  owned_plan =
      lift (
        or_raise (owner_in options) (
          runtime_error
            "attention_measure_v1 selected Sol-H3 but its owner-bound capability is not registered"))
      >>= digested_plan

  abbrev pub planned_call : Stateful (Measures B) (MeasurePlan B)
  planned_call =
      demand (same_profile (route_profile call.numerical_route) call.implementation_profile)
        (value_error "Sol-H3 attention-measure route/profile pair is invalid")
      >> owned_plan

abbrev with_core :
    {B : Type 0}
    → Option (Core B)
    → Registry
    → Value
    → MeasureCall
    → Stateful (Measures B) (MeasurePlan B)
with_core none options request call = lift (
    Outcome.raise (
      runtime_error
        "attention_measure_v1 requires a ComfyUI build with the generic attention-measure contract"))
with_core (some core) options request call = planned_call core options request call

-- `core` is missing in a build without the module.
unfoldable pub prepare :
    {B : Type 0}
    → Option (Core B)
    → Registry
    → (request : Value) → MeasureCall
    → Stateful (Measures B) (MeasurePlan B)
unfolding plan_at bias_at
prepare core options request call = with_core core options request call

unfoldable pub plan_receipt_fields : {B : Type 0} → MeasurePlan B → (call_token : ℕ) → Value
plan_receipt_fields plan call_token = tuple (
    values (
      str measure_key
      ∷ tuple (values (str "sol_h3_evaluation" ∷ int (pos call_token) ∷ []))
      ∷ str plan.owner_generation
      ∷ str plan.semantic_digest
      ∷ str plan.implementation_profile
      ∷ str plan.numerical_route
      ∷ rows plan.q_rows
      ∷ rows plan.kv_rows
      ∷ str plan.exact_range_digest
      ∷ str plan.preprocess_digest
      ∷ bool true
      ∷ []))
