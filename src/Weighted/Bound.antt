-- ===== src/Weighted/Bound.antt =====
-- The plan that `prepare` of sol_h3/weighted_measure.py answers with, cached or fresh, and the
-- dictionaries of the request that it leaves.
use comfy_ui_sol_h.Py.Outcome.{Outcome, assert-true, assert, or_raise}
use comfy_ui_sol_h.Base.{
  refl, List, String, All, ◌≡◌, ◌∷◌, some, true, none, [], some≢none, and_true, Bool-cases, if-true,
  ◌⊎◌, sym, str_eq, Option, inl, eq_iff, ◌&&◌, some-eq, ◌∙◌, and_intro, subst, ap₂, eq_refl, inr,
  if-false,
}
use comfy_ui_sol_h.Weighted.Plans.{
  Measures, plan_at, same_plan_key, bias_at, Core, PlanKey, Registry, MeasurePlan, MeasureCall,
  Owner, context_of, plan_key_of, keep_plan, same_profile, route_profile, owner_in,
}
use comfy_ui_sol_h.Py.{Value, py_eq}
use mathlib.Core.List.{[]}
use comfy_ui_sol_h.Weighted.Prepare.{prepare, store_plan, owned_plan, digested_plan, bound_plan}
use comfy_ui_sol_h.Weighted.Prepare.{fresh_plan, cached_plan, both_match, plan_or_fresh}
use comfy_ui_sol_h.PartitionedRequest.Engine.{after_outcome-cases, pure}

same_plan_key-eq :
    (a b : PlanKey)
    → same_plan_key a b ≡ true
    → (a.digest ≡ b.digest) × (a.device ≡ b.device) × (a.profile ≡ b.profile) × (a.route ≡ b.route)
unfolding same_plan_key
same_plan_key-eq a b h =
    let (digest, h1) = and_true (str_eq a.digest b.digest) _ h in
    let (device, h2) = and_true (str_eq a.device b.device) _ h1 in
    let (profile, h3) = and_true (str_eq a.profile b.profile) _ h2 in
    let (route, h4) = and_true (str_eq a.route b.route) _ h3 in
    (
      (eq_iff a.digest b.digest).0 digest,
      (eq_iff a.device b.device).0 device,
      (eq_iff a.profile b.profile).0 profile,
      (eq_iff a.route b.route).0 route,
    )

module _ {B : Type 0} where
  -- A cached plan has the profile and the route of its key, and the buffer of its digest and device.
  abbrev pub EntryShared : List ((String × String) × B) → PlanKey × MeasurePlan B → Type 0
  EntryShared biases (key, plan) =
      (plan.implementation_profile ≡ key.profile)
      × (plan.numerical_route ≡ key.route)
      × (bias_at key.digest key.device biases ≡ some plan.key_log_measure)

  abbrev pub IsShared : Measures B → Type 0
  IsShared s = All (EntryShared s.measure_biases) s.measure_plans

  -- What is bound stays bound.
  abbrev pub Extends : (before after : List ((String × String) × B)) → Type 0
  Extends before after =
      (digest device : String) (bias : B)
      → bias_at digest device before ≡ some bias
      → bias_at digest device after ≡ some bias

  plan_at-found :
      (P : PlanKey × MeasurePlan B → Type 0) (key : PlanKey)
      (plans : List (PlanKey × MeasurePlan B)) (plan : MeasurePlan B)
      → All P plans
      → plan_at key plans ≡ some plan
      → (k : PlanKey) × (same_plan_key k key ≡ true) × P (k, plan)
  unfolding plan_at
  plan_at-found P key [] plan h found = absurd (some≢none (sym found))
  plan_at-found P key ((k, p) ∷ rest) plan h found = elim (Bool-cases (same_plan_key k key)) [
    | inl same ↦
        let own = some-eq p plan (sym (if-true (same_plan_key k key) _ _ same) ∙ found) in
        (k, same, subst (λ z. P (k, z)) own h.0)
    | inr other ↦
        plan_at-found P key rest plan h.1 (sym (if-false (same_plan_key k key) _ _ other) ∙ found)
  ]

  -- A buffer under a key that has none hides no other.
  added-Extends :
      (digest device : String) (bias : B) (biases : List ((String × String) × B))
      → bias_at digest device biases ≡ none
      → Extends biases (((digest, device), bias) ∷ biases)
  unfolding bias_at
  added-Extends digest device bias biases missing a b x found =
      elim (Bool-cases (str_eq digest a && str_eq device b)) [
        | inl same ↦
            let (d, v) = and_true (str_eq digest a) (str_eq device b) same in
            absurd (
              some≢none (
                sym found
                ∙ (sym (
                      ap₂ (λ y z. bias_at y z biases) ((eq_iff digest a).0 d)
                        ((eq_iff device b).0 v))
                    ∙ missing)))
        | inr other ↦ if-false (str_eq digest a && str_eq device b) _ _ other ∙ found
      ]

  added-found :
      (digest device : String) (bias : B) (biases : List ((String × String) × B))
      → bias_at digest device (((digest, device), bias) ∷ biases) ≡ some bias
  unfolding bias_at
  added-found digest device bias biases =
      if-true (str_eq digest digest && str_eq device device) _ _
        (and_intro (eq_refl digest) (eq_refl device))

  entries-extended :
      (before after : List ((String × String) × B)) (plans : List (PlanKey × MeasurePlan B))
      → Extends before after
      → All (EntryShared before) plans
      → All (EntryShared after) plans
  entries-extended before after [] e h = tt
  entries-extended before after ((k, p) ∷ rest) e (here, later) = (
    (here.0, here.1, e k.digest k.device p.key_log_measure here.2),
    entries-extended before after rest e later,
  )

module _ {B : Type 0} (core : Core B) (options : Registry) (request : Value)
    (call : MeasureCall) where
  -- The core made the plan for this call, all but the buffer.
  abbrev pub Fresh : MeasurePlan B → Type 0
  Fresh plan =
      (owner : Owner) × (made : MeasurePlan B) × (core.prepare_capability options request
          (context_of call owner)
        ≡ Outcome.ok made)
      × (plan ≡ record made { key_log_measure = plan.key_log_measure })

  -- The core has validated the layout and the external sequence of this call, and the exact range of
  -- the plan is the one of this call.
  abbrev pub Revalidated : MeasurePlan B → Type 0
  Revalidated plan =
      (range : Value) × (core.validate_h3 request call.layout call.q_rows call.kv_rows
          call.external_sequence
        ≡ Outcome.ok tt)
      × (core.merge_exact_k_blocks request 64 call.existing_sink ≡ Outcome.ok range)
      × (py_eq range plan.exact_k_block_range ≡ true)

  pub record IsBound (s s' : Measures B) (plan : MeasurePlan B) : Type 0 where
    pub digest : String
    pub digested : core.semantic_digest request ≡ Outcome.ok digest
    pub pair : same_profile (route_profile call.numerical_route) call.implementation_profile ≡ true
    pub profile : plan.implementation_profile ≡ call.implementation_profile
    pub route : plan.numerical_route ≡ call.numerical_route
    pub shared : bias_at digest call.device s'.measure_biases ≡ some plan.key_log_measure
    pub kept : Extends s.measure_biases s'.measure_biases
    pub entries : IsShared s'
    pub checked : Fresh plan ⊎ Revalidated plan

  -- A call that returns has bound its plan, and one that raises has changed nothing.
  abbrev pub Binds : Measures B → Outcome (MeasurePlan B) × Measures B → Type 0
  Binds s (Outcome.ok plan, s') = IsBound s s' plan
  Binds s (Outcome.raise exn, s') = s' ≡ s

  module _ (s : Measures B) (valid : IsShared s) (owner : Owner) (digest : String)
      (digested : core.semantic_digest request ≡ Outcome.ok digest)
      (pair : same_profile (route_profile call.numerical_route) call.implementation_profile
        ≡ true) where
    cached_plan-Binds :
        (plan : MeasurePlan B)
        → plan_at (plan_key_of call owner digest) s.measure_plans ≡ some plan
        → Binds s (cached_plan core options request call plan s)
    cached_plan-Binds plan found =
        let (k, same, mine) =
          plan_at-found (EntryShared s.measure_biases) (plan_key_of call owner digest)
            s.measure_plans plan valid found in
        let (d, v, p, r) = same_plan_key-eq k (plan_key_of call owner digest) same in
        after_outcome-cases (Binds s)
          (core.validate_h3 request call.layout call.q_rows call.kv_rows call.external_sequence) s _
          (λ exn. refl)
          (λ done validated.
            after_outcome-cases (Binds s) (core.merge_exact_k_blocks request 64 call.existing_sink)
              s _ (λ exn. refl)
              (λ range merged.
                after_outcome-cases (Binds s) (assert (py_eq range plan.exact_k_block_range) _) s
                  (λ done. pure plan) (λ exn. refl)
                  (λ equal compared. record {
                    digest = digest;
                    digested = digested;
                    pair = pair;
                    profile = mine.0 ∙ p;
                    route = mine.1 ∙ r;
                    shared = sym (ap₂ (λ y z. bias_at y z s.measure_biases) d v) ∙ mine.2;
                    kept = λ a b x h. h;
                    entries = valid;
                    checked = inr (range, validated, merged, assert-true _ _ compared);
                  })))

    keep_plan-Binds :
        (made : MeasurePlan B) (o : Option B)
        → bias_at digest call.device s.measure_biases ≡ o
        → core.prepare_capability options request (context_of call owner) ≡ Outcome.ok made
        → both_match call made ≡ true
        → Binds s (keep_plan (plan_key_of call owner digest) made o s)
    keep_plan-Binds made none missing prepared same =
        let (p, r) =
          and_true (str_eq made.implementation_profile call.implementation_profile) _ same in
        let profile = (eq_iff made.implementation_profile call.implementation_profile).0 p in
        let route = (eq_iff made.numerical_route call.numerical_route).0 r in
        let extends =
          added-Extends digest call.device made.key_log_measure s.measure_biases missing in
        let found = added-found digest call.device made.key_log_measure s.measure_biases in
        record {
          digest = digest;
          digested = digested;
          pair = pair;
          profile = profile;
          route = route;
          shared = found;
          kept = extends;
          entries = (
            (profile, route, found),
            entries-extended s.measure_biases _ s.measure_plans extends valid,
          );
          checked = inl (owner, made, prepared, refl);
        }
    keep_plan-Binds made (some shared) bound prepared same =
        let (p, r) =
          and_true (str_eq made.implementation_profile call.implementation_profile) _ same in
        let profile = (eq_iff made.implementation_profile call.implementation_profile).0 p in
        let route = (eq_iff made.numerical_route call.numerical_route).0 r in
        record {
          digest = digest;
          digested = digested;
          pair = pair;
          profile = profile;
          route = route;
          shared = bound;
          kept = λ a b x h. h;
          entries = ((profile, route, bound), valid);
          checked = inl (owner, made, prepared, refl);
        }

    fresh_plan-Binds : Binds s (
        fresh_plan core options request call
          (context_of call owner)
          (plan_key_of call owner digest)
          s)
    fresh_plan-Binds =
        after_outcome-cases (Binds s) _ s _ (λ exn. refl)
          (λ made prepared.
            after_outcome-cases (Binds s) (assert (both_match call made) _) s
              (λ done. store_plan core options request call (plan_key_of call owner digest) made)
              (λ exn. refl)
              (λ done same.
                keep_plan-Binds made (bias_at digest call.device s.measure_biases) refl prepared
                  (assert-true _ _ same)))

    plan_or_fresh-Binds :
        (o : Option (MeasurePlan B))
        → plan_at (plan_key_of call owner digest) s.measure_plans ≡ o
        → Binds s (
            plan_or_fresh core options request call
              (context_of call owner)
              (plan_key_of call owner digest)
              o
              s)
    plan_or_fresh-Binds none missing = fresh_plan-Binds
    plan_or_fresh-Binds (some plan) found = cached_plan-Binds plan found

  -- If the cached plans agree with their keys and share the buffer of their digest and device, then
  -- so do those that `prepare` leaves. A call that returns gives a plan of the requested profile and
  -- route with the shared buffer, fresh from the core or validated again for this call; a buffer is
  -- never replaced. A call that raises changes nothing.
  pub prepare-Binds :
      (s : Measures B) → IsShared s → Binds s (prepare (some core) options request call s)
  unfolding prepare
  prepare-Binds s valid =
      after_outcome-cases (Binds s)
        (assert (same_profile (route_profile call.numerical_route) call.implementation_profile) _) s
        (λ done. owned_plan core options request call) (λ exn. refl)
        (λ done matched.
          after_outcome-cases (Binds s) (or_raise (owner_in options) _) s
            (digested_plan core options request call) (λ exn. refl)
            (λ owner registered.
              after_outcome-cases (Binds s) (core.semantic_digest request) s
                (bound_plan core options request call owner) (λ exn. refl)
                (λ digest digested.
                  plan_or_fresh-Binds s valid owner digest digested (assert-true _ _ matched)
                    (plan_at (plan_key_of call owner digest) s.measure_plans) refl)))
