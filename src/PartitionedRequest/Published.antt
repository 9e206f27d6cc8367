-- ===== src/PartitionedRequest/Published.antt =====
-- What `partitioned_request_attention` of sol_h3/partitioned_request.py publishes when it returns.
use comfy_ui_sol_h.Base.{
  none, some, ◌≡◌, true, List, false, and_true, refl, ap, not, Bool, Option, or_intro_left,
  or_intro_right, subst, and_intro, String, ℕ, if◌then◌else◌, ◌&&◌, ◌||◌, sym, Bool-cases, inl,
  if-true, ◌∙◌, inr, if-false, ◌⊎◌, subst₂,
}
use comfy_ui_sol_h.Contracts.Config.{Config}
use comfy_ui_sol_h.PartitionedRequest.Calls.{Plan}
use comfy_ui_sol_h.PartitionedRequest.Completions.{
  Done, completion_of, is_dense, native_mode, sm120_mode, is_some, sol_contract, numerical_identity,
  union_of,
}
use comfy_ui_sol_h.PartitionedRequest.Engine.{Engine, >>=-eq-ok, gets, pure, ◌>>=◌, Action}
use comfy_ui_sol_h.PartitionedRequest.Facts.Plans.{IsPlan}
use comfy_ui_sol_h.PartitionedRequest.Kernels.{Kernels}
use comfy_ui_sol_h.Py.Outcome.{Outcome, ok-eq}
use comfy_ui_sol_h.Py.{str, Value, py_eq, Float, float, is_finite, float_eq, whole}
use comfy_ui_sol_h.Receipts.Partitioned.{
  is_partitioned_route, measure_valid, route_valid, dense_route, fields_valid, sol_route,
  mapped_route, weighted_dense_contract, equals, native_dense_fields, is_none,
  weighted_dense_fields,
}
use comfy_ui_sol_h.PartitionedRequest.Facts.Valid.{unpacked, fields_valid-plan}
use comfy_ui_sol_h.Receipts.Publish.{
  completion_fields, Mapped, k_range, descriptor_digest_of, map_digest_of,
}
use comfy_ui_sol_h.Py.Text.{digest}
use comfy_ui_sol_h.PartitionedRequest.Facts.Maps.{mapped_of, MappedDigests}
use comfy_ui_sol_h.PartitionedRequest.Attention.{
  dense_result, sparse_result, execute, trusted_layout, preparation_for, run_union, sparse_done,
  sparse_mode, sparse_route,
}
use comfy_ui_sol_h.PartitionedRequest.Dense.{weighted_dense, checked_weighted_dense}
use comfy_ui_sol_h.PartitionedRequest.Union.{sm120_union}

-- How a call runs: the route, the mode and the kernel contract, for a dense call without and with a
-- measure that is not zero, and for a sparse one.
abbrev pub IsChosen :
    (dense forced weighed : Bool) (route mode : String) (contract : Option String) → Type 0
IsChosen true forced false route mode contract =
    (route ≡ dense_route)
    × (mode ≡ (if forced then "dense_forced" else "dense_warmup"))
    × (contract ≡ none)
IsChosen true forced true route mode contract =
    (route ≡ dense_route)
    × (mode ≡ (if forced then "dense_sm120_forced" else "dense_sm120_warmup"))
    × (contract ≡ some weighted_dense_contract)
IsChosen false forced weighed route mode contract =
    (contract ≡ some sol_contract)
    × (((route ≡ mapped_route) × (mode ≡ "sm120_mapped"))
        ⊎ ((route ≡ sol_route) × (mode ≡ "sm120_union")))

-- A measure that is not zero.
abbrev pub weighs : Float → Bool
weighs m = not (float_eq m (whole 0))

-- The route and the fields of a result are valid ones, and those of the plan.
pub record IsSound {C : Type 0} (p : Plan C) (d : Done C) : Type 0 where
  pub routed : is_partitioned_route (str d.route) ≡ true
  pub fields : fields_valid (str d.route) (completion_fields d.completion) ≡ true
  pub finite_measure : is_finite d.completion.prefix_log_key_measure ≡ true
  pub mode : String
  pub contract : Option String
  pub described : d.completion ≡ completion_of p mode contract
  pub chosen :
      IsChosen
        (is_dense p)
        p.arguments.force_dense
        (weighs p.arguments.prefix_log_key_measure)
        d.route
        mode
        contract

known_routes :
    (is_partitioned_route (str dense_route) ≡ true)
    × (is_partitioned_route (str sol_route) ≡ true)
    × (is_partitioned_route (str mapped_route) ≡ true)
unfolding py_eq
known_routes = (refl, refl, refl)

measure_valid-is_finite : (m : Float) → measure_valid (float m) ≡ true → is_finite m ≡ true
unfolding measure_valid
measure_valid-is_finite m h = (and_true _ _ h).0

native_modes :
    (forced : Bool)
    → ((equals (str (if forced then "dense_forced" else "dense_warmup")) "dense_forced"
          || equals (str (if forced then "dense_forced" else "dense_warmup")) "dense_warmup")
        && true)
      ≡ true
unfolding py_eq
native_modes true = refl
native_modes false = refl

sm120_modes :
    (forced : Bool)
    → (equals
          (str (if forced then "dense_sm120_forced" else "dense_sm120_warmup"))
          "dense_sm120_forced"
        || equals
            (str (if forced then "dense_sm120_forced" else "dense_sm120_warmup"))
            "dense_sm120_warmup")
      ≡ true
unfolding py_eq
sm120_modes true = refl
sm120_modes false = refl

range_there : (r : Option (ℕ × ℕ)) → is_some r ≡ true → not (is_none (k_range r)) ≡ true
range_there none h = cc
range_there (some r) h = refl

map_digest-described :
    (m : Option Mapped)
    → MappedDigests m
    → digest (descriptor_digest_of m) ≡ true
    → digest (map_digest_of m) ≡ true
unfolding digest
map_digest-described none d h = cc
map_digest-described (some m) d h = d.0

module _ {C : Type 0} (p : Plan C) (good : IsPlan p) where
  native_route-valid :
      is_dense p ≡ true
      → route_valid (str dense_route) (unpacked (completion_of p (native_mode p) none)) ≡ true
  unfolding route_valid completion_of py_eq
  native_route-valid dense =
      or_intro_left (native_dense_fields (unpacked (completion_of p (native_mode p) none))) _
        (native_modes p.arguments.force_dense)

  weighted_route-valid :
      (b : List Float)
      → is_dense p ≡ true
      → p.key_bias ≡ some b
      → route_valid
          (str dense_route)
          (unpacked (completion_of p (sm120_mode p) (some weighted_dense_contract)))
        ≡ true
  unfolding route_valid completion_of py_eq
  weighted_route-valid b dense given =
      let c = unpacked (completion_of p (sm120_mode p) (some weighted_dense_contract)) in
      let (ranged, negative) = good.biased b given in
      or_intro_right (native_dense_fields c) (weighted_dense_fields c) (
        and_intro
          (and_intro (and_intro (sm120_modes p.arguments.force_dense) refl)
            (range_there p.prefix ranged))
          negative)

  union_route-valid :
      is_dense p ≡ false
      → is_some p.mapping.intervals ≡ false
      → route_valid (str sol_route) (unpacked (completion_of p "sm120_union" (some sol_contract)))
        ≡ true
  unfolding route_valid completion_of py_eq
  union_route-valid sparse bare =
      let nothing_there = good.mapping.undescribed (ap not sparse) bare in
      subst (λ z. (is_none z && true) ≡ true) (sym nothing_there) refl

  mapped_route-valid :
      is_dense p ≡ false
      → is_some p.mapping.intervals ≡ true
      → route_valid
          (str mapped_route)
          (unpacked (completion_of p "sm120_mapped" (some sol_contract)))
        ≡ true
  unfolding route_valid completion_of py_eq
  mapped_route-valid sparse there =
      let described = good.mapping.described there in
      and_intro
        (and_intro (map_digest-described (mapped_of p.mapping) good.mapping.digests described)
          described)
        refl

dense-IsChosen :
    {C : Type 0} (p : Plan C) {b : Bool}
    → is_dense p ≡ true
    → b ≡ weighs p.arguments.prefix_log_key_measure
    → (route mode : String) (contract : Option String)
    → IsChosen true p.arguments.force_dense b route mode contract
    → IsChosen
        (is_dense p)
        p.arguments.force_dense
        (weighs p.arguments.prefix_log_key_measure)
        route
        mode
        contract
dense-IsChosen p {b} dense there route mode contract chosen =
    subst₂ (λ x y. IsChosen x p.arguments.force_dense y route mode contract) (sym dense) there
      chosen

either :
    (b : Bool) (r t m n : String)
    → (((if b then r else t) ≡ r) × ((if b then m else n) ≡ m))
      ⊎ (((if b then r else t) ≡ t) × ((if b then m else n) ≡ n))
either true r t m n = inl (refl, refl)
either false r t m n = inr (refl, refl)

sparse_fields :
    {C : Type 0} (p : Plan C)
    → IsPlan p
    → is_dense p ≡ false
    → (b : Bool) → is_some p.mapping.intervals ≡ b
    → (is_partitioned_route (str (if b then mapped_route else sol_route)) ≡ true)
      × (fields_valid (str (if b then mapped_route else sol_route)) (
            completion_fields
              (completion_of p (if b then "sm120_mapped" else "sm120_union") (some sol_contract)))
          ≡ true)
sparse_fields p good sparse true e = (
  known_routes.2,
  fields_valid-plan p good "sm120_mapped" (some sol_contract) mapped_route (sym sparse)
      (mapped_route-valid p good sparse e),
)
sparse_fields p good sparse false e = (
  known_routes.1,
  fields_valid-plan p good "sm120_union" (some sol_contract) sol_route (sym sparse)
      (union_route-valid p good sparse e),
)

module _ {C P : Type 0} (kernels : Kernels C P) (sha256_json : Value → String) where
  dense_result-IsSound :
      (config : Config) (p : Plan C) (good : IsPlan p) (o : Option (List Float)) (s s' : Engine)
      (d : Done C)
      → is_dense p ≡ true
      → p.key_bias ≡ o
      → dense_result kernels config p o s ≡ (Outcome.ok d, s')
      → IsSound p d
  unfolding dense_result
  dense_result-IsSound config p good none s s' d dense given h =
      let a = p.arguments in
      let (out, ran, h1) = >>=-eq-ok (weighted_dense kernels a.q a.k a.v none a.scale) _ s d s' h in
      subst (IsSound p) (ok-eq _ d (ap (λ r. r.0) h1)) (record {
        routed = known_routes.0;
        fields =
            fields_valid-plan p good (native_mode p) none dense_route (sym dense)
              (native_route-valid p good dense);
        finite_measure = measure_valid-is_finite a.prefix_log_key_measure good.measure;
        mode = native_mode p;
        contract = none;
        described = refl;
        chosen =
            dense-IsChosen p dense (sym (ap is_some given) ∙ good.present) dense_route
              (native_mode p) none (refl, refl, refl);
      })
  dense_result-IsSound config p good (some b) s s' d dense given h =
      let a = p.arguments in
      let (out, ran, h1) =
        >>=-eq-ok
          (checked_weighted_dense kernels a.q a.k a.v b config.tau a.scale a.kind
            (numerical_identity p))
          _ s d s' h in
      subst (IsSound p) (ok-eq _ d (ap (λ r. r.0) h1)) (record {
        routed = known_routes.0;
        fields =
            fields_valid-plan p good (sm120_mode p) (some weighted_dense_contract) dense_route
              (sym dense) (weighted_route-valid p good b dense given);
        finite_measure = measure_valid-is_finite a.prefix_log_key_measure good.measure;
        mode = sm120_mode p;
        contract = some weighted_dense_contract;
        described = refl;
        chosen =
            dense-IsChosen p dense (sym (ap is_some given) ∙ good.present) dense_route
              (sm120_mode p) (some weighted_dense_contract) (refl, refl, refl);
      })

  sparse_result-IsSound :
      (config : Config) (p : Plan C) (good : IsPlan p) (s s' : Engine) (d : Done C)
      → is_dense p ≡ false
      → sparse_result kernels sha256_json config p s ≡ (Outcome.ok d, s')
      → IsSound p d
  unfolding sparse_result
  sparse_result-IsSound config p good s s' d sparse h =
      let (trusted, t0, h1) =
        >>=-eq-ok (gets (trusted_layout kernels sha256_json p))
          (λ t.
            preparation_for kernels sha256_json config p t
            >>= run_union kernels sha256_json config p)
          s d s' h in
      let (shared, t1, h2) =
        >>=-eq-ok (preparation_for kernels sha256_json config p trusted)
          (run_union kernels sha256_json config p) s d s' h1 in
      let (out, ran, h3) =
        >>=-eq-ok (sm120_union kernels (union_of p config p.exact_end shared))
          (λ z. pure (sparse_done kernels sha256_json p z.0))
          (preparation_for kernels sha256_json config p trusted s).1 d s' h2 in
      let (routed, fields) = sparse_fields p good sparse (is_some p.mapping.intervals) refl in
      subst (IsSound p) (ok-eq _ d (ap (λ r. r.0) h3)) (record {
        routed = routed;
        fields = fields;
        finite_measure = measure_valid-is_finite p.arguments.prefix_log_key_measure good.measure;
        mode = sparse_mode kernels sha256_json p;
        contract = some sol_contract;
        described = refl;
        chosen =
            subst
              (λ b.
                IsChosen b p.arguments.force_dense (weighs p.arguments.prefix_log_key_measure)
                  (sparse_route kernels sha256_json p) (sparse_mode kernels sha256_json p)
                  (some sol_contract))
              (sym sparse)
              (
                refl,
                either (is_some p.mapping.intervals) mapped_route sol_route "sm120_mapped"
                    "sm120_union",
              );
      })

  pub execute-IsSound :
      (config : Config) (p : Plan C) (good : IsPlan p) (s s' : Engine) (d : Done C)
      → execute kernels sha256_json config p s ≡ (Outcome.ok d, s')
      → IsSound p d
  unfolding execute
  execute-IsSound config p good s s' d h = elim (Bool-cases (is_dense p)) [
    | inl dense ↦
        dense_result-IsSound config p good p.key_bias s s' d dense refl
          (ap (λ (act : Action (Done C)). act s) (sym (if-true (is_dense p) _ _ dense)) ∙ h)
    | inr sparse ↦
        sparse_result-IsSound config p good s s' d sparse
          (ap (λ (act : Action (Done C)). act s) (sym (if-false (is_dense p) _ _ sparse)) ∙ h)
  ]
