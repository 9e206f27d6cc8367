-- ===== src/PartitionedRequest/Facts/Maps.antt =====
-- What `_descriptor_for_wire` of sol_h3/partitioned_request.py hands on.
use comfy_ui_sol_h.Base.{
  none, some, inl, inr, ◌⊎◌, Option, Bool, ◌≡◌, String, List, true, ap, false, subst, refl, ◌≢◌,
  sym, ℕ, ◌∙◌, Bool-cases, if-true, if-false,
}
use comfy_ui_sol_h.Caches.DeviceDescriptor.{Device}
use comfy_ui_sol_h.MappedNeighbors.Types.{Result, Interval, ValidatedMap, DescriptorPlan}
use comfy_ui_sol_h.PartitionedRequest.Descriptors.{
  Mapping, no_mapping, intervals_for, from_result, mapping_of, descriptor_for_wire, materialized,
  no_wire,
}
use comfy_ui_sol_h.PartitionedRequest.Engine.{Engine, >>=-eq-ok, after_outcome, pure, lift}
use comfy_ui_sol_h.Py.{Value, nothing}
use comfy_ui_sol_h.Py.Outcome.{Outcome, ok-eq}
use comfy_ui_sol_h.Receipts.Publish.{Mapped, descriptor_digest_of, rows}
use comfy_ui_sol_h.Py.Text.{digest_text, digest}
use comfy_ui_sol_h.PartitionedRequest.Completions.{mapped_in, is_some}
use comfy_ui_sol_h.MappedNeighbors.Descriptor.{compile_cold}
use comfy_ui_sol_h.MappedNeighbors.Digests.{compile_cold-digest, validate_cold-digest}
use comfy_ui_sol_h.MappedNeighbors.Wire.{validate_cold}

-- A digest that is there is one.
abbrev pub DigestIfAny : Option String → Type 0
DigestIfAny none = Unit
DigestIfAny (some s) = digest_text s ≡ true

abbrev pub MappedDigests : Option Mapped → Type 0
MappedDigests none = Unit
MappedDigests (some m) = (digest_text m.map_digest ≡ true) × DigestIfAny m.descriptor_digest

abbrev pub mapped_of : Mapping → Option Mapped
mapped_of m = mapped_in m.validated m.descriptor

-- The digests are digests, a tensor comes with a descriptor, and a call that asks for the tensor has
-- one with every descriptor.
pub record IsMapping (materialize : Bool) (m : Mapping) : Type 0 where
  pub digests : MappedDigests (mapped_of m)
  pub described : is_some m.intervals ≡ true → digest (descriptor_digest_of (mapped_of m)) ≡ true
  pub undescribed :
      materialize ≡ true
      → is_some m.intervals ≡ false
      → descriptor_digest_of (mapped_of m) ≡ nothing

-- What is said of a map: nothing without one, else what the call's own map validates and compiles to.
abbrev pub FromWire : (Value → String) → (wire : Value) (q kv sink : ℕ) → Option Mapped → Type 0
FromWire sha256_json wire q kv sink mapped =
    ((no_wire wire ≡ true) × (mapped ≡ none))
    ⊎ ((v : ValidatedMap) × (plan : Option DescriptorPlan) × (validate_cold sha256_json wire
            (rows q) (rows kv) (rows sink)
          ≡ Result.ok v)
        × (compile_cold sha256_json v ≡ Result.ok plan)
        × (mapped ≡ mapped_in (some v) plan))

ok-of_result : {A : Type 0} (r : Result A) (a : A) → from_result r ≡ Outcome.ok a → r ≡ Result.ok a
ok-of_result (Result.ok b) a h = ap Result.ok (ok-eq b a h)
ok-of_result (Result.unavailable e) a h = cc

no_mapping-IsMapping : (materialize : Bool) → IsMapping materialize no_mapping
no_mapping-IsMapping materialize = record {
  digests = tt;
  described = λ h. cc;
  undescribed = λ h g. refl;
}

pure_fst :
    {A : Type 0} (a b : A) (s t : Engine)
    → ◌≡◌ {A = Outcome A × Engine} (Outcome.ok a, s) (Outcome.ok b, t)
    → a ≡ b
pure_fst a b s t h = ok-eq a b (ap (λ p. p.0) h)

wrapped-some :
    (o : Outcome (List Interval)) (t : Engine) (is' : Option (List Interval))
    → (after_outcome o t (λ x. pure (some x))).0 ≡ Outcome.ok is'
    → is_some is' ≡ true
wrapped-some (Outcome.ok x) t is' h = ap is_some (sym (ok-eq (some x) is' h))
wrapped-some (Outcome.raise e) t is' h = cc

true≢false : true ≢ false
true≢false h = cc

-- Which intervals come with a descriptor.
intervals_for-some :
    (capturing materialize : Bool) (plan : Option DescriptorPlan) (device : Device) (s : Engine)
    (is' : Option (List Interval))
    → (intervals_for capturing materialize plan device s).0 ≡ Outcome.ok is'
    → (is_some is' ≡ true → is_some plan ≡ true)
      × (materialize ≡ true → is_some is' ≡ false → is_some plan ≡ false)
unfolding intervals_for
intervals_for-some capturing materialize none device s is' h =
    let eq = ok-eq none is' h in
    subst
      (λ o.
        (is_some o ≡ true → false ≡ true)
        × (materialize ≡ true → is_some o ≡ false → false ≡ false))
      eq (λ p. p, λ p q. refl)
intervals_for-some capturing false (some plan) device s is' h =
    let eq = ok-eq none is' h in
    subst
      (λ o. (is_some o ≡ true → true ≡ true) × (false ≡ true → is_some o ≡ false → true ≡ false)) eq
      (λ p. refl, λ p q. sym p)
intervals_for-some capturing true (some plan) device s is' h =
    let there =
      wrapped-some (materialized capturing plan device s).0 (materialized capturing plan device s).1
        is' h in
    (λ p. refl, λ p q. absurd (true≢false (sym there ∙ q)))

descriptor_digest-nothing :
    (v : ValidatedMap) (plan : Option DescriptorPlan)
    → is_some plan ≡ false
    → descriptor_digest_of (mapped_in (some v) plan) ≡ nothing
descriptor_digest-nothing v none h = refl
descriptor_digest-nothing v (some d) h = cc

module _ (sha256_json : Value → String)
    (hex : (v : Value) → digest_text (sha256_json v) ≡ true) where
  plan-digests :
      (v : ValidatedMap) (plan : Option DescriptorPlan)
      → digest_text v.map_digest ≡ true
      → compile_cold sha256_json v ≡ Result.ok plan
      → MappedDigests (mapped_in (some v) plan)
        × (is_some plan ≡ true → digest (descriptor_digest_of (mapped_in (some v) plan)) ≡ true)
  unfolding digest
  plan-digests v none d h = ((d, tt), λ p. cc)
  plan-digests v (some plan) d h =
      let k = compile_cold-digest sha256_json hex v plan h in ((d, k), λ p. k)

  mapping_of-IsMapping :
      (capturing materialize : Bool) (wire : Value) (q kv sink : ℕ) (device : Device)
      (s s' : Engine) (m : Mapping)
      → mapping_of sha256_json capturing materialize wire q kv sink device s ≡ (Outcome.ok m, s')
      → IsMapping materialize m
  unfolding mapping_of
  mapping_of-IsMapping capturing materialize wire q kv sink device s s' m h =
      let (v, valid, h1) =
        >>=-eq-ok
          (lift (from_result (validate_cold sha256_json wire (rows q) (rows kv) (rows sink)))) _ s m
          s' h in
      let (plan, made, h2) =
        >>=-eq-ok (lift (from_result (compile_cold sha256_json v))) _ s m s' h1 in
      let (is', tensor, h3) =
        >>=-eq-ok (intervals_for capturing materialize plan device) _ s m s' h2 in
      let text =
        validate_cold-digest sha256_json hex wire (rows q) (rows kv) (rows sink) v
          (ok-of_result _ v valid) in
      let (digests, described) =
        plan-digests v plan text (ok-of_result (compile_cold sha256_json v) plan made) in
      let (front, back) = intervals_for-some capturing materialize plan device s is' tensor in
      subst (IsMapping materialize) (pure_fst _ m _ s' h3) (record {
        digests = digests;
        described = λ p. described (front p);
        undescribed = λ p q. descriptor_digest-nothing v plan (back p q);
      })

  pub descriptor_for_wire-IsMapping :
      (capturing materialize : Bool) (wire : Value) (q kv sink : ℕ) (device : Device)
      (s s' : Engine) (m : Mapping)
      → descriptor_for_wire sha256_json capturing materialize wire q kv sink device s
        ≡ (Outcome.ok m, s')
      → IsMapping materialize m
  unfolding descriptor_for_wire
  descriptor_for_wire-IsMapping capturing materialize wire q kv sink device s s' m h =
      elim (Bool-cases (no_wire wire)) [
        | inl without ↦
            subst (IsMapping materialize)
              (pure_fst no_mapping m s s'
                (ap (λ act. act s) (sym (if-true (no_wire wire) (pure no_mapping) _ without)) ∙ h))
              (no_mapping-IsMapping materialize)
        | inr given ↦
            mapping_of-IsMapping capturing materialize wire q kv sink device s s' m
              (ap (λ act. act s) (sym (if-false (no_wire wire) (pure no_mapping) _ given)) ∙ h)
      ]

module _ (sha256_json : Value → String) where
  mapping_of-FromWire :
      (capturing materialize : Bool) (wire : Value) (q kv sink : ℕ) (device : Device)
      (s s' : Engine) (m : Mapping)
      → mapping_of sha256_json capturing materialize wire q kv sink device s ≡ (Outcome.ok m, s')
      → FromWire sha256_json wire q kv sink (mapped_of m)
  unfolding mapping_of
  mapping_of-FromWire capturing materialize wire q kv sink device s s' m h =
      let (v, valid, h1) =
        >>=-eq-ok
          (lift (from_result (validate_cold sha256_json wire (rows q) (rows kv) (rows sink)))) _ s m
          s' h in
      let (plan, made, h2) =
        >>=-eq-ok (lift (from_result (compile_cold sha256_json v))) _ s m s' h1 in
      let (is', tensor, h3) =
        >>=-eq-ok (intervals_for capturing materialize plan device) _ s m s' h2 in
      inr (
        v,
        plan,
        ok-of_result _ v valid,
        ok-of_result (compile_cold sha256_json v) plan made,
        sym (ap mapped_of (pure_fst _ m _ s' h3)),
      )

  pub descriptor_for_wire-FromWire :
      (capturing materialize : Bool) (wire : Value) (q kv sink : ℕ) (device : Device)
      (s s' : Engine) (m : Mapping)
      → descriptor_for_wire sha256_json capturing materialize wire q kv sink device s
        ≡ (Outcome.ok m, s')
      → FromWire sha256_json wire q kv sink (mapped_of m)
  unfolding descriptor_for_wire
  descriptor_for_wire-FromWire capturing materialize wire q kv sink device s s' m h =
      elim (Bool-cases (no_wire wire)) [
        | inl without ↦
            let eq =
              pure_fst no_mapping m s s' (
                ap (λ act. act s) (sym (if-true (no_wire wire) (pure no_mapping) _ without)) ∙ h) in
            inl (without, sym (ap mapped_of eq))
        | inr given ↦
            mapping_of-FromWire capturing materialize wire q kv sink device s s' m
              (ap (λ act. act s) (sym (if-false (no_wire wire) (pure no_mapping) _ given)) ∙ h)
      ]
