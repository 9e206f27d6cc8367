-- ===== src/PartitionedRequest/Facts/Weighed.antt =====
-- The measure and its range in `partitioned_request_attention` of sol_h3/partitioned_request.py, once
-- `_key_bias` and the comparison with the sink have passed.
use comfy_ui_sol_h.Base.{
  some, inl, inr, Bool, ℕ, not, Option, ltb, ◌≡◌, ⊤, List, true, ◌&&◌, subst, leb, false, sym, ◌==◌,
  arith, and_true, ◌||◌, and_intro, ap, some≢none, ◌∙◌, refl, none,
}
use comfy_ui_sol_h.Caches.Bias.{BiasCall, BiasState, measure_usable, key_bias}
use comfy_ui_sol_h.Caches.Returned.{IsUnranged, IsRanged, key_bias-returned}
use comfy_ui_sol_h.Py.{float, Float, py_eq, float_lt, whole, float_eq}
use comfy_ui_sol_h.Py.Signs.{zero-is_finite, zero-not_positive, not_zero-negative}
use comfy_ui_sol_h.Py.Outcome.{ok, >>=-eq-ok, assert-true, assert}
use comfy_ui_sol_h.Receipts.Partitioned.{measure_valid, bounds_valid, range_valid, pair_valid}
use comfy_ui_sol_h.PartitionedRequest.Arguments.{range_allowed, pair_of}
use comfy_ui_sol_h.Receipts.Publish.{rows, k_range}
use comfy_ui_sol_h.PartitionedRequest.Facts.Ranges.{read_range-pair_of, no_value-eq}
use comfy_ui_sol_h.PartitionedRequest.Completions.{is_some}

-- The four facts of a plan that rest on its range and measure.
pub record IsWeighed (dense : Bool) (sink kv : ℕ) (m : Float) (prefix : Option (ℕ × ℕ))
    (bias : Option (List Float)) : Type 0 where
  pub measure : measure_valid (float m) ≡ true
  pub ranged : range_valid dense (rows sink) (rows kv) (float m) (k_range prefix) ≡ true
  pub biased :
      (b : List Float) → bias ≡ some b → (is_some prefix ≡ true) × (float_lt m (whole 0) ≡ true)
  pub present : is_some bias ≡ not (float_eq m (whole 0))

some-present :
    (bias : Option (List Float)) (zero : Bool)
    → ((b : List Float) → bias ≡ some b → zero ≡ false)
    → (bias ≡ none → zero ≡ true)
    → is_some bias ≡ not zero
some-present none zero f g = ap not (sym (g refl))
some-present (some b) zero f g = ap not (sym (f b refl))

unranged-IsWeighed :
    (c : BiasCall) (bias : Option (List Float)) (dense : Bool) (sink : ℕ)
    → IsUnranged c bias
    → IsWeighed dense sink c.kv_rows c.log_measure (pair_of c.prefix_range) bias
unfolding measure_valid range_valid py_eq
unranged-IsWeighed c bias dense sink u =
    subst (λ z. IsWeighed dense sink c.kv_rows c.log_measure z bias)
      (sym (no_value-eq c.prefix_range u.no_range_given))
      (record {
        measure =
            and_intro (zero-is_finite c.log_measure u.zero_measure)
              (ap not (zero-not_positive c.log_measure u.zero_measure));
        ranged = u.zero_measure;
        biased = λ b h. absurd (some≢none (sym h ∙ u.no_bias));
        present =
            some-present bias _ (λ b h. absurd (some≢none (sym h ∙ u.no_bias)))
              (λ h. u.zero_measure);
      })

bounds_true :
    (dense : Bool) (sink kv start stop : ℕ)
    → (ltb start stop && leb stop kv) ≡ true
    → not (ltb start sink && not (dense && (start == 0) && ltb sink stop)) ≡ true
    → (dense || start == sink) ≡ true
    → bounds_valid dense sink kv start stop ≡ true
unfolding bounds_valid
bounds_true true sink kv start stop w p q = ground arith
bounds_true false sink kv start stop w p q = ground arith

not-true : {b : Bool} → not b ≡ true → b ≡ false
not-true {b} h = ground arith

bounds-allowed :
    (dense : Bool) (sink kv start stop : ℕ) (t : ⊤)
    → (ltb start stop && leb stop kv) ≡ true
    → range_allowed dense sink (some (start, stop)) ≡ ok t
    → bounds_valid dense sink kv start stop ≡ true
unfolding range_allowed bounds_valid
bounds-allowed dense sink kv start stop t within h =
    let (u, first, second) =
      >>=-eq-ok (assert (not (ltb start sink && not (dense && (start == 0) && ltb sink stop))) _) _
        h in
    bounds_true dense sink kv start stop within (assert-true _ _ first) (assert-true _ _ second)

ranged-IsWeighed :
    (c : BiasCall) (r : ℕ × ℕ) (bias : Option (List Float)) (dense : Bool) (sink : ℕ) (t : ⊤)
    → IsRanged c r bias
    → range_allowed dense sink (pair_of c.prefix_range) ≡ ok t
    → IsWeighed dense sink c.kv_rows c.log_measure (pair_of c.prefix_range) bias
unfolding measure_valid measure_usable range_valid pair_valid
ranged-IsWeighed c r bias dense sink t u allowed =
    let (given, within) = read_range-pair_of c.prefix_range c.kv_rows r u.read in
    let (finite_measure, low) = and_true _ _ u.usable in
    subst (λ z. IsWeighed dense sink c.kv_rows c.log_measure z bias) (sym given)
      (record {
        measure = u.usable;
        ranged =
            bounds-allowed dense sink c.kv_rows r.0 r.1 t within
              (subst (λ z. range_allowed dense sink z ≡ ok t) given allowed);
        biased = λ b h.
            (refl, not_zero-negative c.log_measure finite_measure (not-true low) (u.weighed b h));
        present = some-present bias _ u.weighed u.unweighed;
      })

pub key_bias-IsWeighed :
    (float32 : Float → Float) (capturing : Bool) (c : BiasCall) (s s' : BiasState)
    (bias : Option (List Float)) (dense : Bool) (sink : ℕ) (t : ⊤)
    → key_bias float32 capturing c s ≡ ok (bias, s')
    → range_allowed dense sink (pair_of c.prefix_range) ≡ ok t
    → IsWeighed dense sink c.kv_rows c.log_measure (pair_of c.prefix_range) bias
key_bias-IsWeighed float32 capturing c s s' bias dense sink t h allowed =
    elim (key_bias-returned float32 capturing c s s' bias h) [
      | inl u ↦ unranged-IsWeighed c bias dense sink u
      | inr (r, u) ↦ ranged-IsWeighed c r bias dense sink t u allowed
    ]
