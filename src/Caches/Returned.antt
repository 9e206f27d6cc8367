-- ===== src/Caches/Returned.antt =====
-- What a call of `_key_bias` of sol_h3/partitioned_request.py that returns has checked.
use comfy_ui_sol_h.Base.{
  none, some, inl, inr, Option, ℕ, Bool, ◌+◌, List, not, ◌≡◌, ⊤, ap, false, ◌⊎◌, true, Bool-cases,
  refl, arith, some≢none, sym, ◌∙◌, if-true, if-false, ◌≢◌,
}
use comfy_ui_sol_h.Caches.Bias.{
  BiasCall, BiasState, Biased, weigh, checked_range, key_bias, ranged_bias, no_value, read_range,
  measure_usable, no_range, cached_bias, key_of, insert_bias, BiasKey,
}
use comfy_ui_sol_h.Py.{Float, float_eq, whole}
use comfy_ui_sol_h.Py.Outcome.{
  Outcome, ok, Exn, raise_if, ok-eq, >>=-eq-ok, assert, assert-true, or_raise,
}
use comfy_ui_sol_h.Caches.Weighs.{checked_range-facts}
use comfy_ui_sol_h.Caches.Lru.{Entry, store}

-- A call without a range has a measure of zero and gets no bias.
pub record IsUnranged (c : BiasCall) (b : Option (List Float)) : Type 0 where
  pub no_range_given : no_value c.prefix_range ≡ true
  pub zero_measure : float_eq c.log_measure (whole 0) ≡ true
  pub no_bias : b ≡ none

-- A call with a range has a usable measure, and a bias exactly if it is not zero.
pub record IsRanged (c : BiasCall) (r : ℕ × ℕ) (b : Option (List Float)) : Type 0 where
  pub read : read_range c.prefix_range c.kv_rows ≡ ok r
  pub usable : measure_usable c.log_measure ≡ true
  pub weighed : (row : List Float) → b ≡ some row → float_eq c.log_measure (whole 0) ≡ false
  pub unweighed : b ≡ none → float_eq c.log_measure (whole 0) ≡ true

raise_if-false : (x : Bool) (e : Exn) {t : ⊤} → raise_if x e ≡ ok t → x ≡ false
raise_if-false true e h = cc
raise_if-false false e h = refl

biased_fst :
    (a b : Option (List Float)) (s t : BiasState)
    → ◌≡◌ {A = Outcome Biased} (ok (a, s)) (ok (b, t))
    → a ≡ b
biased_fst a b s t h = ap (λ p. p.0) (ok-eq (a, s) (b, t) h)

abbrev unbiased_unit : BiasState → Outcome Biased
unbiased_unit s = ok (none, record s { unit_measure_calls = s.unit_measure_calls + 1 })

not-false : {b : Bool} → not b ≡ false → b ≡ true
not-false {b} h = ground arith

weigh-not_zero :
    (float32 : Float → Float) (capturing : Bool) (c : BiasCall) (r : ℕ × ℕ) (s s' : BiasState)
    (b : Option (List Float)) (row : List Float)
    → weigh float32 capturing c r s ≡ ok (b, s')
    → b ≡ some row
    → float_eq c.log_measure (whole 0) ≡ false
unfolding weigh
weigh-not_zero float32 capturing c r s s' b row h eq =
    elim (Bool-cases (float_eq c.log_measure (whole 0))) [
      | inl unit ↦ absurd (
          some≢none (
            sym eq
            ∙ sym (
                biased_fst none b _ s'
                  (sym (if-true (float_eq c.log_measure (whole 0)) (unbiased_unit s) _ unit) ∙ h))))
      | inr weighed ↦ weighed
    ]

cached_bias-some :
    (float32 : Float → Float) (capturing : Bool) (k : BiasKey)
    (o : Option (Entry BiasKey (List Float))) (s s' : BiasState) (b : Option (List Float))
    → cached_bias float32 capturing k o s ≡ ok (b, s')
    → b ≢ none
unfolding cached_bias insert_bias
cached_bias-some float32 true k none s s' b h e = cc
cached_bias-some float32 false k none s s' b h e =
    let (kept, stored, h1) = >>=-eq-ok (or_raise (store _ _ _ _) _) _ h in
    some≢none (biased_fst _ b _ s' h1 ∙ e)
cached_bias-some float32 capturing k (some hit) s s' b h e =
    some≢none (biased_fst (some hit.value) b _ s' h ∙ e)

weigh-zero :
    (float32 : Float → Float) (capturing : Bool) (c : BiasCall) (r : ℕ × ℕ) (s s' : BiasState)
    (b : Option (List Float))
    → weigh float32 capturing c r s ≡ ok (b, s')
    → b ≡ none
    → float_eq c.log_measure (whole 0) ≡ true
unfolding weigh
weigh-zero float32 capturing c r s s' b h e = elim (Bool-cases (float_eq c.log_measure (whole 0))) [
  | inl unit ↦ unit
  | inr weighed ↦ absurd (
      cached_bias-some float32 capturing (key_of c r) _ s s' b
        (sym (if-false (float_eq c.log_measure (whole 0)) (unbiased_unit s) _ weighed) ∙ h) e)
]

checked_range-usable :
    (c : BiasCall) (r : ℕ × ℕ) → checked_range c ≡ ok r → measure_usable c.log_measure ≡ true
unfolding checked_range
checked_range-usable c r h =
    let (r', read, h1) = >>=-eq-ok (read_range c.prefix_range c.kv_rows) _ h in
    let (t, usable, h2) = >>=-eq-ok (assert (measure_usable c.log_measure) _) _ h1 in
    assert-true (measure_usable c.log_measure) _ usable

pub key_bias-returned :
    (float32 : Float → Float) (capturing : Bool) (c : BiasCall) (s s' : BiasState)
    (b : Option (List Float))
    → key_bias float32 capturing c s ≡ ok (b, s')
    → IsUnranged c b ⊎ ((r : ℕ × ℕ) × IsRanged c r b)
unfolding key_bias ranged_bias
key_bias-returned float32 capturing c s s' b h = elim (Bool-cases (no_value c.prefix_range)) [
  | inl without ↦
      let h' = sym (if-true (no_value c.prefix_range) _ _ without) ∙ h in
      let (t, zero, rest) =
        >>=-eq-ok (raise_if (not (float_eq c.log_measure (whole 0))) no_range) _ h' in
      inl (record {
        no_range_given = without;
        zero_measure = not-false (raise_if-false _ _ zero);
        no_bias = sym (biased_fst none b s s' rest);
      })
  | inr ranged ↦
      let h' = sym (if-false (no_value c.prefix_range) _ _ ranged) ∙ h in
      let (r, checked, weighed) =
        >>=-eq-ok (checked_range c) (λ r. weigh float32 capturing c r s) h' in
      inr (
        r,
        record {
          read = (checked_range-facts c r checked).0;
          usable = checked_range-usable c r checked;
          weighed = λ row eq. weigh-not_zero float32 capturing c r s s' b row weighed eq;
          unweighed = λ eq. weigh-zero float32 capturing c r s s' b weighed eq;
        },
      )
]
