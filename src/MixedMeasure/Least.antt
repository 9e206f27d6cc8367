-- ===== src/MixedMeasure/Least.antt =====
-- The choice of `representative_spatial_indices` of sol_h3/mixed_measure.py: the nearest coordinate,
-- and the first of those that are equally near.
use comfy_ui_sol_h.Base.{
  Bool, true, false, ℕ, ◌≡◌, ◌<◌, ◌+◌, List, [], ◌∷◌, refl, arith, suc, get_elem?, some, subst, sym,
  if◌then◌else◌, ltb, map, ◌∙◌, Bool-cases, inl, inr, ap, some-eq, ◌⊎◌, ◌-◌, some≢none, length, ◌≤◌,
}
use comfy_ui_sol_h.Py.{Float, float_le, float_eq, float_lt}
use comfy_ui_sol_h.Py.Order.{float_le_trans}
use comfy_ui_sol_h.MixedMeasure.Representatives.{
  key_lt, Arithmetic, distance, nearest_from, nearest,
}

key_lt-parts :
    (a : Float) (i : ℕ) (b : Float) (j : ℕ)
    → key_lt a i b j ≡ true
    → (float_le a b ≡ true) × ((float_le b a ≡ true) → i < j)
unfolding key_lt float_eq float_lt
key_lt-parts a i b j h = (ground arith, λ k. ground arith)

key_lt-made :
    (a : Float) (i : ℕ) (b : Float) (j : ℕ)
    → float_le a b ≡ true
    → ((float_le b a ≡ true) → i < j)
    → key_lt a i b j ≡ true
unfolding key_lt float_eq float_lt
key_lt-made a i b j h k = elim (Bool-cases (float_le b a)) [
  | inl back ↦ let less = k back in ground arith
  | inr forth ↦ ground arith
]

key_lt_trans :
    (a : Float) (i : ℕ) (b : Float) (j : ℕ) (c : Float) (k : ℕ)
    → key_lt a i b j ≡ true
    → key_lt b j c k ≡ true
    → key_lt a i c k ≡ true
key_lt_trans a i b j c k g h =
    let (ab, ij) = key_lt-parts a i b j g in
    let (bc, jk) = key_lt-parts b j c k h in
    key_lt-made a i c k (float_le_trans a b c ab bc) (λ ca.
      let less = ij (float_le_trans b c a bc ca) in
      let more = jk (float_le_trans c a b ca ab) in omega arith)

key_lt_self : (a : Float) (i : ℕ) → key_lt a i a i ≡ false
unfolding key_lt float_eq float_lt
key_lt_self a i = ground arith

key_lt-refused :
    (a : Float) (i : ℕ) (b : Float) (j : ℕ)
    → key_lt a i b j ≡ false
    → (float_lt a b ≡ false) × (float_eq a b ≡ true → j ≤ i)
unfolding key_lt float_eq float_lt
key_lt-refused a i b j h = (ground arith, λ k. ground arith)

lt-suc : (i j : ℕ) → i < suc j → (i < j) ⊎ (i ≡ j)
lt-suc i j h = elim (Bool-cases (ltb i j)) [
  | inl l ↦ inl (ground arith)
  | inr g ↦ inr (ground arith)
]

lt-or_beyond : (i j : ℕ) → (i < j) ⊎ ((k : ℕ) × (i ≡ j + k))
lt-or_beyond i j = elim (Bool-cases (ltb i j)) [
  | inl l ↦ inl (ground arith)
  | inr g ↦ inr (i - j, ground arith)
]

refuted : (b : Bool) → (b ≡ true → true ≡ false) → b ≡ false
refuted true h = h refl
refuted false h = refl

module _ (ops : Arithmetic) where
  -- No coordinate is nearer to `value` than the one at index `n`, and none before it is as near.
  pub record IsNearest (cs : List Float) (value : Float) (n : ℕ) : Type 0 where
    pub held : Float
    pub there : get_elem? cs n ≡ some held
    pub least :
        (j : ℕ) (c : Float)
        → get_elem? cs j ≡ some c
        → (float_lt (distance ops c value) (distance ops held value) ≡ false)
          × (float_eq (distance ops c value) (distance ops held value) ≡ true → n ≤ j)

  -- The first `j` coordinates have been seen.
  record IsBest (cs : List Float) (value : Float) (j best : ℕ) (key : Float) : Type 0 where
    pub held : Float
    pub there : get_elem? cs best ≡ some held
    pub measured : distance ops held value ≡ key
    pub least :
        (i : ℕ) (c : Float)
        → i < j
        → get_elem? cs i ≡ some c
        → key_lt (distance ops c value) i key best ≡ false

  step-IsBest :
      (cs : List Float) (value : Float) (j best : ℕ) (key c : Float) (b : Bool)
      → IsBest cs value j best key
      → get_elem? cs j ≡ some c
      → key_lt (distance ops c value) j key best ≡ b
      → IsBest cs value (suc j) (if b then j else best) (if b then distance ops c value else key)
  step-IsBest cs value j best key c true seen there e = record {
    held = c;
    there = there;
    measured = refl;
    least = λ i x h at. elim (lt-suc i j h) [
      | inl below ↦
          refuted _ (λ less. sym (key_lt_trans _ i _ j key best less e) ∙ seen.least i x below at)
      | inr eq ↦
          let same = some-eq x c (sym at ∙ ap (get_elem? cs) eq ∙ there) in
          subst (λ n. key_lt (distance ops x value) n (distance ops c value) j ≡ false) (sym eq)
            (subst (λ z. key_lt (distance ops z value) j (distance ops c value) j ≡ false)
              (sym same) (key_lt_self _ j))
    ];
  }
  step-IsBest cs value j best key c false seen there e = record {
    held = seen.held;
    there = seen.there;
    measured = seen.measured;
    least = λ i x h at. elim (lt-suc i j h) [
      | inl below ↦ seen.least i x below at
      | inr eq ↦
          let same = some-eq x c (sym at ∙ ap (get_elem? cs) eq ∙ there) in
          subst (λ n. key_lt (distance ops x value) n key best ≡ false) (sym eq)
            (subst (λ z. key_lt (distance ops z value) j key best ≡ false) (sym same) e)
    ];
  }

  nearest_from-IsNearest :
      (cs : List Float) (value : Float) (j : ℕ) (rest : List Float) (best : ℕ) (key : Float)
      → ((i : ℕ) → get_elem? rest i ≡ get_elem? cs (j + i))
      → IsBest cs value j best key
      → IsNearest cs value (nearest_from ops value best key j rest)
  unfolding nearest_from
  nearest_from-IsNearest cs value j [] best key tail seen = record {
    held = seen.held;
    there = seen.there;
    least = λ i x at. elim (lt-or_beyond i j) [
      | inl below ↦ key_lt-refused (distance ops x value) i (distance ops seen.held value) best (
          subst (λ k. key_lt (distance ops x value) i k best ≡ false) (sym seen.measured)
            (seen.least i x below at))
      | inr (k, eq) ↦ absurd (some≢none (sym at ∙ ap (get_elem? cs) eq ∙ sym (tail k)))
    ];
  }
  nearest_from-IsNearest cs value j (c ∷ rest) best key tail seen =
      nearest_from-IsNearest cs value (suc j) rest _ _
        (λ i. tail (suc i) ∙ ap (get_elem? cs) (omega arith))
        (step-IsBest cs value j best key c (key_lt (distance ops c value) j key best) seen
          (sym (tail 0 ∙ ap (get_elem? cs) (omega arith))) refl)

  nearest-IsNearest :
      (cs : List Float) (value : Float) → 0 < length cs → IsNearest cs value (nearest ops cs value)
  unfolding nearest
  nearest-IsNearest [] value h = elim h [ ]
  nearest-IsNearest (c ∷ cs) value h =
      nearest_from-IsNearest (c ∷ cs) value 1 cs 0 _
        (λ i. let next : suc i ≡ 1 + i = omega arith in ap (get_elem? (c ∷ cs)) next)
        (record {
          held = c;
          there = refl;
          measured = refl;
          least = λ i x h at. elim (lt-suc i 0 h) [
            | inl below ↦ elim below [ ]
            | inr eq ↦
                let same = some-eq x c (sym at ∙ ap (get_elem? (c ∷ cs)) eq) in
                subst (λ n. key_lt (distance ops x value) n (distance ops c value) 0 ≡ false)
                  (sym eq)
                  (subst (λ z. key_lt (distance ops z value) 0 (distance ops c value) 0 ≡ false)
                    (sym same) (key_lt_self _ 0))
          ];
        })

  -- One choice for each value, in order.
  abbrev pub AllNearest : (cs values : List Float) → List ℕ → Type 0
  AllNearest cs [] [] = Unit
  AllNearest cs (v ∷ vs) (n ∷ ns) = IsNearest cs v n × AllNearest cs vs ns
  AllNearest cs [] (n ∷ ns) = ⊥
  AllNearest cs (v ∷ vs) [] = ⊥

  pub map-AllNearest :
      (cs values : List Float) → 0 < length cs → AllNearest cs values (map (nearest ops cs) values)
  map-AllNearest cs [] h = tt
  map-AllNearest cs (v ∷ vs) h = (nearest-IsNearest cs v h, map-AllNearest cs vs h)
