-- ===== src/Caches/Weighs.antt =====
-- What `_key_bias` of sol_h3/partitioned_request.py returns, whatever its cache holds.
use comfy_ui_sol_h.Caches.Lru.{
  Entry, Cache, IsBounded, lookup, move_to_end, store-IsBounded, remove,
}
use comfy_ui_sol_h.Caches.Hits.{All-suffix, lookup-All, remove-All, move_to_end-IsBounded}
use comfy_ui_sol_h.Caches.Bias.{
  BiasKey, BiasState, BiasCall, max_bias_cache_entries, bias_of, same_key, max_bias_cache_bytes,
  zeros, set_slice, insert_bias, cached_bias, made_entry, weigh, checked_range, key_bias, key_of,
  measure_usable, ranged_bias, read_range, no_value, Biased, no_range,
}
use comfy_ui_sol_h.Py.Outcome.{
  Outcome, ok, ok-eq, or_raise, key_error, ◌>>=◌, >>=-eq-ok, assert, assert-true, Exn, raise_if,
  ◌>>◌,
}
use comfy_ui_sol_h.Base.{
  none, some, [], ◌∷◌, List, ℕ, length, ◌<◌, Bool, ◌∙◌, ◌≡◌, All, ◌≤◌, get_elem?, leb, ap, true,
  suc, ◌&&◌, if◌then◌else◌, if-true, zero, arith, ◌+◌, ltb, and_true, refl, subst, if-false,
  some-eq, ==→eq, subst₂, Option, All-append, and_intro, sym, eq_refl, Bool-cases, ==-refl, inl,
  inr, ◌≢◌, not,
}
use comfy_ui_sol_h.Py.{Float, whole, float_eq, is_finite, float_eq_self}
use Prim.Native.Nat.{zero}
use mathlib.Core.Bool.{false}
use comfy_ui_sol_h.Py.Text.{digest_text}

-- The measure on the key rows from `start` up to `stop`, and zero on the others.
pub record Weighs (b : List Float) (rows start stop : ℕ) (m : Float) : Type 0 where
  pub rows_all : length b ≡ rows
  pub measure_at : (i : ℕ) → i < rows → start ≤ i → i < stop → get_elem? b i ≡ some m
  pub zero_below : (i : ℕ) → i < rows → i < start → get_elem? b i ≡ some (whole 0)
  pub zero_above : (i : ℕ) → i < rows → stop ≤ i → get_elem? b i ≡ some (whole 0)

length-zeros : (n : ℕ) → length (zeros n) ≡ n
length-zeros zero = refl
length-zeros (suc n) = ap suc (length-zeros n)

zeros-get : (n i : ℕ) → i < n → get_elem? (zeros n) i ≡ some (whole 0)
zeros-get zero i h = elim h [ ]
zeros-get (suc n) zero h = refl
zeros-get (suc n) (suc i) h = zeros-get n i (omega arith)

length-set_slice :
    (j start stop : ℕ) (v : Float) (xs : List Float)
    → length (set_slice j start stop v xs) ≡ length xs
length-set_slice j start stop v [] = refl
length-set_slice j start stop v (x ∷ xs) = ap suc (length-set_slice (j + 1) start stop v xs)

abbrev inside : (start stop i : ℕ) → Bool
inside start stop i = leb start i && ltb i stop

set_slice-get :
    (j start stop : ℕ) (v : Float) (xs : List Float) (i : ℕ) (x : Float)
    → get_elem? xs i ≡ some x
    → get_elem? (set_slice j start stop v xs) i ≡ some (if inside start stop (j + i) then v else x)
set_slice-get j start stop v [] i x h = cc
set_slice-get j start stop v (y ∷ xs) zero x h =
    subst
      (λ n.
        some (if inside start stop j then v else y) ≡ some (if inside start stop n then v else x))
      (omega arith) (ap (λ z. some (if inside start stop j then v else z)) (some-eq y x h))
set_slice-get j start stop v (y ∷ xs) (suc i) x h =
    subst
      (λ n.
        get_elem? (set_slice (j + 1) start stop v xs) i
        ≡ some (if inside start stop n then v else x))
      (omega arith) (set_slice-get (j + 1) start stop v xs i x h)

same_key_refl : (k : BiasKey) → is_finite k.log_measure ≡ true → same_key k k ≡ true
unfolding same_key
same_key_refl k h =
    and_intro
      (and_intro
        (and_intro
          (and_intro (and_intro (eq_refl k.semantic_digest) (==-refl k.kv_rows)) (==-refl k.start))
          (==-refl k.stop))
        (float_eq_self k.log_measure h))
      (eq_refl k.device)

pub checked_range-facts :
    (c : BiasCall) (r : ℕ × ℕ)
    → checked_range c ≡ ok r
    → (read_range c.prefix_range c.kv_rows ≡ ok r) × (is_finite c.log_measure ≡ true)
unfolding checked_range measure_usable
checked_range-facts c r h =
    let (r', read, h1) = >>=-eq-ok (read_range c.prefix_range c.kv_rows) _ h in
    let (t, usable, h2) = >>=-eq-ok (assert (measure_usable c.log_measure) _) _ h1 in
    let (u, named, h3) = >>=-eq-ok (assert (digest_text c.semantic_digest) _) _ h2 in
    (read ∙ h3, (and_true _ _ (assert-true (measure_usable c.log_measure) _ usable)).0)

module _ (float32 : Float → Float) where
  -- The cache is within its bounds and every entry holds the bias of its key.
  pub record IsBiasState (s : BiasState) : Type 0 where
    pub bounded : IsBounded max_bias_cache_entries max_bias_cache_bytes s.cache
    pub exact : All (λ e. e.value ≡ bias_of float32 e.key) s.cache.entries

  length-bias_of : (k : BiasKey) → length (bias_of float32 k) ≡ k.kv_rows
  unfolding bias_of
  length-bias_of k =
      length-set_slice 0 k.start k.stop (float32 k.log_measure) (zeros k.kv_rows)
      ∙ length-zeros k.kv_rows

  at_offset :
      (k : BiasKey) (i : ℕ)
      → i < k.kv_rows
      → get_elem? (bias_of float32 k) i
        ≡ some (if inside k.start k.stop (0 + i) then float32 k.log_measure else whole 0)
  unfolding bias_of
  at_offset k i h =
      set_slice-get 0 k.start k.stop (float32 k.log_measure) (zeros k.kv_rows) i (whole 0)
        (zeros-get k.kv_rows i h)

  bias_of-get :
      (k : BiasKey) (i : ℕ)
      → i < k.kv_rows
      → get_elem? (bias_of float32 k) i
        ≡ some (if inside k.start k.stop i then float32 k.log_measure else whole 0)
  bias_of-get k i h =
      subst
        (λ n.
          get_elem? (bias_of float32 k) i
          ≡ some (if inside k.start k.stop n then float32 k.log_measure else whole 0))
        (omega arith) (at_offset k i h)

  bias_of-Weighs :
      (k : BiasKey) → Weighs (bias_of float32 k) k.kv_rows k.start k.stop (float32 k.log_measure)
  bias_of-Weighs k = record {
    rows_all = length-bias_of k;
    measure_at = λ i h p q.
        bias_of-get k i h
        ∙ ap some
            (if-true (inside k.start k.stop i) (float32 k.log_measure) (whole 0) (ground arith));
    zero_below = λ i h p.
        bias_of-get k i h
        ∙ ap some
            (if-false (inside k.start k.stop i) (float32 k.log_measure) (whole 0) (ground arith));
    zero_above = λ i h p.
        bias_of-get k i h
        ∙ ap some
            (if-false (inside k.start k.stop i) (float32 k.log_measure) (whole 0) (ground arith));
  }

  -- A bias of an equal key weighs the same rows by an equal measure.
  pub same_key-Weighs :
      (a k : BiasKey)
      → same_key a k ≡ true
      → (m : Float) × (float_eq m k.log_measure ≡ true)
        × Weighs (bias_of float32 a) k.kv_rows k.start k.stop (float32 m)
  unfolding same_key
  same_key-Weighs a k h =
      let (h5, device) = and_true _ _ h in
      let (h4, measures) = and_true _ _ h5 in
      let (h3, stops) = and_true _ _ h4 in
      let (h2, starts) = and_true _ _ h3 in
      let (texts, rows) = and_true _ _ h2 in
      (
        a.log_measure,
        measures,
        subst (λ n. Weighs (bias_of float32 a) n k.start k.stop (float32 a.log_measure))
            (==→eq a.kv_rows k.kv_rows rows)
            (subst₂ (λ x y. Weighs (bias_of float32 a) a.kv_rows x y (float32 a.log_measure))
              (==→eq a.start k.start starts) (==→eq a.stop k.stop stops) (bias_of-Weighs a)),
      )

  abbrev given : List Float → BiasState → Outcome Biased
  given b s = ok (some b, s)

  abbrev unbiased : BiasState → Outcome Biased
  unbiased s = ok (none, s)

  biased-eq : (a b : List Float) (s t : BiasState) → given a s ≡ given b t → (a ≡ b) × (s ≡ t)
  biased-eq a b s t h =
      let eq = ok-eq (some a, s) (some b, t) h in (some-eq a b (ap (λ p. p.0) eq), ap (λ p. p.1) eq)

  unbiased≢given : (b : List Float) (s t : BiasState) → unbiased s ≢ given b t
  unbiased≢given b s t h = cc

  raised≢given :
      (x : Bool) (e : Exn) (b : List Float) (s t : BiasState)
      → (raise_if x e >> unbiased s) ≢ given b t
  raised≢given true e b s t h = cc
  raised≢given false e b s t h = cc

  abbrev stored : BiasState → Cache BiasKey (List Float) → BiasState
  stored s c = record s { cache = c }

  insert_bias-exact :
      (k : BiasKey) (s s' : BiasState) (b : List Float)
      → IsBiasState s
      → insert_bias float32 k s ≡ ok (some b, s')
      → IsBiasState s' × (b ≡ bias_of float32 k)
  unfolding insert_bias made_entry
  insert_bias-exact k s s' b inv h =
      let (d, runs, kept) =
        store-IsBounded max_bias_cache_entries max_bias_cache_bytes (made_entry float32 k) s.cache
          inv.bounded in
      let (bounded, dropped, split) = kept in
      let all = subst (All (λ e. e.value ≡ bias_of float32 e.key)) split (
        All-append (λ e. e.value ≡ bias_of float32 e.key) s.cache.entries
          (made_entry float32 k ∷ []) inv.exact (refl, tt)) in
      let state : IsBiasState (record s { cache = d }) = record {
        bounded = bounded;
        exact = All-suffix _ dropped d.entries all;
      } in
      let opened =
        subst
          (λ o.
            (or_raise o (key_error "dictionary is empty") >>= λ kept.
            given (bias_of float32 k) (stored s kept))
            ≡ given b s')
          runs h in
      let (same, left) = biased-eq (bias_of float32 k) b (record s { cache = d }) s' opened in
      (subst IsBiasState left state, sym same)

  moved-IsBiasState :
      (k : BiasKey) (e : Entry BiasKey (List Float)) (s : BiasState)
      → IsBiasState s
      → lookup same_key k s.cache.entries ≡ some e
      → e.value ≡ bias_of float32 e.key
      → IsBiasState (record s { cache = move_to_end same_key k e s.cache })
  unfolding move_to_end
  moved-IsBiasState k e s inv hit eq = record {
    bounded =
        move_to_end-IsBounded same_key max_bias_cache_entries max_bias_cache_bytes k e s.cache
          inv.bounded hit;
    exact =
        All-append (λ x. x.value ≡ bias_of float32 x.key) (remove same_key k s.cache.entries)
          (e ∷ [])
          (remove-All same_key (λ x. x.value ≡ bias_of float32 x.key) k s.cache.entries inv.exact)
          (eq, tt);
  }

  cached_bias-exact :
      (capturing : Bool) (k : BiasKey) (o : Option (Entry BiasKey (List Float))) (s s' : BiasState)
      (b : List Float)
      → IsBiasState s
      → is_finite k.log_measure ≡ true
      → lookup same_key k s.cache.entries ≡ o
      → cached_bias float32 capturing k o s ≡ ok (some b, s')
      → IsBiasState s' × (a : BiasKey) × (same_key a k ≡ true) × (b ≡ bias_of float32 a)
  unfolding cached_bias
  cached_bias-exact true k none s s' b inv finite_measure miss h = cc
  cached_bias-exact false k none s s' b inv finite_measure miss h =
      let (state, eq) = insert_bias-exact k s s' b inv h in
      (state, k, same_key_refl k finite_measure, eq)
  cached_bias-exact capturing k (some e) s s' b inv finite_measure hit h =
      let (eq, same) =
        lookup-All same_key (λ e. e.value ≡ bias_of float32 e.key) k e s.cache.entries inv.exact
          hit in
      let (found, left) =
        biased-eq e.value b (record s { cache = move_to_end same_key k e s.cache }) s' h in
      (subst IsBiasState left (moved-IsBiasState k e s inv hit eq), e.key, same, sym found ∙ eq)

  weigh-exact :
      (capturing : Bool) (c : BiasCall) (r : ℕ × ℕ) (s s' : BiasState) (b : List Float)
      → IsBiasState s
      → is_finite c.log_measure ≡ true
      → weigh float32 capturing c r s ≡ ok (some b, s')
      → IsBiasState s' × (a : BiasKey) × (same_key a (key_of c r) ≡ true) × (b ≡ bias_of float32 a)
  unfolding weigh key_of
  weigh-exact capturing c r s s' b inv finite_measure h =
      elim (Bool-cases (float_eq c.log_measure (whole 0))) [
        | inl unit ↦
            elim (unbiased≢given b (record s { unit_measure_calls = s.unit_measure_calls + 1 }) s'
              (sym (if-true (float_eq c.log_measure (whole 0)) _ _ unit) ∙ h)) [ ]
        | inr weighed ↦
            cached_bias-exact capturing (key_of c r) (lookup same_key (key_of c r) s.cache.entries)
              s s' b inv finite_measure refl
              (sym (if-false (float_eq c.log_measure (whole 0)) _ _ weighed) ∙ h)
      ]

  -- A bias that `_key_bias` returns has a measure, as `float32` rounds it, on the rows of the range and
  -- zero elsewhere, even if it comes from the cache; and the cache stays within its 64 entries and 4
  -- MiB, with the bytes that it counts. The measure is one that equals the call's as a float.
  pub key_bias-Weighs :
      (capturing : Bool) (c : BiasCall) (s s' : BiasState) (b : List Float)
      → IsBiasState s
      → key_bias float32 capturing c s ≡ ok (some b, s')
      → IsBiasState s'
        × (r : ℕ × ℕ) × (read_range c.prefix_range c.kv_rows ≡ ok r)
        × (m : Float) × (float_eq m c.log_measure ≡ true)
        × Weighs b c.kv_rows r.0 r.1 (float32 m)
  unfolding key_bias ranged_bias key_of
  key_bias-Weighs capturing c s s' b inv h = elim (Bool-cases (no_value c.prefix_range)) [
    | inl without ↦
        elim (raised≢given (not (float_eq c.log_measure (whole 0))) no_range b s s'
          (sym (if-true (no_value c.prefix_range) _ _ without) ∙ h)) [ ]
    | inr ranged ↦
        let h' = sym (if-false (no_value c.prefix_range) _ _ ranged) ∙ h in
        let (r, checked, weighed) =
          >>=-eq-ok (checked_range c) (λ r. weigh float32 capturing c r s) h' in
        let (read, finite_measure) = checked_range-facts c r checked in
        let (state, a, same, eq) = weigh-exact capturing c r s s' b inv finite_measure weighed in
        let (m, equal, weighs) = same_key-Weighs a (key_of c r) same in
        (
          state,
          r,
          read,
          m,
          equal,
          subst (λ z. Weighs z c.kv_rows r.0 r.1 (float32 m)) (sym eq) weighs,
        )
  ]
