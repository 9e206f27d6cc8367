-- ===== src/Caches/Hits.antt =====
-- Hits and misses of the bounded caches: what is stored is found, and a hit keeps the bounds.
use comfy_ui_sol_h.Caches.Lru.{
  Entry, Cache, IsBounded, lookup, evict, store, move_to_end, remove, total_size, total_size-append,
  not_over, over,
}
use comfy_ui_sol_h.Base.{
  Bool, List, All, Option, ◌∷◌, ◌++◌, ◌≡◌, ℕ, if◌then◌else◌, true, [], none, ◌≤◌, some, false,
  if-true, ◌+◌, arith, Bool-cases, inl, if-false, length, some≢none, ◌∙◌, ap, length-append,
  some-eq, sym, inr, ◌-◌, subst,
}
use mathlib.Core.Bool.{true, false}
use mathlib.Core.List.{[]}

module _ {ℓ κ} {K : Type ℓ} {V : Type κ} where
  if-All {μ} :
      (P : Entry K V → Type μ) (b : Bool) (x : Entry K V) (es rest : List (Entry K V))
      → All P (x ∷ es)
      → All P rest
      → All P (if b then es else x ∷ rest)
  if-All P true x es rest h r = h.1
  if-All P false x es rest h r = (h.0, r)

  pub All-suffix {μ} :
      (P : Entry K V → Type μ) (dropped es : List (Entry K V)) → All P (dropped ++ es) → All P es
  All-suffix P [] es h = h
  All-suffix P (x ∷ xs) es h = All-suffix P xs es h.1

  module _ (same : K → K → Bool) where
    lookup-none :
        (k : K) (x : Entry K V) (es : List (Entry K V))
        → lookup same k (x ∷ es) ≡ none
        → (same x.key k ≡ false) × (lookup same k es ≡ none)
    unfolding lookup
    lookup-none k x es h = elim (Bool-cases (same x.key k)) [
      | inl hit ↦
          elim (some≢none (sym (if-true (same x.key k) (some x) (lookup same k es) hit) ∙ h)) [ ]
      | inr miss ↦ (miss, sym (if-false (same x.key k) (some x) (lookup same k es) miss) ∙ h)
    ]

    lookup-last :
        (k : K) (e : Entry K V) (es : List (Entry K V))
        → same e.key k ≡ true
        → lookup same k es ≡ none
        → lookup same k (es ++ e ∷ []) ≡ some e
    unfolding lookup
    lookup-last k e [] eq h = if-true (same e.key k) (some e) none eq
    lookup-last k e (x ∷ es) eq h =
        let (miss, rest) = lookup-none k x es h in
        if-false (same x.key k) (some x) (lookup same k (es ++ e ∷ [])) miss
        ∙ lookup-last k e es eq rest

    evict-lookup :
        (n m : ℕ) (k : K) (e : Entry K V) (es : List (Entry K V)) (bytes : ℕ)
        → 1 ≤ n
        → e.size ≤ m
        → bytes ≡ total_size (es ++ e ∷ [])
        → same e.key k ≡ true
        → lookup same k es ≡ none
        → (c : Cache K V) × (evict n m (es ++ e ∷ []) bytes ≡ some c)
          × (lookup same k c.entries ≡ some e)
    unfolding evict
    evict-lookup n m k e [] bytes one small h eq miss = (
      record { entries = e ∷ []; bytes = bytes },
      if-false _ _ _ (not_over n m 1 bytes one (omega arith)),
      lookup-last k e [] eq miss,
    )
    evict-lookup n m k e (x ∷ es) bytes one small h eq miss =
        elim (Bool-cases (over n m (length (x ∷ es ++ e ∷ [])) bytes)) [
          | inl too_much ↦
              let (c, runs, found) =
                evict-lookup n m k e es (bytes - x.size) one small (omega arith) eq
                  (lookup-none k x es miss).1 in
              (c, if-true _ _ _ too_much ∙ runs, found)
          | inr fits ↦ (
            record { entries = x ∷ es ++ e ∷ []; bytes = bytes },
            if-false _ _ _ fits,
            lookup-last k e (x ∷ es) eq miss,
          )
        ]

    -- A new entry that fits by itself is found right after it was stored.
    pub store-lookup :
        (n m : ℕ) (k : K) (e : Entry K V) (c : Cache K V)
        → 1 ≤ n
        → e.size ≤ m
        → IsBounded n m c
        → same e.key k ≡ true
        → lookup same k c.entries ≡ none
        → (d : Cache K V) × (store n m e c ≡ some d) × (lookup same k d.entries ≡ some e)
    unfolding store
    store-lookup n m k e c one small bounded eq miss =
        evict-lookup n m k e c.entries (c.bytes + e.size) one small
          (omega (arith, bounded.counted, total_size-append c.entries (e ∷ []))) eq miss

    found_sizes :
        (b : Bool) (o : Option (Entry K V)) (x e : Entry K V) (es rest : List (Entry K V))
        → (if b then some x else o) ≡ some e
        → (o ≡ some e → (total_size es ≡ total_size rest + e.size) × (length es ≡ length rest + 1))
        → (x.size + total_size es ≡ total_size (if b then es else x ∷ rest) + e.size)
          × (length (x ∷ es) ≡ length (if b then es else x ∷ rest) + 1)
    found_sizes true o x e es rest h rec =
        (omega (arith, ap (λ z. z.size) (some-eq x e h)), omega arith)
    found_sizes false o x e es rest h rec = (omega (arith, (rec h).0), omega (arith, (rec h).1))

    remove-sizes :
        (k : K) (e : Entry K V) (es : List (Entry K V))
        → lookup same k es ≡ some e
        → (total_size es ≡ total_size (remove same k es) + e.size)
          × (length es ≡ length (remove same k es) + 1)
    unfolding lookup
    remove-sizes k e [] h = cc
    remove-sizes k e (x ∷ es) h =
        found_sizes (same x.key k) (lookup same k es) x e es (remove same k es) h
          (remove-sizes k e es)

    -- A hit moves its entry and keeps the bounds.
    pub move_to_end-IsBounded :
        (n m : ℕ) (k : K) (e : Entry K V) (c : Cache K V)
        → IsBounded n m c
        → lookup same k c.entries ≡ some e
        → IsBounded n m (move_to_end same k e c)
    unfolding move_to_end
    move_to_end-IsBounded n m k e c bounded hit =
        let (sizes, lengths) = remove-sizes k e c.entries hit in
        record {
          counted =
              omega (
                arith,
                bounded.counted,
                sizes,
                total_size-append (remove same k c.entries) (e ∷ []),
              );
          few =
              omega (arith, bounded.few, lengths, length-append (remove same k c.entries) (e ∷ []));
          small = bounded.small;
        }

    -- Whatever holds of every entry holds of the one found, and of all that are left.
    pub lookup-All {μ} :
        (P : Entry K V → Type μ) (k : K) (e : Entry K V) (es : List (Entry K V))
        → All P es
        → lookup same k es ≡ some e
        → P e × (same e.key k ≡ true)
    unfolding lookup
    lookup-All P k e [] h hit = cc
    lookup-All P k e (x ∷ es) h hit = elim (Bool-cases (same x.key k)) [
      | inl yes' ↦
          let eq =
            some-eq x e (sym (if-true (same x.key k) (some x) (lookup same k es) yes') ∙ hit) in
          subst (λ z. P z × (same z.key k ≡ true)) eq (h.0, yes')
      | inr no' ↦
          lookup-All P k e es h.1
            (sym (if-false (same x.key k) (some x) (lookup same k es) no') ∙ hit)
    ]

    pub remove-All {μ} :
        (P : Entry K V → Type μ) (k : K) (es : List (Entry K V))
        → All P es
        → All P (remove same k es)
    remove-All P k [] h = h
    remove-All P k (x ∷ es) h =
        if-All P (same x.key k) x es (remove same k es) h (remove-All P k es h.1)
