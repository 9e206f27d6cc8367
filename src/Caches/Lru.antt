-- ===== src/Caches/Lru.antt =====
-- An ordered dictionary with entries of known sizes, and the loop that evicts its oldest entries.
use comfy_ui_sol_h.Base.{
  ℕ, Bool, false, Option, none, some, List, [], ◌∷◌, ◌++◌, length, ◌≡◌, refl, ◌||◌, ◌+◌, ◌-◌, ◌≤◌,
  if◌then◌else◌, ltb, arith, Bool-cases, inl, inr, if-false, if-true, ◌∙◌, ap,
}

pub record Entry {ℓ κ} (K : Type ℓ) (V : Type κ) : Type (ℓ ⊔ κ) where
  pub key : K
  pub value : V
  pub size : ℕ

pub record Cache {ℓ κ} (K : Type ℓ) (V : Type κ) : Type (ℓ ⊔ κ) where
  pub entries : List (Entry K V)
  pub bytes : ℕ

-- `len(cache) > max_entries or bytes > max_bytes`
unfoldable pub over : (max_entries max_bytes count bytes : ℕ) → Bool
over max_entries max_bytes count bytes = ltb max_entries count || ltb max_bytes bytes

over-false : (n m count bytes : ℕ) → over n m count bytes ≡ false → (count ≤ n) × (bytes ≤ m)
unfolding over
over-false n m count bytes h = (ground arith, ground arith)

pub not_over : (n m count bytes : ℕ) → count ≤ n → bytes ≤ m → over n m count bytes ≡ false
unfolding over
not_over n m count bytes p q = ground arith

module _ {ℓ κ} {K : Type ℓ} {V : Type κ} where
  abbrev pub empty_cache : Cache K V
  empty_cache = record { entries = []; bytes = 0 }

  abbrev pub total_size : List (Entry K V) → ℕ
  total_size [] = 0
  total_size (e ∷ es) = e.size + total_size es

  -- While it is over, `popitem(last=False)`. An empty dictionary has nothing to pop (`KeyError`,
  -- here `none`).
  unfoldable pub evict : (max_entries max_bytes : ℕ) → List (Entry K V) → ℕ → Option (Cache K V)
  unfolding over
  evict max_entries max_bytes [] bytes =
      if over max_entries max_bytes 0 bytes
      then none
      else some (record { entries = []; bytes = bytes })
  evict max_entries max_bytes (e ∷ es) bytes =
      let rest = evict max_entries max_bytes es (bytes - e.size) in
      if over max_entries max_bytes (length (e ∷ es)) bytes
      then rest
      else some (record { entries = e ∷ es; bytes = bytes })

  -- A new entry is stored last, then the oldest go.
  unfoldable pub store : (max_entries max_bytes : ℕ) → Entry K V → Cache K V → Option (Cache K V)
  unfolding evict
  store max_entries max_bytes e c =
      evict max_entries max_bytes (c.entries ++ e ∷ []) (c.bytes + e.size)

  -- The bytes are the sum of the sizes, and both bounds hold.
  pub record IsBounded (max_entries max_bytes : ℕ) (c : Cache K V) : Type 0 where
    pub counted : c.bytes ≡ total_size c.entries
    pub few : length c.entries ≤ max_entries
    pub small : c.bytes ≤ max_bytes

  module _ (same : K → K → Bool) where
    -- `cache.get(key)`
    unfoldable pub lookup : K → List (Entry K V) → Option (Entry K V)
    lookup k [] = none
    lookup k (e ∷ es) = if same e.key k then some e else lookup k es

    abbrev pub remove : K → List (Entry K V) → List (Entry K V)
    remove k [] = []
    remove k (e ∷ es) = if same e.key k then es else e ∷ remove k es

    -- `cache.move_to_end(key)`, where `e` is the entry of the key.
    unfoldable pub move_to_end : K → Entry K V → Cache K V → Cache K V
    move_to_end k e c = record c { entries = remove k c.entries ++ e ∷ [] }

  pub total_size-append :
      (xs ys : List (Entry K V)) → total_size (xs ++ ys) ≡ total_size xs + total_size ys
  total_size-append [] ys = omega arith
  total_size-append (x ∷ xs) ys = omega (arith, total_size-append xs ys)

  -- What is left is within the bounds, and it is the newest part.
  abbrev pub Evicted : (max_entries max_bytes : ℕ) → List (Entry K V) → Cache K V → Type (ℓ ⊔ κ)
  Evicted n m es c = IsBounded n m c × (dropped : List (Entry K V)) × (es ≡ dropped ++ c.entries)

  -- The eviction loop ends within the bounds.
  pub evict-Evicted :
      (n m : ℕ) (es : List (Entry K V)) (bytes : ℕ)
      → bytes ≡ total_size es
      → (c : Cache K V) × (evict n m es bytes ≡ some c) × Evicted n m es c
  unfolding evict
  evict-Evicted n m [] bytes h =
      let fits = not_over n m 0 bytes (omega arith) (omega arith) in
      (
        record { entries = []; bytes = bytes },
        if-false _ _ _ fits,
        (record { counted = h; few = omega arith; small = omega arith }, [], refl),
      )
  evict-Evicted n m (e ∷ es) bytes h = elim (Bool-cases (over n m (length (e ∷ es)) bytes)) [
    | inl too_much ↦
        let (c, runs, kept) = evict-Evicted n m es (bytes - e.size) (omega arith) in
        let (bounded, dropped, eq) = kept in
        (c, if-true _ _ _ too_much ∙ runs, (bounded, e ∷ dropped, ap (◌∷◌ e) eq))
    | inr fits ↦
        let (few, small) = over-false n m (length (e ∷ es)) bytes fits in
        (
          record { entries = e ∷ es; bytes = bytes },
          if-false _ _ _ fits,
          (record { counted = h; few = few; small = small }, [], refl),
        )
  ]

  -- Storing keeps the bounds, and never pops from an empty dictionary.
  pub store-IsBounded :
      (n m : ℕ) (e : Entry K V) (c : Cache K V)
      → IsBounded n m c
      → (d : Cache K V) × (store n m e c ≡ some d) × Evicted n m (c.entries ++ e ∷ []) d
  unfolding store
  store-IsBounded n m e c bounded =
      evict-Evicted n m (c.entries ++ e ∷ []) (c.bytes + e.size)
        (omega (arith, bounded.counted, total_size-append c.entries (e ∷ [])))
