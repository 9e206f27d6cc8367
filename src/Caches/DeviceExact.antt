-- ===== src/Caches/DeviceExact.antt =====
-- What `device_descriptor` of sol_h3/mapped_neighbors.py returns, whatever its cache holds.
use comfy_ui_sol_h.Caches.Lru.{Entry, IsBounded, lookup, move_to_end, store-IsBounded, remove}
use comfy_ui_sol_h.Caches.Hits.{All-suffix, lookup-All, remove-All, move_to_end-IsBounded}
use comfy_ui_sol_h.Caches.DeviceDescriptor.{
  DescriptorKey, Device, Stored, Descriptors, Given, same_runs, same_descriptor_key,
  keep_descriptor, found_descriptor, descriptor_cache_key, make_descriptor, stored_entry, same_bool,
  device_descriptor,
}
use comfy_ui_sol_h.MappedNeighbors.Types.{
  Run, Interval, ValidatedMap, DescriptorPlan, Result, ok as compiled, max_cache_entries,
  max_device_cache_bytes,
}
use comfy_ui_sol_h.MappedNeighbors.Descriptor.{compile_tiles, blocks, compile_cold}
use comfy_ui_sol_h.MappedNeighbors.Descriptor.Exact.{compile_cold-moved}
use comfy_ui_sol_h.Py.Outcome.{
  Outcome, ok, raise, ok-eq, >>=-eq-ok, assert, or_raise, key_error, ◌>>=◌, ◌>>◌,
}
use comfy_ui_sol_h.Base.{
  none, some, [], ◌∷◌, List, ◌≡◌, true, All, and_true, ap, Bool, ap₂, Option, ==→eq, subst,
  All-append, sym, ◌∙◌, ℕ, refl, ⊤, String,
}
use comfy_ui_sol_h.Py.{Value}

abbrev tiles_by : (q_rows kv_rows : ℕ) → List Run → Result (List Interval)
tiles_by q_rows kv_rows rs = compile_tiles q_rows (blocks kv_rows) (blocks q_rows) 0 rs

-- What the tiles of the key compile to.
abbrev tiles_of : DescriptorKey → Result (List Interval)
tiles_of k = tiles_by k.q_rows k.kv_rows k.runs

abbrev Faithful : Entry DescriptorKey Stored → Type 0
Faithful e = tiles_of e.key ≡ compiled e.value.tensor

-- The cache is within its bounds and holds for every key the intervals that the key compiles to.
pub record IsDescriptors (s : Descriptors) : Type 0 where
  pub bounded : IsBounded max_cache_entries max_device_cache_bytes s
  pub faithful : All Faithful s.entries

abbrev run_at : (q_begin q_end kv_begin : ℕ) → Run
run_at a b c = record { q_begin = a; q_end = b; kv_begin = c }

run_eq : (a b : Run) → a.q_begin ≡ b.q_begin → a.q_end ≡ b.q_end → a.kv_begin ≡ b.kv_begin → a ≡ b
run_eq a b p q r =
    ap (λ x. run_at x a.q_end a.kv_begin) p
    ∙ ap (λ x. run_at b.q_begin x a.kv_begin) q
    ∙ ap (λ x. run_at b.q_begin b.q_end x) r

same_runs-eq : (as' bs : List Run) → same_runs as' bs ≡ true → as' ≡ bs
unfolding same_runs
same_runs-eq [] [] h = refl
same_runs-eq [] (b ∷ bs) h = cc
same_runs-eq (a ∷ as') [] h = cc
same_runs-eq (a ∷ as') (b ∷ bs) h =
    let (front, rest) = and_true _ _ h in
    let (two, third) = and_true _ _ front in
    let (first, second) = and_true _ _ two in
    ap₂ ◌∷◌
      (run_eq a b (==→eq a.q_begin b.q_begin first) (==→eq a.q_end b.q_end second)
        (==→eq a.kv_begin b.kv_begin third))
      (same_runs-eq as' bs rest)

same_descriptor_key-tiles :
    (a k : DescriptorKey) → same_descriptor_key a k ≡ true → tiles_of a ≡ tiles_of k
unfolding same_descriptor_key
same_descriptor_key-tiles a k h =
    let (names, counts) = and_true _ _ h in
    let (qs, more) = and_true _ _ counts in
    let (kvs, same) = and_true _ _ more in
    ap (λ q. tiles_by q a.kv_rows a.runs) (==→eq a.q_rows k.q_rows qs)
    ∙ ap (λ n. tiles_by k.q_rows n a.runs) (==→eq a.kv_rows k.kv_rows kvs)
    ∙ ap (λ rs. tiles_by k.q_rows k.kv_rows rs) (same_runs-eq a.runs k.runs same)

compiled-eq : (a b : List Interval) → compiled a ≡ compiled b → a ≡ b
compiled-eq a b h = cc

abbrev given : List Interval → Descriptors → Outcome Given
given t s = ok (t, s)

given-eq : (a b : List Interval) (s t : Descriptors) → given a s ≡ given b t → (a ≡ b) × (s ≡ t)
given-eq a b s t h = let eq = ok-eq (a, s) (b, t) h in (ap (λ p. p.0) eq, ap (λ p. p.1) eq)

keep_descriptor-exact :
    (plan : DescriptorPlan) (device : Device) (s s' : Descriptors) (t : List Interval)
    → IsDescriptors s
    → tiles_of (descriptor_cache_key plan device) ≡ compiled plan.intervals
    → keep_descriptor plan device s ≡ given t s'
    → (t ≡ plan.intervals) × IsDescriptors s'
unfolding keep_descriptor
keep_descriptor-exact plan device s s' t inv fits h =
    let (d, runs, kept) =
      store-IsBounded max_cache_entries max_device_cache_bytes (stored_entry plan device) s
        inv.bounded in
    let (bounded, dropped, split) = kept in
    let all =
      subst (All Faithful) split
        (All-append Faithful s.entries (stored_entry plan device ∷ []) inv.faithful (fits, tt)) in
    let opened =
      subst
        (λ o.
          (or_raise o (key_error "dictionary is empty") >>= λ c. given plan.intervals c)
          ≡ given t s')
        runs h in
    let (same, left) = given-eq plan.intervals t d s' opened in
    (
      sym same,
      subst IsDescriptors left
          (record { bounded = bounded; faithful = All-suffix Faithful dropped d.entries all }),
    )

after_checks : (m : Outcome ⊤) (k : Outcome Given) (g : Given) → (m >> k) ≡ ok g → k ≡ ok g
after_checks (ok u) k g h = h
after_checks (raise e) k g h = cc

found_descriptor-exact :
    (capturing : Bool) (plan : DescriptorPlan) (device : Device)
    (o : Option (Entry DescriptorKey Stored)) (s s' : Descriptors) (t : List Interval)
    → IsDescriptors s
    → tiles_of (descriptor_cache_key plan device) ≡ compiled plan.intervals
    → lookup same_descriptor_key (descriptor_cache_key plan device) s.entries ≡ o
    → found_descriptor capturing plan device o s ≡ given t s'
    → (t ≡ plan.intervals) × IsDescriptors s'
unfolding found_descriptor make_descriptor move_to_end
found_descriptor-exact capturing plan device none s s' t inv fits miss h =
    keep_descriptor-exact plan device s s' t inv fits
      (after_checks _ (keep_descriptor plan device s) (t, s') h)
found_descriptor-exact capturing plan device (some e) s s' t inv fits hit h =
    let k = descriptor_cache_key plan device in
    let (faithful, same) = lookup-All same_descriptor_key Faithful k e s.entries inv.faithful hit in
    let (u, checked, h1) = >>=-eq-ok (assert (same_bool device.is_cuda e.value.event) _) _ h in
    let (eq, left) = given-eq e.value.tensor t (move_to_end same_descriptor_key k e s) s' h1 in
    (
      sym eq ∙ compiled-eq _ _ (sym faithful ∙ same_descriptor_key-tiles e.key k same ∙ fits),
      subst IsDescriptors left (record {
        bounded =
            move_to_end-IsBounded same_descriptor_key max_cache_entries max_device_cache_bytes k e s
              inv.bounded hit;
        faithful =
            All-append Faithful (remove same_descriptor_key k s.entries) (e ∷ [])
              (remove-All same_descriptor_key Faithful k s.entries inv.faithful) (faithful, tt);
      }),
    )

module _ (sha256_json : Value → String) where
  plan-tiles :
      (v : ValidatedMap) (plan : DescriptorPlan) (device : Device)
      → compile_cold sha256_json v ≡ compiled (some plan)
      → tiles_of (descriptor_cache_key plan device) ≡ compiled plan.intervals
  unfolding descriptor_cache_key
  plan-tiles v plan device h =
      let (moved, is', e, eq) = compile_cold-moved sha256_json v plan h in
      subst
        (λ p.
          tiles_by p.validated.q_rows p.validated.kv_rows p.validated.runs ≡ compiled p.intervals)
        (sym eq) e

  -- The tensor that a request hands out for a compiled map holds the intervals of that map, also if
  -- it was made for another map with the same key, and the cache stays within its 64 entries and
  -- 4 MiB, with the bytes that it counts.
  pub device_descriptor-exact :
      (capturing : Bool) (v : ValidatedMap) (plan : DescriptorPlan) (device : Device)
      (s s' : Descriptors) (t : List Interval)
      → IsDescriptors s
      → compile_cold sha256_json v ≡ compiled (some plan)
      → device_descriptor capturing plan device s ≡ ok (t, s')
      → (t ≡ plan.intervals) × IsDescriptors s'
  unfolding device_descriptor
  device_descriptor-exact capturing v plan device s s' t inv made h =
      found_descriptor-exact capturing plan device
        (lookup same_descriptor_key (descriptor_cache_key plan device) s.entries) s s' t inv
        (plan-tiles v plan device made) refl h
