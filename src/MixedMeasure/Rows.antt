-- ===== src/MixedMeasure/Rows.antt =====
-- The rows that `kv_gather_indices` of sol_h3/mixed_measure.py gathers are distinct rows of the mixed
-- stream, as many as the contract says.
use comfy_ui_sol_h.Py.Outcome.{Outcome}
use comfy_ui_sol_h.MixedMeasure.Gather.{
  frames, Validated, suffix_start, gathered, kv_gather_indices, suffix_rows,
}
use native.Mathlib.Nat.{add-mul}
use comfy_ui_sol_h.Base.{
  range, length-range, ℕ, List, All, ◌≤◌, ◌<◌, ◌≡◌, ◌+◌, ◌∷◌, false, true, map, arith, ◌++◌,
  and_true, [], not, refl, ◌==◌, and_intro, ap, ◌∙◌, Bool, suc, length, ◌*◌, zero, length-append,
  All-append, length-map, ◌-◌, subst, ==-refl,
}
use comfy_ui_sol_h.MixedMeasure.Gather.{holds, distinct}
use mathlib.Core.List.{[]}
use Prim.Native.Nat.{zero}

abbrev Between : (low high : ℕ) → List ℕ → Type 0
Between low high xs = All (λ x. (low ≤ x) × (x < high)) xs

Between-wider :
    (low high low' high' : ℕ) (xs : List ℕ)
    → low' ≤ low
    → high ≤ high'
    → Between low high xs
    → Between low' high' xs
Between-wider low high low' high' [] h k b = tt
Between-wider low high low' high' (x ∷ xs) h k ((b0, b1), bs) =
    ((omega arith, omega arith), Between-wider low high low' high' xs h k bs)

holds-Between : (low high x : ℕ) (xs : List ℕ) → x < low → Between low high xs → holds x xs ≡ false
unfolding holds
holds-Between low high x [] h b = refl
holds-Between low high x (y ∷ ys) h ((b0, b1), bs) =
    let rest = holds-Between low high x ys h bs in ground arith

holds-above : (low high x : ℕ) (xs : List ℕ) → high ≤ x → Between low high xs → holds x xs ≡ false
unfolding holds
holds-above low high x [] h b = refl
holds-above low high x (y ∷ ys) h ((b0, b1), bs) =
    let rest = holds-above low high x ys h bs in ground arith

unheld : (b : Bool) → not b ≡ true → b ≡ false
unheld b h = ground arith

holds-append-false :
    (x : ℕ) (xs ys : List ℕ) → holds x xs ≡ false → holds x ys ≡ false → holds x (xs ++ ys) ≡ false
unfolding holds
holds-append-false x [] ys h k = k
holds-append-false x (y ∷ xs) ys h k = let rest = holds-append-false x xs ys in ground arith

-- Lists on either side of a bound have no element in common.
distinct-append :
    (low mid high : ℕ) (xs ys : List ℕ)
    → Between low mid xs
    → Between mid high ys
    → distinct xs ≡ true
    → distinct ys ≡ true
    → distinct (xs ++ ys) ≡ true
unfolding distinct
distinct-append low mid high [] ys b c h k = k
distinct-append low mid high (x ∷ xs) ys ((b0, b1), bs) c h k =
    let (new, rest) = and_true (not (holds x xs)) (distinct xs) h in
    and_intro
      (ap not
        (holds-append-false x xs ys (unheld (holds x xs) new) (holds-Between mid high x ys b1 c)))
      (distinct-append low mid high xs ys bs c rest k)

range-Between : (start n : ℕ) → Between start (start + n) (range start n)
range-Between start zero = tt
range-Between start (suc n) = (
  (omega arith, omega arith),
  Between-wider (start + 1) (start + 1 + n) start (start + suc n) (range (start + 1) n)
      (omega arith) (omega arith) (range-Between (start + 1) n),
)

range-distinct : (start n : ℕ) → distinct (range start n) ≡ true
unfolding distinct
range-distinct start zero = refl
range-distinct start (suc n) =
    and_intro
      (ap not (
        holds-Between (start + 1) (start + 1 + n) start (range (start + 1) n) (omega arith)
          (range-Between (start + 1) n)))
      (range-distinct (start + 1) n)

module _ (base rows : ℕ) where
  shifted-Between :
      (xs : List ℕ) → Between 0 rows xs → Between base (base + rows) (map (λ i. base + i) xs)
  shifted-Between [] b = tt
  shifted-Between (x ∷ xs) ((b0, b1), bs) = ((omega arith, omega arith), shifted-Between xs bs)

  holds-shifted : (x : ℕ) (xs : List ℕ) → holds (base + x) (map (λ i. base + i) xs) ≡ holds x xs
  unfolding holds
  holds-shifted x [] = refl
  holds-shifted x (y ∷ ys) = let rest = holds-shifted x ys in ground arith

  shifted-distinct : (xs : List ℕ) → distinct xs ≡ true → distinct (map (λ i. base + i) xs) ≡ true
  unfolding distinct
  shifted-distinct [] h = refl
  shifted-distinct (x ∷ xs) h =
      let (new, rest) = and_true (not (holds x xs)) (distinct xs) h in
      and_intro (ap not (holds-shifted x xs) ∙ new) (shifted-distinct xs rest)

length-frames :
    (base rows : ℕ) (reps : List ℕ) (n : ℕ) → length (frames base rows reps n) ≡ n * length reps
unfolding frames
length-frames base rows reps zero = omega arith
length-frames base rows reps (suc n) =
    let one = length-append (map (λ i. base + i) reps) (frames (base + rows) rows reps n) in
    let first = length-map (λ i. base + i) reps in
    let later = length-frames (base + rows) rows reps n in omega (arith, add-mul 1 n (length reps))

-- The frames after the first begin where it ends.
next_frame : (base rows n : ℕ) → (base + rows) + n * rows ≡ base + suc n * rows
next_frame base rows n = omega (arith, add-mul 1 n rows)

frames-Between :
    (base rows : ℕ) (reps : List ℕ) (n : ℕ)
    → Between 0 rows reps
    → Between base (base + n * rows) (frames base rows reps n)
unfolding frames
frames-Between base rows reps zero b = tt
frames-Between base rows reps (suc n) b =
    let later = frames-Between (base + rows) rows reps n b in
    let e = next_frame base rows n in
    All-append _ (map (λ i. base + i) reps) (frames (base + rows) rows reps n)
      (Between-wider base (base + rows) base (base + suc n * rows) _ (omega arith) (omega arith)
        (shifted-Between base rows reps b))
      (Between-wider (base + rows) (base + rows + n * rows) base (base + suc n * rows) _
        (omega arith) (omega arith) later)

frames-distinct :
    (base rows : ℕ) (reps : List ℕ) (n : ℕ)
    → Between 0 rows reps
    → distinct reps ≡ true
    → distinct (frames base rows reps n) ≡ true
unfolding frames distinct
frames-distinct base rows reps zero b h = refl
frames-distinct base rows reps (suc n) b h =
    distinct-append base (base + rows) (base + rows + n * rows) (map (λ i. base + i) reps)
      (frames (base + rows) rows reps n) (shifted-Between base rows reps b)
      (frames-Between (base + rows) rows reps n b) (shifted-distinct base rows reps h)
      (frames-distinct (base + rows) rows reps n b h)

-- What `validate_measure_contract` has checked, and what it takes from
-- `representative_spatial_indices`.
pub record IsContract (v : Validated) : Type 0 where
  pub prefix : v.prefix_t < v.temporal
  pub chosen : length v.representative_spatial_indices ≡ v.source_rows_per_frame
  pub unique : distinct v.representative_spatial_indices ≡ true
  pub within : Between 0 v.prefix_rows_per_frame v.representative_spatial_indices
  pub accounted : v.expected_kv_rows ≡ v.video_start + v.temporal * v.source_rows_per_frame

rejoined : (a b : ℕ) → a < b → a + (b - a) ≡ b
rejoined a b h = omega arith

below : (low high : ℕ) (xs : List ℕ) → Between low high xs → All (λ x. x < high) xs
below low high [] b = tt
below low high (x ∷ xs) (b, bs) = (b.1, below low high xs bs)

module _ (v : Validated) (good : IsContract v) where
  abbrev kept : List ℕ
  kept = frames v.video_start v.prefix_rows_per_frame v.representative_spatial_indices v.prefix_t

  kept-Between : Between v.video_start (suffix_start v) kept
  kept-Between =
      frames-Between v.video_start v.prefix_rows_per_frame v.representative_spatial_indices
        v.prefix_t good.within

  suffix-Between :
      Between
        (suffix_start v)
        (suffix_start v + suffix_rows v)
        (range (suffix_start v) (suffix_rows v))
  suffix-Between = range-Between (suffix_start v) (suffix_rows v)

  video-Between :
      Between v.video_start
        (suffix_start v + suffix_rows v)
        (kept ++ range (suffix_start v) (suffix_rows v))
  video-Between =
      All-append _ kept (range (suffix_start v) (suffix_rows v))
        (Between-wider v.video_start (suffix_start v) v.video_start (suffix_start v + suffix_rows v)
          kept (omega arith) (omega arith) kept-Between)
        (Between-wider (suffix_start v) (suffix_start v + suffix_rows v) v.video_start
          (suffix_start v + suffix_rows v) (range (suffix_start v) (suffix_rows v)) (omega arith)
          (omega arith) suffix-Between)

  gathered-Between : Between 0 (suffix_start v + suffix_rows v) (gathered v)
  unfolding gathered
  gathered-Between =
      All-append _ (range 0 v.video_start) (kept ++ range (suffix_start v) (suffix_rows v))
        (Between-wider 0 (0 + v.video_start) 0 (suffix_start v + suffix_rows v)
          (range 0 v.video_start) (omega arith) (omega arith) (range-Between 0 v.video_start))
        (Between-wider v.video_start (suffix_start v + suffix_rows v) 0
          (suffix_start v + suffix_rows v) _ (omega arith) (omega arith) video-Between)

  gathered-distinct : distinct (gathered v) ≡ true
  unfolding gathered
  gathered-distinct =
      distinct-append 0 v.video_start (suffix_start v + suffix_rows v) (range 0 v.video_start)
        (kept ++ range (suffix_start v) (suffix_rows v))
        (Between-wider 0 (0 + v.video_start) 0 v.video_start (range 0 v.video_start) (omega arith)
          (omega arith) (range-Between 0 v.video_start))
        video-Between (range-distinct 0 v.video_start)
        (distinct-append v.video_start (suffix_start v) (suffix_start v + suffix_rows v) kept
          (range (suffix_start v) (suffix_rows v)) kept-Between suffix-Between
          (frames-distinct v.video_start v.prefix_rows_per_frame v.representative_spatial_indices
            v.prefix_t good.within good.unique)
          (range-distinct (suffix_start v) (suffix_rows v)))

  length-gathered : length (gathered v) ≡ v.expected_kv_rows
  unfolding gathered
  length-gathered =
      let head = length-range 0 v.video_start in
      let tail = length-range (suffix_start v) (suffix_rows v) in
      let middle =
        length-frames v.video_start v.prefix_rows_per_frame v.representative_spatial_indices
          v.prefix_t in
      let outer =
        length-append (range 0 v.video_start) (kept ++ range (suffix_start v) (suffix_rows v)) in
      let inner = length-append kept (range (suffix_start v) (suffix_rows v)) in
      let there = ap (λ n. v.prefix_t * n) good.chosen in
      let shared = add-mul v.prefix_t (v.temporal - v.prefix_t) v.source_rows_per_frame in
      let whole =
        ap (λ n. n * v.source_rows_per_frame) (rejoined v.prefix_t v.temporal good.prefix) in
      let due = good.accounted in omega arith

  -- On a contract whose counts agree, the gather does not raise: it gives as many rows as expected,
  -- no row twice, and each a row of the mixed stream.
  pub kv_gather_indices-returns :
      (indices : List ℕ) × (kv_gather_indices v ≡ Outcome.ok indices)
      × (length indices ≡ v.expected_kv_rows)
      × (distinct indices ≡ true)
      × All (λ row. row < suffix_start v + suffix_rows v) indices
  unfolding kv_gather_indices
  kv_gather_indices-returns =
      let passed =
        and_intro
          (subst (λ n. (length (gathered v) == n) ≡ true) length-gathered
            (==-refl (length (gathered v))))
          gathered-distinct in
      (
        gathered v,
        rw passed refl,
        length-gathered,
        gathered-distinct,
        below _ _ (gathered v) gathered-Between,
      )
