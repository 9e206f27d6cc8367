-- ===== src/MappedNeighbors/Intervals.antt =====
-- `_merge_block_intervals` of sol_h3/mapped_neighbors.py.
use comfy_ui_sol_h.Base.{
  refl, ℕ, List, [], ◌∷◌, Bool, true, false, ◌&&◌, ◌||◌, ltb, if◌then◌else◌, leb, ◌≡◌, ◌≤◌, arith,
  ◌<◌, ◌==◌, max, ◌∙◌, Bool-cases, inl, inr,
}
use comfy_ui_sol_h.MappedNeighbors.Types.{Interval}

-- The order of pairs, by the first part and then by the second.
abbrev pub before : Interval → Interval → Bool
before a b = ltb a.start b.start || (a.start == b.start && leb a.stop b.stop)

insert : Interval → List Interval → List Interval
insert a [] = a ∷ []
insert a (b ∷ bs) = if before a b then a ∷ b ∷ bs else b ∷ insert a bs

-- Python's `sorted`.
sorted : List Interval → List Interval
unfolding insert
sorted [] = []
sorted (a ∷ as') = insert a (sorted as')

abbrev join : Interval → Interval → Interval
join p i = record { start = p.start; stop = max p.stop i.stop }

-- The loop, with the last merged interval taken off the list.
unfoldable pub merge_from : Interval → List Interval → List Interval
merge_from previous [] = previous ∷ []
merge_from previous (i ∷ is') = elim (leb i.start previous.stop) [
  | true ↦ merge_from (join previous i) is'
  | false ↦ previous ∷ merge_from i is'
]

abbrev merge_sorted : List Interval → List Interval
merge_sorted [] = []
merge_sorted (i ∷ is') = merge_from i is'

unfoldable pub merge_block_intervals : List Interval → List Interval
unfolding sorted merge_from
merge_block_intervals is' = merge_sorted (sorted is')

abbrev pub holds : ℕ → Interval → Bool
holds b i = leb i.start b && ltb b i.stop

-- Some interval of the list holds the block.
abbrev pub covers : ℕ → List Interval → Bool
covers b [] = false
covers b (i ∷ is') = holds b i || covers b is'

covers-insert :
    (b : ℕ) (a : Interval) (is' : List Interval)
    → covers b (insert a is') ≡ (holds b a || covers b is')
unfolding insert
covers-insert b a [] = refl
covers-insert b a (i ∷ is') = ground (arith, covers-insert b a is')

covers-sorted : (b : ℕ) (is' : List Interval) → covers b (sorted is') ≡ covers b is'
unfolding sorted
covers-sorted b [] = refl
covers-sorted b (i ∷ is') = ground (arith, covers-insert b i (sorted is'), covers-sorted b is')

-- Starts do not fall.
abbrev Rising : ℕ → List Interval → Type 0
Rising n [] = Unit
Rising n (i ∷ is') = (n ≤ i.start) × Rising i.start is'

Rising-insert :
    (n : ℕ) (a : Interval) (is' : List Interval)
    → n ≤ a.start
    → Rising n is'
    → Rising n (insert a is')
unfolding insert
Rising-insert n a [] h r = (h, tt)
Rising-insert n a (i ∷ is') h r = ground (arith, Rising-insert i.start a is')

Rising-sorted : (is' : List Interval) → Rising 0 (sorted is')
unfolding sorted
Rising-sorted [] = tt
Rising-sorted (i ∷ is') = Rising-insert 0 i (sorted is') (omega arith) (Rising-sorted is')

Rising-mono : (m n : ℕ) (is' : List Interval) → m ≤ n → Rising n is' → Rising m is'
Rising-mono m n [] h r = tt
Rising-mono m n (i ∷ is') h r = (omega arith, r.1)

covers-merge_from :
    (b : ℕ) (p : Interval) (is' : List Interval)
    → Rising p.start is'
    → covers b (merge_from p is') ≡ (holds b p || covers b is')
unfolding merge_from
covers-merge_from b p [] r = refl
covers-merge_from b p (i ∷ is') r = ground (
  arith,
  covers-merge_from b (join p i) is',
  covers-merge_from b i is' r.1,
  Rising-mono p.start i.start is' r.0 r.1,
)

covers-merge_sorted :
    (b : ℕ) (is' : List Interval) → Rising 0 is' → covers b (merge_sorted is') ≡ covers b is'
covers-merge_sorted b [] r = refl
covers-merge_sorted b (i ∷ is') r = covers-merge_from b i is' r.1

-- Merging keeps the covered blocks.
pub covers-merge :
    (b : ℕ) (is' : List Interval) → covers b (merge_block_intervals is') ≡ covers b is'
unfolding merge_block_intervals
covers-merge b is' = covers-merge_sorted b (sorted is') (Rising-sorted is') ∙ covers-sorted b is'

-- Between neighbours of the result a block is free.
abbrev pub Separated : List Interval → Type 0
Separated [] = Unit
Separated (i ∷ []) = Unit
Separated (i ∷ j ∷ is') = (i.stop < j.start) × Separated (j ∷ is')

merge_from_joins :
    (p i : Interval) (is' : List Interval)
    → leb i.start p.stop ≡ true
    → merge_from p (i ∷ is') ≡ merge_from (join p i) is'
unfolding merge_from
merge_from_joins p i is' h = ground arith

merge_from_apart :
    (p i : Interval) (is' : List Interval)
    → leb i.start p.stop ≡ false
    → merge_from p (i ∷ is') ≡ p ∷ merge_from i is'
unfolding merge_from
merge_from_apart p i is' h = ground arith

merge_from-head :
    (p : Interval) (is' : List Interval)
    → (e : ℕ) × (rest : List Interval) × (merge_from p is'
        ≡ record { start = p.start; stop = e } ∷ rest)
unfolding merge_from
merge_from-head p [] = (p.stop, [], refl)
merge_from-head p (i ∷ is') = elim (Bool-cases (leb i.start p.stop)) [
  | inl joins ↦ rw (merge_from_joins p i is' joins) (merge_from-head (join p i) is')
  | inr apart ↦ (p.stop, merge_from i is', merge_from_apart p i is' apart)
]

merge_from-Separated : (p : Interval) (is' : List Interval) → Separated (merge_from p is')
unfolding merge_from
merge_from-Separated p [] = tt
merge_from-Separated p (i ∷ is') = elim (Bool-cases (leb i.start p.stop)) [
  | inl joins ↦ rw (merge_from_joins p i is' joins) (merge_from-Separated (join p i) is')
  | inr apart ↦
      let (e, rest, eq) = merge_from-head i is' in
      rw (merge_from_apart p i is' apart, eq) (ground arith, rw eq at (merge_from-Separated i is'))
]

-- No two intervals of the result touch, so what is covered is one interval only if the result is.
pub merge-Separated : (is' : List Interval) → Separated (merge_block_intervals is')
unfolding merge_block_intervals
merge-Separated is' = merge_sorted-Separated (sorted is')
  where
    merge_sorted-Separated : (xs : List Interval) → Separated (merge_sorted xs)
    merge_sorted-Separated [] = tt
    merge_sorted-Separated (x ∷ xs) = merge_from-Separated x xs
