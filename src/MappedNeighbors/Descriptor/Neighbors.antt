-- ===== src/MappedNeighbors/Descriptor/Neighbors.antt =====
-- The ranges of a tile are the blocks at distance one or less from a block that one of its query
-- rows maps to.
use mathlib.Core.Bool.{false≢true}
use comfy_ui_sol_h.Base.{
  some≢none, ℕ, List, ◌≡◌, ◌≤◌, max, ◌/◌, ◌<◌, min, ◌+◌, some, true, ◌-◌, arith, lt_or_le, ◌*◌, inl,
  inr, ◌∷◌, [], sym, ◌∙◌, or_true, subst, or_intro_left, or_intro_right, some-eq, Bool-cases, leb,
  refl,
}
use comfy_ui_sol_h.MappedNeighbors.Types.{Run, block_size}
use comfy_ui_sol_h.MappedNeighbors.Wire.Runs.{position, RunsFrom, span, position_below}
use comfy_ui_sol_h.MappedNeighbors.Intervals.{holds, covers}
use comfy_ui_sol_h.MappedNeighbors.Descriptor.{run_range, selected_ranges, advance}

-- Block `b` is, or is beside, the block of key row `p`.
abbrev pub Beside : ℕ → ℕ → Type 0
Beside b p = (b ≤ p / block_size + 1) × (p / block_size ≤ b + 1)

-- Block `b` exists and is beside the key row of some query row between `lo` and `hi`.
abbrev pub Neighbor : (k_blocks lo hi : ℕ) → List Run → ℕ → Type 0
Neighbor k_blocks lo hi rs b =
    (q : ℕ) × (p : ℕ) × (lo ≤ q) × (q < hi) × (position rs q ≡ some p) × Beside b p × (b < k_blocks)

-- The rows of one run, with their key rows.
abbrev InRun : (k_blocks lo hi : ℕ) → Run → ℕ → Type 0
InRun k_blocks lo hi r b =
    (q : ℕ) × (lo ≤ q)
    × (q < hi)
    × (r.q_begin ≤ q)
    × (q < r.q_end)
    × Beside b (r.kv_begin + (q - r.q_begin))
    × (b < k_blocks)

run_range-InRun :
    (k_blocks lo hi : ℕ) (r : Run) (b : ℕ)
    → max lo r.q_begin < min hi r.q_end
    → holds b (run_range k_blocks (max lo r.q_begin) (min hi r.q_end) r) ≡ true
    → InRun k_blocks lo hi r b
unfolding run_range
run_range-InRun k_blocks lo hi r b h e =
    let ob = max lo r.q_begin in
    let oe = min hi r.q_end in
    elim (lt_or_le (block_size * b) (r.kv_begin + (ob - r.q_begin))) [
      | inl low ↦
          (ob, omega arith, omega arith, omega arith, omega arith, ground arith, ground arith)
      | inr above ↦ elim (lt_or_le (block_size * b) (r.kv_begin + (oe - r.q_begin))) [
        | inl between ↦ (
          r.q_begin + (block_size * b - r.kv_begin),
          omega arith,
          omega arith,
          omega arith,
          omega arith,
          ground arith,
          ground arith,
        )
        | inr high ↦
            (oe - 1, omega arith, omega arith, omega arith, omega arith, ground arith, ground arith)
      ]
    ]

InRun-run_range :
    (k_blocks lo hi : ℕ) (r : Run) (b : ℕ)
    → InRun k_blocks lo hi r b
    → holds b (run_range k_blocks (max lo r.q_begin) (min hi r.q_end) r) ≡ true
unfolding run_range
InRun-run_range k_blocks lo hi r b (q, a, c, d, e, (f, f'), g) = ground arith

-- The three ways of a step of the inner loop.
module _ (k_blocks lo hi : ℕ) (r : Run) (rs : List Run) where
  selected_past : hi ≤ r.q_begin → selected_ranges k_blocks lo hi (r ∷ rs) ≡ []
  unfolding selected_ranges
  selected_past h = ground arith

  selected_hit :
      r.q_begin < hi
      → max lo r.q_begin < min hi r.q_end
      → selected_ranges k_blocks lo hi (r ∷ rs)
        ≡ run_range k_blocks (max lo r.q_begin) (min hi r.q_end) r
          ∷ selected_ranges k_blocks lo hi rs
  unfolding selected_ranges
  selected_hit h k = ground arith

  selected_miss :
      r.q_begin < hi
      → min hi r.q_end ≤ max lo r.q_begin
      → selected_ranges k_blocks lo hi (r ∷ rs) ≡ selected_ranges k_blocks lo hi rs
  unfolding selected_ranges
  selected_miss h k = ground arith

module _ (q_rows kv_rows : ℕ) where
  position_inside :
      (r : Run) (rs : List Run) (q : ℕ)
      → r.q_begin ≤ q
      → q < r.q_end
      → position (r ∷ rs) q ≡ some (r.kv_begin + (q - r.q_begin))
  unfolding position
  position_inside r rs q h k = ground arith

  position_outside :
      (r : Run) (rs : List Run) (q : ℕ) → r.q_end ≤ q → position (r ∷ rs) q ≡ position rs q
  unfolding position
  position_outside r rs q h = ground arith

  -- A row that a later run holds stands behind this run.
  position_later :
      (e n : ℕ) (rs : List Run) (q p : ℕ)
      → RunsFrom q_rows kv_rows e n rs
      → position rs q ≡ some p
      → e ≤ q
  position_later e n rs q p f h = elim (lt_or_le q e) [
    | inl lt ↦ absurd (some≢none (sym h ∙ position_below q_rows kv_rows e n rs q f lt))
    | inr le ↦ le
  ]

  module _ (k_blocks lo hi : ℕ) where
    Neighbor-tail :
        (e n : ℕ) (r : Run) (rs : List Run) (b : ℕ)
        → RunsFrom q_rows kv_rows e n (r ∷ rs)
        → Neighbor k_blocks lo hi rs b
        → Neighbor k_blocks lo hi (r ∷ rs) b
    Neighbor-tail e n r rs b (_, _, _, _, _, rest) (q, p, ql, qh, ep, near, bk) =
        let later = position_later r.q_end (r.kv_begin + span r) rs q p rest ep in
        (q, p, ql, qh, position_outside r rs q later ∙ ep, near, bk)

    InRun-Neighbor :
        (r : Run) (rs : List Run) (b : ℕ)
        → InRun k_blocks lo hi r b
        → Neighbor k_blocks lo hi (r ∷ rs) b
    InRun-Neighbor r rs b (q, ql, qh, rl, rh, near, bk) =
        (q, r.kv_begin + (q - r.q_begin), ql, qh, position_inside r rs q rl rh, near, bk)

    pub selected_sound :
        (e n : ℕ) (rs : List Run) (b : ℕ)
        → RunsFrom q_rows kv_rows e n rs
        → covers b (selected_ranges k_blocks lo hi rs) ≡ true
        → Neighbor k_blocks lo hi rs b
    unfolding selected_ranges
    selected_sound e n [] b f c = absurd cc
    selected_sound e n (r ∷ rs) b f c =
        let later = selected_sound r.q_end (r.kv_begin + span r) rs b f.5 in
        elim (lt_or_le r.q_begin hi) [
          | inl ahead ↦ elim (lt_or_le (max lo r.q_begin) (min hi r.q_end)) [
            | inl hit ↦ elim (or_true _ _ (rw (selected_hit k_blocks lo hi r rs ahead hit) at c)) [
              | inl own ↦ InRun-Neighbor r rs b (run_range-InRun k_blocks lo hi r b hit own)
              | inr other ↦ Neighbor-tail e n r rs b f (later other)
            ]
            | inr miss ↦
                Neighbor-tail e n r rs b f
                  (later (rw (selected_miss k_blocks lo hi r rs ahead miss) at c))
          ]
          | inr past ↦ absurd (false≢true (rw (selected_past k_blocks lo hi r rs past) at c))
        ]

    -- The query row lies in the first run.
    in_this_run :
        (e n : ℕ) (r : Run) (rs : List Run) (b q p : ℕ)
        → RunsFrom q_rows kv_rows e n (r ∷ rs)
        → lo ≤ q
        → q < hi
        → position (r ∷ rs) q ≡ some p
        → Beside b p
        → b < k_blocks
        → q < r.q_end
        → InRun k_blocks lo hi r b
    in_this_run e n r rs b q p f ql qh ep near bk inside =
        let start = position_later e n (r ∷ rs) q p f ep in
        let same : p ≡ r.kv_begin + (q - r.q_begin) =
          some-eq _ _ (sym ep ∙ position_inside r rs q (omega arith) inside) in
        (q, ql, qh, omega arith, inside, subst (Beside b) same near, bk)

    selected_head :
        (r : Run) (rs : List Run) (b : ℕ)
        → InRun k_blocks lo hi r b
        → covers b (selected_ranges k_blocks lo hi (r ∷ rs)) ≡ true
    selected_head r rs b own =
        let (q, ql, qh, rl, rh, _, _) = own in
        rw (selected_hit k_blocks lo hi r rs (omega arith) (omega arith))
          (or_intro_left _ _ (InRun-run_range k_blocks lo hi r b own))

    selected_tail :
        (r : Run) (rs : List Run) (b : ℕ)
        → r.q_begin < hi
        → covers b (selected_ranges k_blocks lo hi rs) ≡ true
        → covers b (selected_ranges k_blocks lo hi (r ∷ rs)) ≡ true
    selected_tail r rs b ahead c = elim (lt_or_le (max lo r.q_begin) (min hi r.q_end)) [
      | inl hit ↦ rw (selected_hit k_blocks lo hi r rs ahead hit) (or_intro_right _ _ c)
      | inr miss ↦ rw (selected_miss k_blocks lo hi r rs ahead miss) c
    ]

    pub selected_complete :
        (e n : ℕ) (rs : List Run) (b : ℕ)
        → RunsFrom q_rows kv_rows e n rs
        → Neighbor k_blocks lo hi rs b
        → covers b (selected_ranges k_blocks lo hi rs) ≡ true
    unfolding position
    selected_complete e n [] b f (q, p, ql, qh, ep, near, bk) = absurd (some≢none (sym ep))
    selected_complete e n (r ∷ rs) b f (q, p, ql, qh, ep, near, bk) = elim (lt_or_le q r.q_end) [
      | inl inside ↦ selected_head r rs b (in_this_run e n r rs b q p f ql qh ep near bk inside)
      | inr behind ↦ selected_tail r rs b (omega (arith, f.0, f.1)) (
          selected_complete r.q_end (r.kv_begin + span r) rs b f.5
            (q, p, ql, qh, sym (position_outside r rs q behind) ∙ ep, near, bk))
    ]

-- A run that ends before a row does not hold it.
pub position-advance :
    (lo : ℕ) (rs : List Run) (q : ℕ) → lo ≤ q → position (advance lo rs) q ≡ position rs q
unfolding advance position
position-advance lo [] q h = refl
position-advance lo (r ∷ rs) q h = ground (arith, position-advance lo rs q h)

-- What is left of a chain of runs is one.
pub advance-RunsFrom :
    (q_rows kv_rows lo e n : ℕ) (rs : List Run)
    → RunsFrom q_rows kv_rows e n rs
    → (e' : ℕ) × (n' : ℕ) × RunsFrom q_rows kv_rows e' n' (advance lo rs)
unfolding advance
advance-RunsFrom q_rows kv_rows lo e n [] f = (e, n, f)
advance-RunsFrom q_rows kv_rows lo e n (r ∷ rs) f = elim (Bool-cases (leb r.q_end lo)) [
  | inl used ↦ rw used (advance-RunsFrom q_rows kv_rows lo r.q_end (r.kv_begin + span r) rs f.5)
  | inr kept ↦ rw kept (e, n, f)
]
