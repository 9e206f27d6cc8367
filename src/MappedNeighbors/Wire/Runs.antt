-- ===== src/MappedNeighbors/Wire/Runs.antt =====
-- What the runs of an accepted map are: they follow one another over all query rows, and their key
-- rows rise.
use comfy_ui_sol_h.Base.{
  ℕ, ◌+◌, ◌-◌, ◌≤◌, ◌<◌, ◌≡◌, refl, ◌&&◌, ltb, leb, if◌then◌else◌, Option, none, some, List, [],
  ◌∷◌, arith, lt_or_le, inl, inr,
}
use comfy_ui_sol_h.MappedNeighbors.Types.{Run}

abbrev pub span : Run → ℕ
span r = r.q_end - r.q_begin

-- From query row `e` on and above the key rows below `n`, the runs cover the rows up to `q_rows`.
abbrev pub RunsFrom : (q_rows kv_rows e n : ℕ) → List Run → Type 0
RunsFrom q_rows kv_rows e n [] = e ≡ q_rows
RunsFrom q_rows kv_rows e n (r ∷ rs) =
    (r.q_begin ≡ e)
    × (e < r.q_end)
    × (r.q_end ≤ q_rows)
    × (n ≤ r.kv_begin)
    × (r.kv_begin + span r ≤ kv_rows)
    × RunsFrom q_rows kv_rows r.q_end (r.kv_begin + span r) rs

-- The key row of a query row, if a run holds it.
unfoldable pub position : List Run → ℕ → Option ℕ
position [] q = none
position (r ∷ rs) q =
    if leb r.q_begin q && ltb q r.q_end then some (r.kv_begin + (q - r.q_begin)) else position rs q

module _ (q_rows kv_rows : ℕ) where
  -- Every query row from `e` on has a key row, which lies in the domain and above `n`.
  pub position-RunsFrom :
      (e n : ℕ) (rs : List Run) (q : ℕ)
      → RunsFrom q_rows kv_rows e n rs
      → e ≤ q
      → q < q_rows
      → (p : ℕ) × (position rs q ≡ some p) × (n ≤ p) × (p < kv_rows)
  unfolding position
  position-RunsFrom e n [] q h lo hi = absurd (omega arith)
  position-RunsFrom e n (r ∷ rs) q (b, lt, le, above, fits, rest) lo hi =
      elim (lt_or_le q r.q_end) [
        | inl inside ↦ (r.kv_begin + (q - r.q_begin), ground arith, omega arith, omega arith)
        | inr after ↦
            let (p, e', lo', hi') =
              position-RunsFrom r.q_end (r.kv_begin + span r) rs q rest after hi in
            (p, ground arith, omega arith, hi')
      ]

  -- Rows before `e` have none.
  pub position_below :
      (e n : ℕ) (rs : List Run) (q : ℕ)
      → RunsFrom q_rows kv_rows e n rs
      → q < e
      → position rs q ≡ none
  unfolding position
  position_below e n [] q h lt = refl
  position_below e n (r ∷ rs) q (b, lt', le, above, fits, rest) lt =
      ground (arith, position_below r.q_end (r.kv_begin + span r) rs q rest)

  -- A key row that a query row has is above `n`.
  pub position_above :
      (e n : ℕ) (rs : List Run) (q p : ℕ)
      → RunsFrom q_rows kv_rows e n rs
      → position rs q ≡ some p
      → n ≤ p
  unfolding position
  position_above e n [] q p h eq = cc
  position_above e n (r ∷ rs) q p (b, lt', le, above, fits, rest) eq =
      ground (arith, position_above r.q_end (r.kv_begin + span r) rs q p rest)

  -- Key rows rise strictly with the query rows.
  pub position_mono :
      (e n : ℕ) (rs : List Run) (q r p s : ℕ)
      → RunsFrom q_rows kv_rows e n rs
      → q < r
      → r < q_rows
      → position rs q ≡ some p
      → position rs r ≡ some s
      → p < s
  unfolding position
  position_mono e n [] q r p s h lt hi eq eq' = cc
  position_mono e n (x ∷ rs) q r p s (b, lt', le, above, fits, rest) lt hi eq eq' = ground (
    arith,
    position_mono x.q_end (x.kv_begin + span x) rs q r p s rest,
    position_below x.q_end (x.kv_begin + span x) rs q rest,
    position_above x.q_end (x.kv_begin + span x) rs r s rest,
  )
