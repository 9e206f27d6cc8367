-- ===== src/MixedMeasure/Gather.antt =====
-- `kv_gather_indices` of sol_h3/mixed_measure.py, on a contract whose counts have been checked to be
-- integers of zero or more. The tensor that it returns is the list of row indices.
use comfy_ui_sol_h.Base.{
  range, ℕ, List, [], Bool, ◌+◌, ◌-◌, ◌++◌, suc, false, true, ◌*◌, length, ◌∷◌, map, ◌==◌, zero,
  ◌||◌, not, ◌&&◌,
}
use comfy_ui_sol_h.Py.Outcome.{Outcome, assert, runtime_error, ◌>>◌}
use Prim.Native.Nat.{zero}

-- What `validate_measure_contract` returns.
pub record Validated : Type 0 where
  pub video_start : ℕ
  pub temporal : ℕ
  pub prefix_t : ℕ
  pub source_rows_per_frame : ℕ
  pub prefix_rows_per_frame : ℕ
  pub expected_kv_rows : ℕ
  pub representative_spatial_indices : List ℕ

-- The representatives of `n` frames; the first of the frames begins at `base`.
unfoldable pub frames : (base prefix_rows : ℕ) (reps : List ℕ) (n : ℕ) → List ℕ
frames base prefix_rows reps zero = []
frames base prefix_rows reps (suc n) =
    map (λ index. base + index) reps ++ frames (base + prefix_rows) prefix_rows reps n

-- `x in xs`
unfoldable pub holds : ℕ → List ℕ → Bool
holds x [] = false
holds x (y ∷ ys) = x == y || holds x ys

-- `len(set(xs)) == len(xs)`
unfoldable pub distinct : List ℕ → Bool
unfolding holds
distinct [] = true
distinct (x ∷ xs) = not (holds x xs) && distinct xs

abbrev pub suffix_start : Validated → ℕ
suffix_start v = v.video_start + v.prefix_t * v.prefix_rows_per_frame

abbrev pub suffix_rows : Validated → ℕ
suffix_rows v = (v.temporal - v.prefix_t) * v.source_rows_per_frame

unfoldable pub gathered : Validated → List ℕ
unfolding frames
gathered v =
    let kept =
      frames v.video_start v.prefix_rows_per_frame v.representative_spatial_indices v.prefix_t in
    range 0 v.video_start ++ (kept ++ range (suffix_start v) (suffix_rows v))

unfoldable pub kv_gather_indices : Validated → Outcome (List ℕ)
unfolding gathered distinct
kv_gather_indices v =
    let indices = gathered v in
    assert (length indices == v.expected_kv_rows && distinct indices)
      (runtime_error "Flow mixed-grid attention-measure K/V gather is inconsistent")
    >> Outcome.ok indices
