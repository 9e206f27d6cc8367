-- ===== src/MixedMeasure/Representatives.antt =====
-- `representative_spatial_indices` of sol_h3/mixed_measure.py. The arithmetic of floats is a parameter.
use comfy_ui_sol_h.Base.{
  range, ℕ, List, Option, Bool, ◌*◌, ◌∷◌, if◌then◌else◌, map, [], none, suc, ◌+◌, some, ltb, ◌++◌,
  ◌||◌, zero, leb, ◌&&◌, length, ◌==◌,
}
use comfy_ui_sol_h.Base.Int.{ℤ, pos, negsuc}
use comfy_ui_sol_h.Py.{Float, whole, float_eq, float_lt}
use comfy_ui_sol_h.Py.Outcome.{
  Outcome, or_raise, ◌>>=◌, raise_if, value_error, ◌>>◌, assert, runtime_error,
}
use mathlib.Core.List.{[]}
use comfy_ui_sol_h.MixedMeasure.Gather.{distinct}
use Prim.Native.Nat.{zero}

pub record Arithmetic : Type 0 where
  pub of_int : ℕ → Float
  pub add : Float → Float → Float
  pub subtract : Float → Float → Float
  pub multiply : Float → Float → Float
  pub divide : Float → Float → Float
  pub sqrt : Float → Float
  pub abs : Float → Float

pub data Axis : Type 0 where
  vertical horizontal : Axis

abbrev pub along : Axis → (vertical_value horizontal_value : ℕ) → ℕ
along vertical h w = h
along horizontal h w = w

-- The number of a grid size that is an integer above zero.
abbrev pub positive : ℤ → Option ℕ
positive (pos zero) = none
positive (pos (suc n)) = some (suc n)
positive (negsuc n) = none

-- `(a, i) < (b, j)`
unfoldable pub key_lt : Float → ℕ → Float → ℕ → Bool
key_lt a i b j = if float_eq a b then ltb i j else float_lt a b

module _ (ops : Arithmetic) where
  unfoldable pub coordinate : (ratio : Float) (count i : ℕ) → Float
  coordinate ratio count i =
      ops.multiply
        (ops.add (ops.multiply (ops.of_int i) (ops.divide ratio (ops.of_int count)))
          (ops.divide (ops.subtract (whole 1) ratio) (whole 2)))
        (whole 32)

  unfoldable pub axis_coordinates : (grid_h grid_w : ℕ) → Axis → List Float
  unfolding coordinate
  axis_coordinates grid_h grid_w axis =
      let latent_h = grid_h * 2 in
      let latent_w = grid_w * 2 in
      let area = ops.sqrt (ops.of_int (latent_h * latent_w)) in
      let ratio = ops.divide (ops.of_int (along axis latent_h latent_w)) area in
      let count = along axis grid_h grid_w in map (coordinate ratio count) (range 0 count)

  abbrev pub distance : Float → Float → Float
  distance c value = ops.abs (ops.subtract c value)

  -- The least key among `best` and the coordinates `cs`, the first of which has index `j`.
  unfoldable pub nearest_from : (value : Float) (best : ℕ) (key : Float) (j : ℕ) → List Float → ℕ
  unfolding key_lt
  nearest_from value best key j [] = best
  nearest_from value best key j (c ∷ cs) =
      let d = distance c value in
      let closer = key_lt d j key best in
      nearest_from value (if closer then j else best) (if closer then d else key) (suc j) cs

  -- There is a coordinate, since a grid size is above zero.
  unfoldable pub nearest : List Float → Float → ℕ
  unfolding nearest_from
  nearest [] value = 0
  nearest (c ∷ cs) value = nearest_from value 0 (distance c value) 1 cs

-- `tuple(y * width + x for y in ys for x in xs)`
unfoldable pub products : (width : ℕ) (ys xs : List ℕ) → List ℕ
products width [] xs = []
products width (y ∷ ys) xs = map (λ x. y * width + x) xs ++ products width ys xs

module _ (ops : Arithmetic) where
  -- For each coordinate of the source grid the nearest one of the prefix grid.
  unfoldable pub index_of : (source_h source_w prefix_h prefix_w : ℕ) → Axis → List ℕ
  unfolding axis_coordinates nearest
  index_of source_h source_w prefix_h prefix_w axis =
      map (nearest ops (axis_coordinates ops prefix_h prefix_w axis))
        (axis_coordinates ops source_h source_w axis)

  unfoldable pub representatives_of : (source_h source_w prefix_h prefix_w : ℕ) → Outcome (List ℕ)
  unfolding index_of products
  representatives_of source_h source_w prefix_h prefix_w = do
    raise_if (ltb prefix_h source_h || ltb prefix_w source_w)
        (value_error "source grid cannot exceed target-prefix grid")
    raise_if (leb (prefix_h * prefix_w) (source_h * source_w))
        (value_error "attention-measure repair requires a strictly denser target prefix")
    let h_index = index_of source_h source_w prefix_h prefix_w vertical
    let w_index = index_of source_h source_w prefix_h prefix_w horizontal
    assert (distinct h_index && distinct w_index)
        (runtime_error "nearest mixed-grid representative mapping is not one-to-one")
    let rows = products prefix_w h_index w_index
    assert (length rows == source_h * source_w && distinct rows)
        (runtime_error "mixed-grid representative row mapping is not unique")
    Outcome.ok rows

  abbrev pub grid_size : ℤ → Outcome ℕ
  grid_size z =
      or_raise (positive z) (value_error "mixed-grid spatial grid sizes must be positive integers")

  unfoldable pub representative_spatial_indices :
      (source_grid_h source_grid_w prefix_grid_h prefix_grid_w : ℤ) → Outcome (List ℕ)
  unfolding representatives_of
  representative_spatial_indices source_grid_h source_grid_w prefix_grid_h prefix_grid_w = do
    source_h ← grid_size source_grid_h
    source_w ← grid_size source_grid_w
    prefix_h ← grid_size prefix_grid_h
    prefix_w ← grid_size prefix_grid_w
    representatives_of source_h source_w prefix_h prefix_w
