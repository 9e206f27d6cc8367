-- ===== src/MixedMeasure/Nearest.antt =====
-- What `representative_spatial_indices` of sol_h3/mixed_measure.py returns.
use comfy_ui_sol_h.Py.Outcome.{Outcome, >>=-eq-ok, raise_if, assert, assert-true, ok-eq}
use comfy_ui_sol_h.MixedMeasure.Products.{products-below, products-get}
use comfy_ui_sol_h.MixedMeasure.Least.{AllNearest, map-AllNearest}
use comfy_ui_sol_h.Base.{
  get_elem?, some, refl, sym, range, Bool, ℕ, ◌<◌, List, if◌then◌else◌, ◌+◌, ◌*◌, All, ◌≡◌, true,
  length, ap, map, ◌∷◌, ◌≤◌, arith, subst, length-map, [], suc, ◌∙◌, length-range, ltb, ◌||◌, leb,
  ◌&&◌, ◌==◌, and_true, ==→eq, zero,
}
use comfy_ui_sol_h.MixedMeasure.Representatives.{
  representative_spatial_indices, grid_size, Arithmetic, products, nearest_from, nearest,
  axis_coordinates, index_of, representatives_of, Axis, along, vertical, horizontal,
}
use comfy_ui_sol_h.Py.{Float}
use mathlib.Core.Bool.{true, false}
use mathlib.Core.List.{[]}
use comfy_ui_sol_h.MixedMeasure.Gather.{distinct}
use comfy_ui_sol_h.Base.Int.{ℤ, pos, negsuc}
use Prim.Native.Nat.{zero}

split : (b : Bool) (i j n : ℕ) → i < n → j < n → (if b then i else j) < n
split true i j n h k = h
split false i j n h k = k

module _ (ops : Arithmetic) where
  nearest_from-below :
      (value : Float) (n : ℕ) (cs : List Float) (best : ℕ) (key : Float) (j : ℕ)
      → best < n
      → j + length cs ≤ n
      → nearest_from ops value best key j cs < n
  unfolding nearest_from
  nearest_from-below value n [] best key j h k = h
  nearest_from-below value n (c ∷ cs) best key j h k =
      nearest_from-below value n cs _ _ (suc j) (split _ j best n (omega arith) h) (omega arith)

  nearest-below :
      (cs : List Float) (value : Float) → 0 < length cs → nearest ops cs value < length cs
  unfolding nearest
  nearest-below [] value h = omega arith
  nearest-below (c ∷ cs) value h =
      nearest_from-below value (suc (length cs)) cs 0 _ 1 (omega arith) (omega arith)

  map-nearest-below :
      (cs vs : List Float) (n : ℕ)
      → length cs ≡ n
      → 0 < n
      → All (λ i. i < n) (map (nearest ops cs) vs)
  map-nearest-below cs [] n e h = tt
  map-nearest-below cs (v ∷ vs) n e h = (
    subst (λ m. nearest ops cs v < m) e (nearest-below cs v (omega arith)),
    map-nearest-below cs vs n e h,
  )

  length-axis_coordinates :
      (h w : ℕ) (axis : Axis) → length (axis_coordinates ops h w axis) ≡ along axis h w
  unfolding axis_coordinates
  length-axis_coordinates h w axis =
      length-map _ (range 0 (along axis h w)) ∙ length-range 0 (along axis h w)

  index_of-below :
      (h w prefix_h prefix_w : ℕ) (axis : Axis)
      → 0 < along axis prefix_h prefix_w
      → All (λ i. i < along axis prefix_h prefix_w) (index_of ops h w prefix_h prefix_w axis)
  unfolding index_of
  index_of-below h w prefix_h prefix_w axis some_row =
      map-nearest-below (axis_coordinates ops prefix_h prefix_w axis) _ _
        (length-axis_coordinates prefix_h prefix_w axis) some_row

-- One row of the prefix grid for each row of the source grid: that of the nearest row and the nearest
-- column, in row-major order; all four sizes are above zero.
pub record IsRepresentatives (ops : Arithmetic) (h w prefix_h prefix_w : ℕ) (rows : List ℕ)
    : Type 0 where
  pub tall : 0 < h
  pub wide : 0 < w
  pub prefix_tall : 0 < prefix_h
  pub prefix_wide : 0 < prefix_w
  pub ys : List ℕ
  pub xs : List ℕ
  pub ys_nearest :
      AllNearest ops
        (axis_coordinates ops prefix_h prefix_w vertical)
        (axis_coordinates ops h w vertical)
        ys
  pub xs_nearest :
      AllNearest ops
        (axis_coordinates ops prefix_h prefix_w horizontal)
        (axis_coordinates ops h w horizontal)
        xs
  pub paired :
      (i j y x : ℕ)
      → get_elem? ys i ≡ some y
      → get_elem? xs j ≡ some x
      → get_elem? rows (i * length xs + j) ≡ some (y * prefix_w + x)
  pub counted : length rows ≡ h * w
  pub unique : distinct rows ≡ true
  pub within : All (λ row. row < prefix_h * prefix_w) rows

module _ (ops : Arithmetic) where
  index_of-AllNearest :
      (h w prefix_h prefix_w : ℕ) (axis : Axis)
      → 0 < along axis prefix_h prefix_w
      → AllNearest ops
          (axis_coordinates ops prefix_h prefix_w axis)
          (axis_coordinates ops h w axis)
          (index_of ops h w prefix_h prefix_w axis)
  unfolding index_of
  index_of-AllNearest h w prefix_h prefix_w axis some_row =
      map-AllNearest ops (axis_coordinates ops prefix_h prefix_w axis)
        (axis_coordinates ops h w axis)
        (subst (λ n. 0 < n) (sym (length-axis_coordinates ops prefix_h prefix_w axis)) some_row)

  representatives_of-IsRepresentatives :
      (h w prefix_h prefix_w : ℕ) (rows : List ℕ)
      → 0 < h
      → 0 < w
      → 0 < prefix_h
      → 0 < prefix_w
      → representatives_of ops h w prefix_h prefix_w ≡ Outcome.ok rows
      → IsRepresentatives ops h w prefix_h prefix_w rows
  unfolding representatives_of
  representatives_of-IsRepresentatives h w prefix_h prefix_w rows tall wide prefix_tall prefix_wide
        done =
      let h_index = index_of ops h w prefix_h prefix_w vertical in
      let w_index = index_of ops h w prefix_h prefix_w horizontal in
      let all_rows = products prefix_w h_index w_index in
      let (t0, r0, d0) = >>=-eq-ok (raise_if (ltb prefix_h h || ltb prefix_w w) _) _ done in
      let (t1, r1, d1) = >>=-eq-ok (raise_if (leb (prefix_h * prefix_w) (h * w)) _) _ d0 in
      let (t2, r2, d2) = >>=-eq-ok (assert (distinct h_index && distinct w_index) _) _ d1 in
      let (t3, r3, d3) =
        >>=-eq-ok (assert (length all_rows == h * w && distinct all_rows) _) _ d2 in
      let (counted, unique) =
        and_true (length all_rows == h * w) (distinct all_rows)
          (assert-true (length all_rows == h * w && distinct all_rows) _ r3) in
      subst (IsRepresentatives ops h w prefix_h prefix_w) (ok-eq all_rows rows d3) (record {
        tall = tall;
        wide = wide;
        prefix_tall = prefix_tall;
        prefix_wide = prefix_wide;
        ys = h_index;
        xs = w_index;
        ys_nearest = index_of-AllNearest h w prefix_h prefix_w vertical prefix_tall;
        xs_nearest = index_of-AllNearest h w prefix_h prefix_w horizontal prefix_wide;
        paired = λ i j y x first second.
            products-get prefix_w h_index w_index i j _ y x refl first second;
        counted = ==→eq _ _ counted;
        unique = unique;
        within =
            products-below prefix_h prefix_w h_index w_index
              (index_of-below ops h w prefix_h prefix_w vertical prefix_tall)
              (index_of-below ops h w prefix_h prefix_w horizontal prefix_wide);
      })

  grid_size-ok : (z : ℤ) (n : ℕ) → grid_size ops z ≡ Outcome.ok n → (z ≡ pos n) × (0 < n)
  grid_size-ok (pos zero) n h = cc
  grid_size-ok (pos (suc m)) n h =
      let e = ok-eq (suc m) n h in (ap pos e, subst (λ k. 0 < k) e (omega arith))
  grid_size-ok (negsuc m) n h = cc

  -- The representatives that are returned belong to grids whose four sizes are above zero. They pair
  -- a row with a column of the prefix grid, in row-major order: for each row of the source grid the
  -- nearest row of the prefix grid, the first one of equally near ones, and the same for the columns.
  -- They are distinct, one for each place of the source grid, and within the prefix grid.
  pub representative_spatial_indices-IsRepresentatives :
      (source_h source_w prefix_h prefix_w : ℤ) (rows : List ℕ)
      → representative_spatial_indices ops source_h source_w prefix_h prefix_w ≡ Outcome.ok rows
      → (h : ℕ) × (w : ℕ) × (ph : ℕ) × (pw : ℕ) × ((source_h ≡ pos h)
          × (source_w ≡ pos w)
          × (prefix_h ≡ pos ph)
          × (prefix_w ≡ pos pw))
        × IsRepresentatives ops h w ph pw rows
  unfolding representative_spatial_indices
  representative_spatial_indices-IsRepresentatives source_h source_w prefix_h prefix_w rows done =
      let (h, h0, d0) = >>=-eq-ok (grid_size ops source_h) _ done in
      let (w, w0, d1) = >>=-eq-ok (grid_size ops source_w) _ d0 in
      let (ph, ph0, d2) = >>=-eq-ok (grid_size ops prefix_h) _ d1 in
      let (pw, pw0, d3) = >>=-eq-ok (grid_size ops prefix_w) _ d2 in
      let (high_eq, high) = grid_size-ok source_h h h0 in
      let (broad_eq, broad) = grid_size-ok source_w w w0 in
      let (tall_eq, tall) = grid_size-ok prefix_h ph ph0 in
      let (wide_eq, wide) = grid_size-ok prefix_w pw pw0 in
      (
        h,
        w,
        ph,
        pw,
        (high_eq, broad_eq, tall_eq, wide_eq),
        representatives_of-IsRepresentatives h w ph pw rows high broad tall wide d3,
      )
