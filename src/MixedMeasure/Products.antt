-- ===== src/MixedMeasure/Products.antt =====
-- The rows that `representative_spatial_indices` of sol_h3/mixed_measure.py makes of the chosen rows
-- and columns: how they are ordered, and that they are within the grid.
use native.Mathlib.Nat.{add-mul}
use comfy_ui_sol_h.Base.{
  get_elem?, some, some-eq, ◌++◌, get_elem?-append_left, refl, ℕ, ◌<◌, List, ◌+◌, ◌*◌, All, ◌≡◌,
  length, ◌-◌, ap, map, ◌∷◌, arith, length-map, [], All-append, suc, ◌∙◌, zero,
}
use comfy_ui_sol_h.MixedMeasure.Representatives.{products}
use mathlib.Core.List.{[]}
use Prim.Native.Nat.{zero}

regrouped : (y n : ℕ) → y < n → (y + 1) + (n - (y + 1)) ≡ n
regrouped y n h = omega arith

row-below : (y x height width : ℕ) → y < height → x < width → y * width + x < height * width
row-below y x height width h k =
    let whole = ap (λ n. n * width) (regrouped y height h) in
    let parts = add-mul (y + 1) (height - (y + 1)) width in
    let first = add-mul y 1 width in omega arith

products_row-below :
    (y height width : ℕ) (xs : List ℕ)
    → y < height
    → All (λ x. x < width) xs
    → All (λ z. z < height * width) (map (λ x. y * width + x) xs)
products_row-below y height width [] h k = tt
products_row-below y height width (x ∷ xs) h (k, ks) =
    (row-below y x height width h k, products_row-below y height width xs h ks)

pub products-below :
    (height width : ℕ) (ys xs : List ℕ)
    → All (λ y. y < height) ys
    → All (λ x. x < width) xs
    → All (λ z. z < height * width) (products width ys xs)
unfolding products
products-below height width [] xs h k = tt
products-below height width (y ∷ ys) xs (h, hs) k =
    All-append _ (map (λ x. y * width + x) xs) (products width ys xs)
      (products_row-below y height width xs h k) (products-below height width ys xs hs k)

map-get :
    (f : ℕ → ℕ) (xs : List ℕ) (j x : ℕ)
    → get_elem? xs j ≡ some x
    → get_elem? (map f xs) j ≡ some (f x)
map-get f [] j x h = cc
map-get f (a ∷ xs) zero x h = ap (λ z. some (f z)) (some-eq a x h)
map-get f (a ∷ xs) (suc j) x h = map-get f xs j x h

append-beyond :
    (xs ys : List ℕ) (i n : ℕ) → n ≡ length xs + i → get_elem? (xs ++ ys) n ≡ get_elem? ys i
append-beyond [] ys i n h = let same : n ≡ i = omega arith in ap (get_elem? ys) same
append-beyond (x ∷ xs) ys i zero h = let none_left : ⊥ = omega arith in absurd none_left
append-beyond (x ∷ xs) ys i (suc n) h = append-beyond xs ys i n (omega arith)

get-below : (xs : List ℕ) (j x : ℕ) → get_elem? xs j ≡ some x → j < length xs
get-below [] j x h = cc
get-below (a ∷ xs) zero x h = omega arith
get-below (a ∷ xs) (suc j) x h = let below = get-below xs j x h in omega arith

-- The products in row-major order.
pub products-get :
    (width : ℕ) (ys xs : List ℕ) (i j n y x : ℕ)
    → n ≡ i * length xs + j
    → get_elem? ys i ≡ some y
    → get_elem? xs j ≡ some x
    → get_elem? (products width ys xs) n ≡ some (y * width + x)
unfolding products
products-get width [] xs i j n y x e h k = cc
products-get width (b ∷ ys) xs zero j n y x e h k =
    let mapped = length-map (λ z. b * width + z) xs in
    let below = get-below xs j x k in
    let same : n ≡ j = omega arith in
    ap (get_elem? (map (λ z. b * width + z) xs ++ products width ys xs)) same
    ∙ get_elem?-append_left (map (λ z. b * width + z) xs) (products width ys xs) j (omega arith)
    ∙ map-get (λ z. b * width + z) xs j x k
    ∙ ap (λ z. some (z * width + x)) (some-eq b y h)
products-get width (b ∷ ys) xs (suc i) j n y x e h k =
    let mapped = length-map (λ z. b * width + z) xs in
    let parts = add-mul i 1 (length xs) in
    append-beyond (map (λ z. b * width + z) xs) (products width ys xs) (i * length xs + j) n
      (omega arith)
    ∙ products-get width ys xs i j (i * length xs + j) y x refl h k
