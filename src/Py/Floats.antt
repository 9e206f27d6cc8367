-- ===== src/Py/Floats.antt =====
-- Python's floats (IEEE binary64): `finite s m e` is the number m * 2 ^ e / 2 ^ 1074, with a minus
-- sign if `s` holds.
use comfy_ui_sol_h.Base.{ℕ, ◌*◌, ◌^◌, Bool, true, false, not, ◌&&◌, ◌||◌, leb, ◌==◌}

pub data Float : Type 0 where
  finite : Bool → ℕ → ℕ → Float
  infinite : Bool → Float
  nan : Float

-- The magnitude, in units of 2 ^ -1074.
abbrev pub magnitude : ℕ → ℕ → ℕ
magnitude m e = m * 2 ^ e

abbrev pub finite_le : Bool → ℕ → Bool → ℕ → Bool
finite_le false a false b = leb a b
finite_le false a true b = (a == 0) && (b == 0)
finite_le true a false b = true
finite_le true a true b = leb b a

-- `a <= b`; every comparison with a NaN is false.
unfoldable pub float_le : Float → Float → Bool
float_le nan _ = false
float_le (finite s m e) nan = false
float_le (finite s m e) (infinite t) = not t
float_le (finite s m e) (finite t n d) = finite_le s (magnitude m e) t (magnitude n d)
float_le (infinite s) nan = false
float_le (infinite s) (infinite t) = s || not t
float_le (infinite s) (finite t n d) = s

-- `a == b`
unfoldable pub float_eq : Float → Float → Bool
unfolding float_le
float_eq a b = float_le a b && float_le b a

-- `a < b`
unfoldable pub float_lt : Float → Float → Bool
unfolding float_le
float_lt a b = float_le a b && not (float_le b a)

-- `math.isfinite`
unfoldable pub is_finite : Float → Bool
is_finite (finite s m e) = true
is_finite (infinite s) = false
is_finite nan = false

-- The float of a small non-negative integer.
abbrev pub whole : ℕ → Float
whole n = finite false n 1074
