-- ===== src/Py/Signs.antt =====
-- The sign of a finite float, by its comparisons with zero.
use comfy_ui_sol_h.Base.{true, false, ◌≡◌, refl, arith}
use comfy_ui_sol_h.Py.Floats.{Float, finite, infinite, nan, float_eq, float_lt, is_finite, whole}

pub zero-is_finite : (m : Float) → float_eq m (whole 0) ≡ true → is_finite m ≡ true
unfolding float_eq is_finite
zero-is_finite (finite s m e) h = refl
zero-is_finite (infinite true) h = cc
zero-is_finite (infinite false) h = cc
zero-is_finite nan h = cc

pub zero-not_positive : (m : Float) → float_eq m (whole 0) ≡ true → float_lt (whole 0) m ≡ false
unfolding float_eq float_lt
zero-not_positive (finite false m e) h = ground arith
zero-not_positive (finite true m e) h = ground arith
zero-not_positive (infinite true) h = cc
zero-not_positive (infinite false) h = cc
zero-not_positive nan h = cc

pub not_zero-negative :
    (m : Float)
    → is_finite m ≡ true
    → float_lt (whole 0) m ≡ false
    → float_eq m (whole 0) ≡ false
    → float_lt m (whole 0) ≡ true
unfolding float_eq float_lt is_finite
not_zero-negative (finite false m e) f p z = ground arith
not_zero-negative (finite true m e) f p z = ground arith
not_zero-negative (infinite s) f p z = cc
not_zero-negative nan f p z = cc
