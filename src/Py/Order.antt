-- ===== src/Py/Order.antt =====
-- The order of Python's floats.
use comfy_ui_sol_h.Base.{Bool, true, false, ℕ, ◌≡◌, refl, arith}
use comfy_ui_sol_h.Py.Floats.{Float, finite, infinite, nan, float_le, finite_le}

finite_le_trans :
    (s : Bool) (a : ℕ) (t : Bool) (b : ℕ) (u : Bool) (c : ℕ)
    → finite_le s a t b ≡ true
    → finite_le t b u c ≡ true
    → finite_le s a u c ≡ true
finite_le_trans false a false b false c h k = ground arith
finite_le_trans false a false b true c h k = ground arith
finite_le_trans false a true b false c h k = ground arith
finite_le_trans false a true b true c h k = ground arith
finite_le_trans true a t b false c h k = refl
finite_le_trans true a false b true c h k = ground arith
finite_le_trans true a true b true c h k = ground arith

pub float_le_trans :
    (a b c : Float) → float_le a b ≡ true → float_le b c ≡ true → float_le a c ≡ true
unfolding float_le
float_le_trans nan b c h k = cc
float_le_trans (finite s m e) nan c h k = cc
float_le_trans (finite s m e) (infinite t) nan h k = cc
float_le_trans (finite s m e) (infinite false) (infinite u) h k = k
float_le_trans (finite s m e) (infinite true) (infinite u) h k = cc
float_le_trans (finite s m e) (infinite false) (finite u n d) h k = cc
float_le_trans (finite s m e) (infinite true) (finite u n d) h k = cc
float_le_trans (finite s m e) (finite t n d) nan h k = cc
float_le_trans (finite s m e) (finite t n d) (infinite u) h k = k
float_le_trans (finite s m e) (finite t n d) (finite u o f) h k = finite_le_trans s _ t _ u _ h k
float_le_trans (infinite s) nan c h k = cc
float_le_trans (infinite s) (infinite t) nan h k = cc
float_le_trans (infinite s) (finite t n d) nan h k = cc
float_le_trans (infinite true) (infinite t) (infinite u) h k = refl
float_le_trans (infinite false) (infinite true) (infinite u) h k = cc
float_le_trans (infinite false) (infinite false) (infinite u) h k = k
float_le_trans (infinite true) (infinite t) (finite u o f) h k = refl
float_le_trans (infinite false) (infinite true) (finite u o f) h k = cc
float_le_trans (infinite false) (infinite false) (finite u o f) h k = cc
float_le_trans (infinite true) (finite t n d) (infinite u) h k = refl
float_le_trans (infinite false) (finite t n d) (infinite u) h k = cc
float_le_trans (infinite true) (finite t n d) (finite u o f) h k = refl
float_le_trans (infinite false) (finite t n d) (finite u o f) h k = cc
