-- ===== src/Py/Laws.antt =====
-- Equality of values, where it is what `≡` says.
use comfy_ui_sol_h.Base.{
  ℕ, String, sym, some, ap₂, and_true, and_intro, Bool, true, false, ◌&&◌, ◌≡◌, refl, ap, eq_iff,
  eq_refl, and_true, List, [], ◌∷◌, arith,
}
use comfy_ui_sol_h.Base.Int.{ℤ, pos, negsuc, int_eq→eq, int_eq_refl}
use comfy_ui_sol_h.Py.Data.{
  Value, Values, nothing, bool, int, float, str, tuple, list, dict, object, nil, cons, py_eq,
  all_eq, is_int, natural, items, values,
}
use comfy_ui_sol_h.Py.Floats.{Float, finite, infinite, nan, float_eq, is_finite}

-- Made of texts, exact integers and tuples of such.
unfoldable mutual
  pub is_primitive : Value → Bool
  is_primitive (int z) = true
  is_primitive (str s) = true
  is_primitive (tuple xs) = all_primitive xs
  is_primitive _ = false

  pub all_primitive : Values → Bool
  all_primitive nil = true
  all_primitive (cons x xs) = is_primitive x && all_primitive xs

-- On such values `==` is equality.
mutual
  unfolding py_eq is_primitive

  py_eq_sound :
      (a b : Value) → is_primitive a ≡ true → is_primitive b ≡ true → py_eq a b ≡ true → a ≡ b
  py_eq_sound (int a) (int b) p q h = ap int (int_eq→eq a b h)
  py_eq_sound (str a) (str b) p q h = ap str ((eq_iff a b).0 h)
  py_eq_sound (tuple a) (tuple b) p q h = ap tuple (all_eq_sound a b p q h)
  py_eq_sound _ _ p q h = cc

  all_eq_sound :
      (a b : Values) → all_primitive a ≡ true → all_primitive b ≡ true → all_eq a b ≡ true → a ≡ b
  all_eq_sound nil nil p q h = refl
  all_eq_sound nil (cons y ys) p q h = cc
  all_eq_sound (cons x xs) nil p q h = cc
  all_eq_sound (cons x xs) (cons y ys) p q h =
      let (p', ps) = and_true _ _ p in
      let (q', qs) = and_true _ _ q in
      let (h', hs) = and_true _ _ h in
      ap₂ cons (py_eq_sound x y p' q' h') (all_eq_sound xs ys ps qs hs)

-- What equals itself: no NaN, no list, dictionary or object inside.
unfoldable mutual
  unfolding is_finite

  pub is_plain : Value → Bool
  is_plain nothing = true
  is_plain (bool b) = true
  is_plain (int z) = true
  is_plain (float f) = is_finite f
  is_plain (str s) = true
  is_plain (tuple xs) = all_plain xs
  is_plain _ = false

  pub all_plain : Values → Bool
  all_plain nil = true
  all_plain (cons x xs) = is_plain x && all_plain xs

pub float_eq_self : (f : Float) → is_finite f ≡ true → float_eq f f ≡ true
unfolding is_finite float_eq
float_eq_self (finite false m e) h = ground arith
float_eq_self (finite true m e) h = ground arith
float_eq_self (infinite s) h = cc
float_eq_self nan h = cc

mutual
  unfolding py_eq is_plain

  plain_self : (a : Value) → is_plain a ≡ true → py_eq a a ≡ true
  plain_self nothing p = refl
  plain_self (bool true) p = refl
  plain_self (bool false) p = refl
  plain_self (int a) p = int_eq_refl a
  plain_self (str a) p = eq_refl a
  plain_self (float f) p = float_eq_self f p
  plain_self (tuple a) p = plains_self a p
  plain_self (list a) p = cc
  plain_self (dict a) p = cc
  plain_self (object a) p = cc

  plains_self : (a : Values) → all_plain a ≡ true → all_eq a a ≡ true
  plains_self nil p = refl
  plains_self (cons x xs) p =
      let (p', ps) = and_true _ _ p in and_intro (plain_self x p') (plains_self xs ps)

pub py_eq_refl : (a : Value) → is_plain a ≡ true → py_eq a a ≡ true
py_eq_refl = plain_self

pub py_eq-eq :
    (a b : Value) → is_primitive a ≡ true → is_primitive b ≡ true → py_eq a b ≡ true → a ≡ b
py_eq-eq = py_eq_sound

pub items-values : (xs : List Value) → items (values xs) ≡ xs
items-values [] = refl
items-values (x ∷ xs) = ap (◌∷◌ x) (items-values xs)

pub py_eq-str : (v : Value) (s : String) → py_eq v (str s) ≡ true → v ≡ str s
unfolding py_eq
py_eq-str (str a) s h = ap str ((eq_iff a s).0 h)
py_eq-str nothing s h = cc
py_eq-str (bool b) s h = cc
py_eq-str (int z) s h = cc
py_eq-str (float f) s h = cc
py_eq-str (tuple a) s h = cc
py_eq-str (list a) s h = cc
py_eq-str (dict a) s h = cc
py_eq-str (object a) s h = cc

-- `type(v) is int and v == z`
pub py_eq-int : (v : Value) (z : ℤ) → is_int v ≡ true → py_eq v (int z) ≡ true → v ≡ int z
unfolding py_eq
py_eq-int (int a) z p h = ap int (int_eq→eq a z h)
py_eq-int nothing z p h = cc
py_eq-int (bool b) z p h = cc
py_eq-int (float f) z p h = cc
py_eq-int (str a) z p h = cc
py_eq-int (tuple a) z p h = cc
py_eq-int (list a) z p h = cc
py_eq-int (dict a) z p h = cc
py_eq-int (object a) z p h = cc

pub int-py_eq : (v : Value) (z : ℤ) → is_int v ≡ true → py_eq (int z) v ≡ true → v ≡ int z
unfolding py_eq
int-py_eq (int a) z p h = ap int (sym (int_eq→eq z a h))
int-py_eq nothing z p h = cc
int-py_eq (bool b) z p h = cc
int-py_eq (float f) z p h = cc
int-py_eq (str a) z p h = cc
int-py_eq (tuple a) z p h = cc
int-py_eq (list a) z p h = cc
int-py_eq (dict a) z p h = cc
int-py_eq (object a) z p h = cc

pub natural-eq : (v : Value) (n : ℕ) → natural v ≡ some n → v ≡ int (pos n)
natural-eq (int (pos a)) n h = cc
natural-eq (int (negsuc a)) n h = cc
natural-eq nothing n h = cc
natural-eq (bool b) n h = cc
natural-eq (float f) n h = cc
natural-eq (str a) n h = cc
natural-eq (tuple a) n h = cc
natural-eq (list a) n h = cc
natural-eq (dict a) n h = cc
natural-eq (object a) n h = cc

pub values-items : (xs : Values) → values (items xs) ≡ xs
values-items nil = refl
values-items (cons x xs) = ap (cons x) (values-items xs)
