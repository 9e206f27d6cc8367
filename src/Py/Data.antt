-- ===== src/Py/Data.antt =====
-- One data type for the values that the contracts carry. An object that the code only passes on or
-- compares by identity is `object`, with its identity.
use comfy_ui_sol_h.Base.{
  ℕ, Bool, true, false, ◌&&◌, ◌==◌, str_eq, if◌then◌else◌, Option, none, some, List, [], ◌∷◌,
  String,
}
use comfy_ui_sol_h.Base.Int.{ℤ, pos, negsuc, int_eq}
use comfy_ui_sol_h.Py.Floats.{Float, float_eq, finite}

mutual
  pub data Value : Type 0 where
    nothing : Value
    bool : Bool → Value
    int : ℤ → Value
    float : Float → Value
    str : String → Value
    tuple : Values → Value
    list : Values → Value
    dict : Entries → Value
    object : ℕ → Value

  pub data Values : Type 0 where
    nil : Values
    cons : Value → Values → Values

  pub data Entries : Type 0 where
    end : Entries
    entry : String → Value → Entries → Entries

abbrev pub items : Values → List Value
items nil = []
items (cons x xs) = x ∷ items xs

abbrev pub values : List Value → Values
values [] = nil
values (x ∷ xs) = cons x (values xs)

-- `d.get(name)` on a dictionary with text keys; a missing key is `None`.
abbrev pub find : String → Entries → Option Value
find name end = none
find name (entry key v rest) = if str_eq key name then some v else find name rest

abbrev pub or_nothing : Option Value → Value
or_nothing none = nothing
or_nothing (some v) = v

abbrev pub get : String → Value → Value
get name (dict es) = or_nothing (find name es)
get name _ = nothing

abbrev pub count_entries : Entries → ℕ
count_entries end = 0
count_entries (entry key v rest) = ℕ.suc (count_entries rest)

-- A number as a float, exact for the integers that are compared with one.
abbrev as_float : ℤ → Float
as_float (pos n) = finite false n 1074
as_float (negsuc n) = finite true (ℕ.suc n) 1074

abbrev of_bool : Bool → ℤ
of_bool true = pos 1
of_bool false = pos 0

-- `a == b`: integers, Booleans and floats compare by value, and a tuple never equals a list.
unfoldable mutual
  unfolding float_eq

  pub py_eq : Value → Value → Bool
  py_eq nothing nothing = true
  py_eq (bool a) (bool b) = int_eq (of_bool a) (of_bool b)
  py_eq (bool a) (int b) = int_eq (of_bool a) b
  py_eq (bool a) (float b) = float_eq (as_float (of_bool a)) b
  py_eq (int a) (bool b) = int_eq a (of_bool b)
  py_eq (int a) (int b) = int_eq a b
  py_eq (int a) (float b) = float_eq (as_float a) b
  py_eq (float a) (bool b) = float_eq a (as_float (of_bool b))
  py_eq (float a) (int b) = float_eq a (as_float b)
  py_eq (float a) (float b) = float_eq a b
  py_eq (str a) (str b) = str_eq a b
  py_eq (tuple a) (tuple b) = all_eq a b
  py_eq (list a) (list b) = all_eq a b
  py_eq (dict a) (dict b) = (count_entries a == count_entries b) && within a b
  py_eq (object a) (object b) = a == b
  py_eq _ _ = false

  pub all_eq : Values → Values → Bool
  all_eq nil nil = true
  all_eq (cons x xs) (cons y ys) = py_eq x y && all_eq xs ys
  all_eq _ _ = false

  -- Every entry of the first dictionary stands in the second.
  pub within : Entries → Entries → Bool
  within end other = true
  within (entry key v rest) other =
      elim (find key other) [ none ↦ false | some w ↦ py_eq v w ] && within rest other

-- `isinstance(v, str)`
abbrev pub is_str : Value → Bool
is_str (str s) = true
is_str _ = false

-- `type(v) is int`
abbrev pub is_int : Value → Bool
is_int (int z) = true
is_int _ = false

-- The number of a value that is an integer of zero or more.
abbrev pub natural : Value → Option ℕ
natural (int (pos n)) = some n
natural _ = none

-- `type(v) is int and v >= 0`
abbrev pub is_natural : Value → Bool
is_natural (int (pos n)) = true
is_natural _ = false
