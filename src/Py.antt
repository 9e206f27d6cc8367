-- ===== src/Py.antt =====
-- Values of the dynamic language that cross the contract boundaries: wire tuples, contract
-- dictionaries, request options and receipts.
mod Floats
mod Data
mod Laws
pub mod Signs
pub mod Order
pub mod Text
pub mod Outcome
pub use Floats.{Float, finite, infinite, nan, whole, magnitude}
unfoldable pub use Floats.{float_eq, float_le, float_lt, is_finite}
pub use Data.{
  Value, Values, Entries, nothing, bool, int, float, str, tuple, list, dict, object, nil, cons, end,
  entry, items, values, find, get, is_str, is_int, is_natural, natural,
}
unfoldable pub use Data.{py_eq, all_eq}
unfoldable pub use Laws.{is_primitive, all_primitive, is_plain, all_plain}
pub use Laws.{py_eq_refl, float_eq_self}
pub use Laws.{py_eq-str, py_eq-int, int-py_eq, natural-eq, values-items, py_eq-eq, items-values}
