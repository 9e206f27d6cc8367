-- ===== src/Receipts/Fallbacks.antt =====
-- `HistoryPolicy.accept_receipts` of sol_h3/interop.py on the receipts of calls whose map was not
-- available.
use Prim.Native.String.append
use Prim.Native.String.{◌++◌ as text_append}
use Prim.Native.Char.{code}
use comfy_ui_sol_h.Base.{
  Bool, List, ◌≡◌, ℕ, false, ◌++◌, String, all, true, ◌∷◌, and_intro, refl, ==-refl, [], ◌&&◌, ap,
  Option, not,
}
use comfy_ui_sol_h.Receipts.History.{
  starts_with, accept_item, text_starts, accept_plain, accept_receipts, one_of, owned_mapped_of,
  plain_routes,
}
use comfy_ui_sol_h.Py.{py_eq, Value}
use comfy_ui_sol_h.Receipts.Ledger.{plain_receipt, Ledger}
use comfy_ui_sol_h.Routing.Local.{mapping_route}
use mathlib.Core.List.{[]}

and-false : (a b : Bool) → b ≡ false → (a && b) ≡ false
and-false true b h = h
and-false false b h = refl

all-append-false :
    {A : Type 0} (p : A → Bool) (xs ys : List A) (x : A)
    → p x ≡ false
    → all p (xs ++ (x ∷ ys)) ≡ false
all-append-false p [] ys x h = rw h refl
all-append-false p (y ∷ xs) ys x h =
    and-false (p y) (all p (xs ++ (x ∷ ys))) (all-append-false p xs ys x h)

-- A text starts with what was put in front of it.
text_starts-append : (prefix text : String) → text_starts prefix (text_append prefix text) ≡ true
unfolding starts_with
text_starts-append String.[] text = refl
text_starts-append (String.◌∷◌ c prefix) text =
    rw (append.cons c prefix text) (and_intro (==-refl (code c)) (text_starts-append prefix text))

accept_item-mapping :
    (owned : List Value) (block : ℕ) (reason : String)
    → accept_item owned (plain_receipt block (mapping_route reason)) ≡ false
unfolding accept_item accept_plain py_eq
accept_item-mapping owned block reason =
    ap (λ b. not b && one_of (mapping_route reason) plain_routes)
      (text_starts-append "vdn_local_native_mapping:" reason)

-- A history with the receipt of a call whose map was not available is never accepted, whatever else
-- it holds.
pub accept_receipts-mapping :
    (request : Option Ledger) (before after : List Value) (block : ℕ) (reason : String)
    → accept_receipts request (before ++ (plain_receipt block (mapping_route reason) ∷ after))
      ≡ false
unfolding accept_receipts
accept_receipts-mapping request [] after block reason =
    all-append-false (accept_item (owned_mapped_of request)) [] after
      (plain_receipt block (mapping_route reason))
      (accept_item-mapping (owned_mapped_of request) block reason)
accept_receipts-mapping request (r ∷ before) after block reason =
    all-append-false (accept_item (owned_mapped_of request)) (r ∷ before) after
      (plain_receipt block (mapping_route reason))
      (accept_item-mapping (owned_mapped_of request) block reason)
