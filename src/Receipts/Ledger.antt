-- ===== src/Receipts/Ledger.antt =====
-- The request's proofs of completed calls, the forward that is active, and the published receipts.
use comfy_ui_sol_h.Py.{Value, tuple, cons, nil, str, int, is_plain, py_eq, py_eq_refl}
use comfy_ui_sol_h.Base.{
  ℕ, List, Option, String, Bool, if◌then◌else◌, false, ◌++◌, ◌≡◌, ◌∷◌, true, [], Bool-cases, ◌||◌,
  or_intro_left, inl, inr, or_intro_right, or_true, subst,
}
use comfy_ui_sol_h.Base.Int.{pos}

-- What `_FORWARD` holds: the request that the forward belongs to, by identity, its evaluation and
-- the routes so far.
pub record Forward : Type 0 where
  pub owner : ℕ
  pub evaluation : ℕ
  pub routes : List (ℕ × String)

-- The fields of a `Request` that receipts touch. `sink` is the caller's list under
-- `attention_backend_receipts_v1`, if it gave one.
pub record Ledger : Type 0 where
  pub identity : ℕ
  pub forward : Option Forward
  pub mapped_validated : List Value
  pub partitioned_validated : List Value
  pub receipt_evaluation : Option ℕ
  pub partitioned_receipts : ℕ
  pub sink : Option (List Value)

-- `x in s` on a set or a tuple of values.
unfoldable pub holds_value : Value → List Value → Bool
holds_value v [] = false
holds_value v (x ∷ xs) = py_eq v x || holds_value v xs

-- `s.add(x)`
unfoldable pub add_value : Value → List Value → List Value
unfolding holds_value
add_value v xs = if holds_value v xs then xs else xs ++ v ∷ []

pub holds_value-last :
    (v : Value) (xs : List Value) → is_plain v ≡ true → holds_value v (xs ++ v ∷ []) ≡ true
unfolding holds_value
holds_value-last v [] p = or_intro_left _ _ (py_eq_refl v p)
holds_value-last v (x ∷ xs) p = or_intro_right _ _ (holds_value-last v xs p)

-- What was added is found.
pub holds_value-add :
    (v : Value) (xs : List Value) → is_plain v ≡ true → holds_value v (add_value v xs) ≡ true
unfolding add_value
holds_value-add v xs p = elim (Bool-cases (holds_value v xs)) [
  | inl old ↦ rw old old
  | inr new ↦ rw new (holds_value-last v xs p)
]

pub holds_value-append :
    (v : Value) (xs ys : List Value) → holds_value v xs ≡ true → holds_value v (xs ++ ys) ≡ true
unfolding holds_value
holds_value-append v [] ys h = cc
holds_value-append v (x ∷ xs) ys h = elim (or_true (py_eq v x) (holds_value v xs) h) [
  | inl now ↦ or_intro_left (py_eq v x) (holds_value v (xs ++ ys)) now
  | inr later ↦
      or_intro_right (py_eq v x) (holds_value v (xs ++ ys)) (holds_value-append v xs ys later)
]

-- Adding keeps what is there.
pub add_value-keeps :
    (v w : Value) (xs : List Value)
    → holds_value v xs ≡ true
    → holds_value v (add_value w xs) ≡ true
unfolding add_value
add_value-keeps v w xs h = elim (Bool-cases (holds_value w xs)) [
  | inl old ↦ rw old h
  | inr new ↦ rw new (holds_value-append v xs _ h)
]

-- What is there after an addition was there, or equals what was added.
pub add_value-only :
    (v w : Value) (xs : List Value)
    → holds_value v (add_value w xs) ≡ true
    → holds_value v (xs ++ w ∷ []) ≡ true
unfolding add_value
add_value-only v w xs h = elim (Bool-cases (holds_value w xs)) [
  | inl old ↦
      holds_value-append v xs _
        (subst (λ b. holds_value v (if b then xs else xs ++ w ∷ []) ≡ true) old h)
  | inr new ↦ subst (λ b. holds_value v (if b then xs else xs ++ w ∷ []) ≡ true) new h
]

-- `(block, fields)`
abbrev pub proof_of : Value → Value → Value
proof_of block fields = tuple (cons block (cons fields nil))

-- `("sol_h3", block, route)` and the same with fields.
abbrev pub plain_receipt : ℕ → String → Value
plain_receipt block route =
    tuple (cons (str "sol_h3") (cons (int (pos block)) (cons (str route) nil)))

abbrev pub full_receipt : ℕ → String → Value → Value
full_receipt block route fields =
    tuple (cons (str "sol_h3") (cons (int (pos block)) (cons (str route) (cons fields nil))))
