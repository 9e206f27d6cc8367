-- ===== src/Receipts/Runs.antt =====
-- The completions of one evaluation, published in turn by `_record_completion` of
-- sol_h3/partitioned_request.py.
use comfy_ui_sol_h.Receipts.Ledger.{
  Ledger, Forward, holds_value, proof_of, full_receipt, add_value, holds_value-append,
  add_value-only,
}
use comfy_ui_sol_h.Receipts.Accepted.{publish_of}
use comfy_ui_sol_h.Base.{
  ℕ, List, String, ◌≡◌, ◌++◌, Option, some, true, option_eq, ◌∷◌, ◌⊎◌, and_true, false, inr,
  or_intro_right, map, none, [], ap, or_true, subst, refl, some-eq, inl, sym, or_intro_left, ◌∙◌,
  append_assoc, if-false, if-true, ◌==◌, ==-refl,
}
use comfy_ui_sol_h.Py.{Value, py_eq}
use comfy_ui_sol_h.Receipts.Publish.{
  record_completion, publish, rows, receipt, proofs_of, note_route,
}
use comfy_ui_sol_h.Receipts.Partitioned.{owned_within, accept_partitioned, owned}
use comfy_ui_sol_h.Py.Outcome.{Outcome, ok, ◌>>=◌, ok-eq, >>=-eq-ok}
use mathlib.Core.Option.{none}
use mathlib.Core.List.{[]}

-- One completion of a run: the block, the route and the fields.
pub record Publication : Type 0 where
  pub block : ℕ
  pub route : String
  pub fields : Value

abbrev pub proof : Publication → Value
proof p = proof_of (rows p.block) p.fields

-- The completions of one evaluation, in order.
unfoldable pub record_all : List Publication → Ledger → Outcome Ledger
unfolding record_completion
record_all [] s = ok s
record_all (p ∷ ps) s = record_completion p.block p.route p.fields s >>= record_all ps

-- The request is inside a forward of the evaluation `e`.
abbrev Within : Ledger → ℕ → Type 0
Within s e = (f : Forward) × (s.forward ≡ some f) × (f.evaluation ≡ e)

record_completion-Within :
    (p : Publication) (e : ℕ) (s t : Ledger)
    → Within s e
    → record_completion p.block p.route p.fields s ≡ ok t
    → Within t e × (proofs_of t e ≡ add_value (proof p) (proofs_of s e))
unfolding record_completion publish receipt
record_completion-Within p e s t (f, at', same) h =
    let (g, now, own, eq) = publish_of s.forward s t p.block p.route p.fields h in
    let here = ap (λ z. z.evaluation) (some-eq g f (sym now ∙ at')) ∙ same in
    subst (λ n. Within t n × (proofs_of t n ≡ add_value (proof p) (proofs_of s n))) here
      (subst
        (λ z.
          Within z g.evaluation
          × (proofs_of z g.evaluation ≡ add_value (proof p) (proofs_of s g.evaluation)))
        eq
        (
          (note_route g p.block p.route, refl, refl),
          if-true (g.evaluation == g.evaluation) _ [] (==-refl g.evaluation),
        ))

holds_value-split :
    (v : Value) (xs ys : List Value)
    → holds_value v (xs ++ ys) ≡ true
    → (holds_value v xs ≡ true) ⊎ (holds_value v ys ≡ true)
unfolding holds_value
holds_value-split v [] ys h = inr h
holds_value-split v (x ∷ xs) ys h = elim (or_true (py_eq v x) (holds_value v (xs ++ ys)) h) [
  | inl first ↦ inl (or_intro_left (py_eq v x) (holds_value v xs) first)
  | inr later ↦ elim (holds_value-split v xs ys later) [
    | inl left ↦ inl (or_intro_right (py_eq v x) (holds_value v xs) left)
    | inr right ↦ inr right
  ]
]

holds_value-append_right :
    (v : Value) (xs ys : List Value) → holds_value v ys ≡ true → holds_value v (xs ++ ys) ≡ true
unfolding holds_value
holds_value-append_right v [] ys h = h
holds_value-append_right v (x ∷ xs) ys h =
    or_intro_right (py_eq v x) (holds_value v (xs ++ ys)) (holds_value-append_right v xs ys h)

-- What is among the proofs at the end was there before or has been published.
run-proofs :
    (ps : List Publication) (e : ℕ) (s s' : Ledger) (v : Value)
    → Within s e
    → record_all ps s ≡ ok s'
    → Within s' e
      × (holds_value v (proofs_of s' e) ≡ true
          → holds_value v (proofs_of s e ++ map proof ps) ≡ true)
unfolding record_all
run-proofs [] e s s' v at' h =
    subst
      (λ z.
        Within z e
        × (holds_value v (proofs_of z e) ≡ true → holds_value v (proofs_of s e ++ []) ≡ true))
      (ok-eq s s' h) (at', λ held. holds_value-append v (proofs_of s e) [] held)
run-proofs (p ∷ ps) e s s' v at' h =
    let (t, first, later) =
      >>=-eq-ok (record_completion p.block p.route p.fields s) (record_all ps) h in
    let (inside, proofs) = record_completion-Within p e s t at' first in
    let (final, back) = run-proofs ps e t s' v inside later in
    (
      final,
      λ held. elim (holds_value-split v (proofs_of t e) (map proof ps) (back held)) [
        | inl early ↦
            subst (λ xs. holds_value v xs ≡ true)
              (append_assoc (proofs_of s e) (proof p ∷ []) (map proof ps))
              (holds_value-append v (proofs_of s e ++ proof p ∷ []) (map proof ps) (
                add_value-only v (proof p) (proofs_of s e)
                  (subst (λ xs. holds_value v xs ≡ true) proofs early)))
        | inr rest ↦
            holds_value-append_right v (proofs_of s e) (proof p ∷ map proof ps)
              (holds_value-append_right v (proof p ∷ []) (map proof ps) rest)
      ],
    )

owned_within-held :
    (o : Option Forward) (s : Ledger) (block fields : Value)
    → owned_within o s block fields ≡ true
    → (f : Forward) × (o ≡ some f)
      × (option_eq s.receipt_evaluation f.evaluation ≡ true)
      × (holds_value (proof_of block fields) s.partitioned_validated ≡ true)
unfolding owned_within
owned_within-held none s block fields h = cc
owned_within-held (some f) s block fields h =
    let (both, held) = and_true _ _ h in (f, refl, (and_true _ _ both).1, held)

accepted-owned :
    (s : Ledger) (block : ℕ) (route : String) (fields : Value)
    → accept_partitioned (some s) (full_receipt block route fields) ≡ true
    → owned_within s.forward s (rows block) fields ≡ true
unfolding accept_partitioned owned
accepted-owned s block route fields h = (and_true _ _ h).1

-- An accepted receipt is of the evaluation that runs: its block and fields equal those of a
-- completion that the request has published since the evaluation began. Nothing that an earlier
-- evaluation has left is accepted.
pub accept_partitioned-published :
    (ps : List Publication) (e : ℕ) (s s' : Ledger) (block : ℕ) (route : String) (fields : Value)
    → Within s e
    → option_eq s.receipt_evaluation e ≡ false
    → record_all ps s ≡ ok s'
    → accept_partitioned (some s') (full_receipt block route fields) ≡ true
    → holds_value (proof_of (rows block) fields) (map proof ps) ≡ true
accept_partitioned-published ps e s s' block route fields at' stale h accepted =
    let (f, now, current, held) =
      owned_within-held s'.forward s' (rows block) fields
        (accepted-owned s' block route fields accepted) in
    let (final, back) = run-proofs ps e s s' (proof_of (rows block) fields) at' h in
    let (g, now', same) = final in
    let here = ap (λ z. z.evaluation) (some-eq f g (sym now ∙ now')) ∙ same in
    let fresh = subst (λ n. option_eq s'.receipt_evaluation n ≡ true) here current in
    subst (λ xs. holds_value (proof_of (rows block) fields) (xs ++ map proof ps) ≡ true)
      (if-false (option_eq s.receipt_evaluation e) s.partitioned_validated [] stale)
      (back (
        subst (λ xs. holds_value (proof_of (rows block) fields) xs ≡ true)
          (sym (if-true (option_eq s'.receipt_evaluation e) s'.partitioned_validated [] fresh))
          held))
