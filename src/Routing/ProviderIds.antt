-- ===== src/Routing/ProviderIds.antt =====
-- Lists of the providers that a walk of sol_h3/runtime.py has met, and of those that it may meet.
use comfy_ui_sol_h.Routing.Providers.{holds_id}
use comfy_ui_sol_h.Base.{
  false, ℕ, ◌≢◌, List, length, ◌<◌, true, ◌∷◌, ◌≡◌, [], if◌then◌else◌, suc, ◌⊎◌, arith, ◌==◌,
  Bool-cases, zero, ap, inl, refl, ==-refl, inr, or_true, ◌≤◌, subst, sym, or_intro_left, ◌||◌,
  ==→eq, or_intro_right, ◌∙◌, lt_or_le,
}
use Prim.Native.Nat.{zero}

false_is : false ≢ true
false_is h = cc

abbrev pub without_id : ℕ → List ℕ → List ℕ
without_id p [] = []
without_id p (x ∷ xs) = if x == p then xs else x ∷ without_id p xs

pub length-without_id :
    (p : ℕ) (xs : List ℕ) → holds_id p xs ≡ true → suc (length (without_id p xs)) ≡ length xs
length-without_id p [] h = cc
length-without_id p (x ∷ xs) h = elim (Bool-cases (x == p)) [
  | inl same ↦ rw same refl
  | inr other ↦
      rw other (ap suc (length-without_id p xs (subst (λ b. (b || holds_id p xs) ≡ true) other h)))
]

pub kept-without_id :
    (p q : ℕ) (xs : List ℕ) → holds_id q xs ≡ true → (p ≡ q) ⊎ (holds_id q (without_id p xs) ≡ true)
kept-without_id p q [] h = absurd (false_is h)
kept-without_id p q (x ∷ xs) h = elim (Bool-cases (x == p)) [
  | inl same ↦ elim (or_true (x == q) (holds_id q xs) h) [
    | inl mine ↦ inl (sym (==→eq x p same) ∙ ==→eq x q mine)
    | inr later ↦ inr (rw same later)
  ]
  | inr other ↦ elim (or_true (x == q) (holds_id q xs) h) [
    | inl mine ↦ inr (rw other (or_intro_left (x == q) _ mine))
    | inr later ↦ elim (kept-without_id p q xs later) [
      | inl same ↦ inl same
      | inr kept ↦ inr (rw other (or_intro_right (x == q) _ kept))
    ]
  ]
]

abbrev pub below_ids : ℕ → List ℕ
below_ids zero = []
below_ids (suc n) = n ∷ below_ids n

pub length-below_ids : (n : ℕ) → length (below_ids n) ≡ n
length-below_ids zero = refl
length-below_ids (suc n) = ap suc (length-below_ids n)

pub holds_id-below_ids : (n p : ℕ) → p < n → holds_id p (below_ids n) ≡ true
holds_id-below_ids zero p h = absurd (omega arith)
holds_id-below_ids (suc n) p h = elim (Bool-cases (n == p)) [
  | inl same ↦ or_intro_left (n == p) _ same
  | inr other ↦ or_intro_right (n == p) _ (
      holds_id-below_ids n p (elim (lt_or_le p n) [
        | inl below ↦ below
        | inr above ↦
            let e = le_antisym_nat n p h above in
            absurd (not_self n (subst (λ z. (n == z) ≡ false) (sym e) other))
      ]))
]
  where
    not_self : (a : ℕ) → (a == a) ≢ false
    not_self a e = let same = ==-refl a in cc

    le_antisym_nat : (a b : ℕ) → b < suc a → a ≤ b → a ≡ b
    le_antisym_nat a b h k = omega arith
