-- ===== src/Routing/Demoted.antt =====
-- The dense attention of a request of sol_h3/runtime.py over all its calls: which providers it has
-- given up, and what it has counted.
use Prim.Native.String.{◌++◌ as text_append}
use comfy_ui_sol_h.Py.Outcome.{Outcome, Exn}
use comfy_ui_sol_h.Base.{
  List, ℕ, String, ◌∷◌, ◌≡◌, Option, ◌+◌, suc, false, length, true, [], Bool-cases, some, none,
  str_eq, ◌⊎◌, inl, ◌∙◌, refl, inr, arith, or_intro_right, ◌==◌, or_intro_left, ==-refl,
}
use comfy_ui_sol_h.Routing.State.{bump}
use comfy_ui_sol_h.Routing.Dense.{
  DenseState, Attention, demote, dense_call, returned_by, run_original, or_original, try_provider,
  provider_unavailable_reason,
}
use comfy_ui_sol_h.Routing.Providers.{holds_id}
use mathlib.Core.List.{[]}

abbrev pub total : List (String × ℕ) → ℕ
total [] = 0
total ((name, n) ∷ rest) = n + total rest

total-bump :
    (name : String) (counts : List (String × ℕ)) → total (bump name counts) ≡ suc (total counts)
unfolding bump
total-bump name [] = refl
total-bump name ((key, n) ∷ rest) = elim (Bool-cases (str_eq key name)) [
  | inl same ↦ rw same (omega arith)
  | inr other ↦ let later = total-bump name rest in rw other (omega arith)
]

abbrev pub AreDistinctIds : List ℕ → Type 0
AreDistinctIds [] = Unit
AreDistinctIds (x ∷ xs) = (holds_id x xs ≡ false) × AreDistinctIds xs

-- No provider has been given up twice, and there is one failure and one transition beyond `base` for
-- each that has been.
pub record IsDemoted (base : ℕ) (s : DenseState) : Type 0 where
  pub distinct : AreDistinctIds s.disabled_dense_providers
  pub failures : total s.dense_provider_failures ≡ length s.disabled_dense_providers
  pub transitions : s.backend_transitions ≡ base + length s.disabled_dense_providers

-- The providers that have been given up stay so.
abbrev pub Keeps : DenseState → DenseState → Type 0
Keeps s s' =
    (p : ℕ)
    → holds_id p s.disabled_dense_providers ≡ true
    → holds_id p s'.disabled_dense_providers ≡ true

module _ {R : Type 0} (base : ℕ) (original : Option (Attention R)) where
  abbrev pub FromOriginal : R → Type 0
  FromOriginal out = (o : Attention R) × (original ≡ some o) × (o.outcome ≡ Outcome.ok out)

  -- Where the result of a call comes from.
  abbrev pub Source : Option (Attention R) → DenseState → R → Type 0
  Source none s out = FromOriginal out
  Source (some leaf) s out =
      (leaf.outcome ≡ Outcome.ok out)
      ⊎ ((holds_id leaf.object s.disabled_dense_providers ≡ true) × FromOriginal out)

  pub record IsAnswered (leaf : Option (Attention R)) (s : DenseState) (r : Outcome R × DenseState)
      : Type 0 where
    pub valid : IsDemoted base r.1
    pub kept : Keeps s r.1
    pub source : (out : R) → r.0 ≡ Outcome.ok out → Source leaf r.1 out

  module _ (s s' : DenseState) (valid : IsDemoted base s') (keeps : Keeps s s') where
    returned_by-IsAnswered :
        (o : Attention R) (outcome : Outcome R)
        → original ≡ some o
        → o.outcome ≡ outcome
        → IsAnswered none s (returned_by o.name outcome s')
    returned_by-IsAnswered o (Outcome.ok out) e ran = record {
      valid = record {
        distinct = valid.distinct;
        failures = valid.failures;
        transitions = valid.transitions;
      };
      kept = keeps;
      source = λ got h. (o, e, ran ∙ h);
    }
    returned_by-IsAnswered o (Outcome.raise exn) e ran = record {
      valid = valid;
      kept = keeps;
      source = λ out h. cc;
    }

    original-IsAnswered :
        (o : Option (Attention R)) → original ≡ o → IsAnswered none s (run_original o s')
    original-IsAnswered none e = record { valid = valid; kept = keeps; source = λ out h. cc }
    original-IsAnswered (some o) e = returned_by-IsAnswered o o.outcome e refl

    -- The same for a leaf that has been given up.
    fallback-IsAnswered :
        (leaf : Attention R)
        → holds_id leaf.object s'.disabled_dense_providers ≡ true
        → IsAnswered (some leaf) s (run_original original s')
    fallback-IsAnswered leaf gone = given original refl
      where
        given :
            (o : Option (Attention R)) → original ≡ o → IsAnswered (some leaf) s (run_original o s')
        given none e = record { valid = valid; kept = keeps; source = λ out h. cc }
        given (some o) e = ran o.outcome refl
          where
            ran :
                (outcome : Outcome R)
                → o.outcome ≡ outcome
                → IsAnswered (some leaf) s (returned_by o.name outcome s')
            ran (Outcome.ok out) r = record {
              valid = record {
                distinct = valid.distinct;
                failures = valid.failures;
                transitions = valid.transitions;
              };
              kept = keeps;
              source = λ got h. inr (gone, (o, e, r ∙ h));
            }
            ran (Outcome.raise exn) r = record { valid = valid; kept = keeps; source = λ out h. cc }

  demote-IsDemoted :
      (s : DenseState) (leaf : ℕ) (name reason : String)
      → IsDemoted base s
      → holds_id leaf s.disabled_dense_providers ≡ false
      → IsDemoted base (demote leaf name reason s)
        × Keeps s (demote leaf name reason s)
        × (holds_id leaf (demote leaf name reason s).disabled_dense_providers ≡ true)
  unfolding demote
  demote-IsDemoted s leaf name reason valid new =
      let failed =
        total-bump (text_append name (text_append ":" reason)) s.dense_provider_failures in
      let before = valid.failures in
      let moved = valid.transitions in
      rw new (
        record {
          distinct = (new, valid.distinct);
          failures = omega arith;
          transitions = omega arith;
        },
        λ p h. or_intro_right (leaf == p) _ h,
        or_intro_left (leaf == leaf) _ (==-refl leaf),
      )

  -- A dense call keeps the counts in step: one failure and one numerical transition for each
  -- provider that has been given up, and none is given up twice or taken back. A result is the
  -- provider's own, or, once the provider has been given up or if there is none, the original's.
  pub dense_call-IsAnswered :
      (leaf : Option (Attention R)) (s : DenseState)
      → IsDemoted base s
      → IsAnswered leaf s (dense_call original leaf s)
  unfolding dense_call
  dense_call-IsAnswered none s valid = original-IsAnswered s s valid (λ p h. h) original refl
  dense_call-IsAnswered (some leaf) s valid =
      elim (Bool-cases (holds_id leaf.object s.disabled_dense_providers)) [
        | inl gone ↦ rw gone (fallback-IsAnswered s s valid (λ p h. h) leaf gone)
        | inr new ↦ rw new (tried new leaf.outcome refl)
      ]
    where
      caught :
          holds_id leaf.object s.disabled_dense_providers ≡ false
          → (exn : Exn) (o : Option String)
          → IsAnswered (some leaf) s (or_original original leaf exn o s)
      caught new exn none = record { valid = valid; kept = λ p h. h; source = λ out h. cc }
      caught new exn (some reason) =
          let (demoted, keeps, gone) = demote-IsDemoted s leaf.object leaf.name reason valid new in
          fallback-IsAnswered s (demote leaf.object leaf.name reason s) demoted keeps leaf gone

      tried :
          holds_id leaf.object s.disabled_dense_providers ≡ false
          → (outcome : Outcome R) → leaf.outcome ≡ outcome
          → IsAnswered (some leaf) s (try_provider original leaf outcome s)
      tried new (Outcome.ok out) ran = record {
        valid = record {
          distinct = valid.distinct;
          failures = valid.failures;
          transitions = valid.transitions;
        };
        kept = λ p h. h;
        source = λ got h. inl (ran ∙ h);
      }
      tried new (Outcome.raise exn) ran = caught new exn (provider_unavailable_reason exn)
