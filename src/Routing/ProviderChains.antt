-- ===== src/Routing/ProviderChains.antt =====
-- The walk over a chain of preprocessors ends, and where.
use comfy_ui_sol_h.Py.Outcome.{Outcome, ◌>>=◌}
use comfy_ui_sol_h.Base.{
  ℕ, List, length, ◌<◌, Option, ◌∷◌, [], ◌≡◌, All, true, suc, some, false, ◌==◌, Bool-cases, ◌⊎◌,
  zero, ap, arith, inl, refl, ◌≢◌, Bool, inr, ==-refl, subst, sym, none, or_intro_right, ==→eq, ◌∙◌,
  or_intro_left, some≢none, some-eq,
}
use comfy_ui_sol_h.Routing.Providers.{
  here, onward, holds_id, walk, Leads, walk_inner, walk_new, visit_all, preprocess_chain,
  provider_leaf, Operands, transformed,
}
use Prim.Native.Nat.{zero}
use mathlib.Core.Option.{none}
use comfy_ui_sol_h.Routing.ProviderIds.{
  length-without_id, length-below_ids, without_id, below_ids, kept-without_id, holds_id-below_ids,
}

module _ {T S : Type 0} (inner : ℕ → Option (T × ℕ)) (visit : T → S → Outcome S) where
  abbrev Ends : Option (Outcome (S × ℕ)) → Type 0
  Ends r = (o : Outcome (S × ℕ)) × (r ≡ some o)

  walk_inner-Ends :
      (again : ℕ → S → Option (Outcome (S × ℕ))) (seen : List ℕ) (provider : ℕ) (o : Option (T × ℕ))
      (s : S)
      → ((t : T) (next : ℕ) (s' : S)
          → o ≡ some (t, next)
          → holds_id provider seen ≡ false
          → Ends (again next s'))
      → Ends (walk_inner inner visit again seen provider o s)
  walk_inner-Ends again seen provider none s h = (_, refl)
  walk_inner-Ends again seen provider (some (t, next)) s h =
      new (holds_id provider seen) refl (visit t s)
    where
      new :
          (b : Bool)
          → holds_id provider seen ≡ b
          → (v : Outcome S) → Ends (walk_new inner visit again next b v)
      new true e v = (_, refl)
      new false e (Outcome.raise exn) = (_, refl)
      new false e (Outcome.ok s') = h t next s' refl e

  -- `unseen` has every provider with an inner one that has not been seen.
  walk-Ends :
      (fuel : ℕ) (seen unseen : List ℕ) (provider : ℕ) (s : S)
      → ((p : ℕ) (t : T) (q : ℕ)
          → inner p ≡ some (t, q)
          → (holds_id p seen ≡ true) ⊎ (holds_id p unseen ≡ true))
      → length unseen < fuel
      → Ends (walk inner visit fuel seen provider s)
  unfolding walk
  walk-Ends zero seen unseen provider s known h = absurd (omega arith)
  walk-Ends (suc fuel) seen unseen provider s known h =
      walk_inner-Ends (walk inner visit fuel (provider ∷ seen)) seen provider (inner provider) s
        (λ t next s' e new. elim (known provider t next e) [
          | inl old ↦ absurd (true_or_false (holds_id provider seen) old new)
          | inr left ↦
              let shorter = length-without_id provider unseen left in
              walk-Ends fuel (provider ∷ seen) (without_id provider unseen) next s'
                (λ p t' q e'. elim (known p t' q e') [
                  | inl old ↦ inl (or_intro_right (provider == p) _ old)
                  | inr later ↦ elim (kept-without_id provider p unseen later) [
                    | inl same ↦ inl (
                        or_intro_left (provider == p) _
                          (subst (λ z. (provider == z) ≡ true) same (==-refl provider)))
                    | inr kept ↦ inr kept
                  ]
                ])
                (omega arith)
        ])
    where
      true_or_false : (b : Bool) → b ≡ true → b ≢ false
      true_or_false b h k = cc

module _ {T : Type 0} (inner : ℕ → Option (T × ℕ)) (leaf : ℕ) where
  -- The way to a leaf has one length.
  Leads-length :
      {provider : ℕ} {ts us : List T}
      → Leads inner leaf provider ts
      → Leads inner leaf provider us
      → length ts ≡ length us
  Leads-length (here e a) (here e' a') = refl
  Leads-length (here e a) (onward e' l') = absurd (some≢none (sym e' ∙ e))
  Leads-length (onward e l) (here e' a') = absurd (some≢none (sym e ∙ e'))
  Leads-length (onward {transforms = ts} e l) (onward {transforms = us} e' l') =
      let same = ap (λ p. p.1) (some-eq _ _ (sym e ∙ e')) in
      ap suc (Leads-length l (subst (λ z. Leads inner leaf z us) (sym same) l'))

  -- Farther from the leaf than `d` transforms.
  abbrev Farther : ℕ → ℕ → Type 0
  Farther d x = (us : List T) × Leads inner leaf x us × (d < length us)

  Farther-unseen :
      (provider : ℕ) (ts : List T) (seen : List ℕ)
      → Leads inner leaf provider ts
      → All (Farther (length ts)) seen
      → holds_id provider seen ≡ false
  Farther-unseen provider ts [] l h = refl
  Farther-unseen provider ts (x ∷ xs) l ((us, way, longer), later) =
      elim (Bool-cases (x == provider)) [
        | inl same ↦
            let level =
              Leads-length l (subst (λ z. Leads inner leaf z us) (==→eq x provider same) way) in
            absurd (omega arith)
        | inr other ↦ rw other (Farther-unseen provider ts xs l later)
      ]

  Farther-less : (d : ℕ) (seen : List ℕ) → All (Farther (suc d)) seen → All (Farther d) seen
  Farther-less d [] h = tt
  Farther-less d (x ∷ xs) ((us, way, longer), later) =
      ((us, way, omega arith), Farther-less d xs later)

  module _ {S : Type 0} (visit : T → S → Outcome S) where
    abbrev Visited : List T → S → Outcome (S × ℕ) → Type 0
    Visited ts s o = o ≡ (visit_all visit ts s >>= λ z. Outcome.ok (z, leaf))

    walk-visits :
        (fuel : ℕ) (seen : List ℕ) (provider : ℕ) (s : S) (ts : List T) (o : Outcome (S × ℕ))
        → Leads inner leaf provider ts
        → All (Farther (length ts)) seen
        → walk inner visit fuel seen provider s ≡ some o
        → Visited ts s o
    unfolding walk visit_all
    walk-visits zero seen provider s ts o l far h = absurd (some≢none (sym h))
    walk-visits (suc fuel) seen provider s [] o (here e at) far h =
        some-eq o (Outcome.ok (s, leaf)) (
          sym h
          ∙ (ap
                (λ z.
                  walk_inner inner visit (walk inner visit fuel (provider ∷ seen)) seen provider z
                    s)
                e
              ∙ ap (λ z. some (Outcome.ok (s, z))) at))
    walk-visits (suc fuel) seen provider s (t ∷ ts) o (onward {next = next} e l) far h =
        new (visit t s)
          (λ s' g.
            walk-visits fuel (provider ∷ seen) next s' ts o l
              ((t ∷ ts, onward e l, omega arith), Farther-less (length ts) seen far) g)
          (sym (
              ap
                (λ z.
                  walk_inner inner visit (walk inner visit fuel (provider ∷ seen)) seen provider z
                    s)
                e
              ∙ ap
                  (λ b.
                    walk_new inner visit (walk inner visit fuel (provider ∷ seen)) next b
                      (visit t s))
                  (Farther-unseen provider (t ∷ ts) seen (onward e l) far))
            ∙ h)
      where
        new :
            (v : Outcome S)
            → ((s' : S)
                → walk inner visit fuel (provider ∷ seen) next s' ≡ some o
                → Visited ts s' o)
            → walk_new inner visit (walk inner visit fuel (provider ∷ seen)) next false v ≡ some o
            → o ≡ ((v >>= visit_all visit ts) >>= λ z. Outcome.ok (z, leaf))
        new (Outcome.raise exn) again g = some-eq o (Outcome.raise exn) (sym g)
        new (Outcome.ok s') again g = again s' g

walk-Leads :
    {T S : Type 0} (inner : ℕ → Option (T × ℕ)) (visit : T → S → Outcome S) (n provider : ℕ) (s : S)
    → ((p : ℕ) (t : T) (q : ℕ) → inner p ≡ some (t, q) → p < n)
    → (o : Outcome (S × ℕ)) × (walk inner visit (suc n) [] provider s ≡ some o)
      × ((leaf : ℕ) (ts : List T)
          → Leads inner leaf provider ts
          → o ≡ (visit_all visit ts s >>= λ z. Outcome.ok (z, leaf)))
walk-Leads inner visit n provider s bounded =
    let size = length-below_ids n in
    let (o, ended) =
      walk-Ends inner visit (suc n) [] (below_ids n) provider s
        (λ p t q e. inr (holds_id-below_ids n p (bounded p t q e))) (omega arith) in
    (o, ended, λ leaf ts l. walk-visits inner leaf visit (suc n) [] provider s ts o l tt ended)

-- Over at most `n` providers that have an inner one, the loop of `_preprocess_chain` ends within
-- `n + 1` rounds. If the chain leads to a leaf, it applies the transforms of the chain in order, each
-- with its checks, and gives the leaf, or raises what the first of them raises; it finds no cycle.
pub preprocess_chain-Leads :
    {C : Type 0} (inner : ℕ → Option ((Operands C → Outcome (Operands C)) × ℕ)) (n provider : ℕ)
    (x : Operands C)
    → ((p : ℕ) (t : Operands C → Outcome (Operands C)) (q : ℕ) → inner p ≡ some (t, q) → p < n)
    → (o : Outcome (Operands C × ℕ)) × (preprocess_chain inner n provider x ≡ some o)
      × ((leaf : ℕ) (ts : List (Operands C → Outcome (Operands C)))
          → Leads inner leaf provider ts
          → o ≡ (visit_all transformed ts x >>= λ z. Outcome.ok (z, leaf)))
unfolding preprocess_chain
preprocess_chain-Leads inner n provider x bounded =
    walk-Leads inner transformed n provider x bounded

-- Over at most `n` providers that have an inner one, `_provider_leaf` gives the leaf to which the
-- chain leads.
pub provider_leaf-Leads :
    {T : Type 0} (inner : ℕ → Option (T × ℕ)) (n provider leaf : ℕ) (ts : List T)
    → ((p : ℕ) (t : T) (q : ℕ) → inner p ≡ some (t, q) → p < n)
    → Leads inner leaf provider ts
    → provider_leaf inner n provider ≡ some (Outcome.ok (tt, leaf))
unfolding provider_leaf visit_all
provider_leaf-Leads {T = T} inner n provider leaf ts bounded leads =
    let (o, ended, given) = walk-Leads inner (λ t s. Outcome.ok s) n provider tt bounded in
    ended ∙ ap some (given leaf ts leads ∙ ap (λ z. z >>= λ u. Outcome.ok (u, leaf)) (idle ts))
  where
    idle : (us : List T) → visit_all (λ t s. Outcome.ok s) us tt ≡ Outcome.ok tt
    idle [] = refl
    idle (u ∷ us) = idle us
