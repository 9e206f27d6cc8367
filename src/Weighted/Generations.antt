-- ===== src/Weighted/Generations.antt =====
-- The tokens of `_owner_identity` of sol_h3/weighted_measure.py over the life of a process.
use mathlib.Core.List.Memᴰ
use mathlib.Core.List.{Memᴰ}
use comfy_ui_sol_h.Base.{
  ℕ, Option, ◌==◌, String, ◌≢◌, ◌≡◌, false, List, [], true, if-false, ◌⊎◌, ◌<◌, some≢none, some,
  none, if-true, Bool-cases, sym, inl, arith, ◌↔◌, ==→eq, some-eq, inr, ap, ◌∷◌, ◌∙◌, subst,
  ==-refl, refl, ap₂, ◌&&◌, str_eq, and_true, ◌≤◌,
}
use comfy_ui_sol_h.Weighted.Owners.{
  set_at, Memory, empty_memory, owner_token, allocate, release, Retained, cleanup, Process,
  fresh_token, current_token, born, asked, died, cleaned, start, drop_retained,
}

module _ {A : Type 0} (address : ℕ) (x : Option A) (f : ℕ → Option A) where
  set_at-same : (b : ℕ) → (address == b) ≡ true → set_at address x f b ≡ x
  unfolding set_at
  set_at-same b h = if-true (address == b) _ _ h

  set_at-other : (b : ℕ) → (address == b) ≡ false → set_at address x f b ≡ f b
  unfolding set_at
  set_at-other b h = if-false (address == b) _ _ h

  set_at-cases :
      (b : ℕ) (y : Option A)
      → set_at address x f b ≡ y
      → ((address ≡ b) × (x ≡ y)) ⊎ (((address == b) ≡ false) × (f b ≡ y))
  set_at-cases b y h = elim (Bool-cases (address == b)) [
    | inl same ↦ inl (==→eq address b same, sym (set_at-same b same) ∙ h)
    | inr other ↦ inr (other, sym (set_at-other b other) ∙ h)
  ]

not_self : (a : ℕ) → (a == a) ≢ false
not_self a h = let same = ==-refl a in cc

le_self : {n : ℕ} → n ≤ n
le_self = omega arith

module _ (uuid : ℕ → String) where
  -- The first `n` draws are different from each other.
  abbrev pub AreDistinct : ℕ → Type 0
  AreDistinct n = (i j : ℕ) → i < n → j < n → uuid i ≡ uuid j → i ≡ j

  pub record IsKept (s : Memory) (answers : List (ℕ × String)) : Type 0 where
    pub known :
        (o : ℕ) (t : String)
        → Memᴰ (o, t) answers
        → (o < s.made) × ((i : ℕ) × (i < s.drawn) × (t ≡ uuid i))
    pub single : (o o' : ℕ) (t : String) → Memᴰ (o, t) answers → Memᴰ (o', t) answers → o ≡ o'
    pub held :
        (a o : ℕ) (t : String)
        → Memᴰ (o, t) answers
        → s.live a ≡ some o
        → s.owner_generations a ≡ some (record { referent = o; generation = t })
    pub answered :
        (a : ℕ) (r : Retained)
        → s.owner_generations a ≡ some r
        → Memᴰ (r.referent, r.generation) answers
    pub young : (a o : ℕ) → s.live a ≡ some o → o < s.made
    pub placed : (a a' o : ℕ) → s.live a ≡ some o → s.live a' ≡ some o → a ≡ a'

  empty-IsKept : IsKept empty_memory []
  empty-IsKept = record {
    known = λ o t m. elim m [ ];
    single = λ o o' t m m'. elim m [ ];
    held = λ a o t m l. elim m [ ];
    answered = λ a r e. absurd (some≢none (sym e));
    young = λ a o e. absurd (some≢none (sym e));
    placed = λ a a' o e e'. absurd (some≢none (sym e));
  }

  module _ {s : Memory} {answers : List (ℕ × String)} (h : IsKept s answers) where
    born-young :
        (address a o : ℕ)
        → set_at address (some s.made) s.live a ≡ some o
        → ((address ≡ a) × (s.made ≡ o)) ⊎ ((s.live a ≡ some o) × (o < s.made))
    born-young address a o e = elim (set_at-cases address (some s.made) s.live a (some o) e) [
      | inl same ↦ inl (same.0, some-eq s.made o same.1)
      | inr other ↦ inr (other.1, h.young a o other.1)
    ]

    allocate-IsKept : (address : ℕ) → IsKept (allocate address s) answers
    allocate-IsKept address = record {
      known = λ o t m. let k = h.known o t m in let lt = k.0 in (omega arith, k.1);
      single = h.single;
      held = λ a o t m l. elim (born-young address a o l) [
        | inl new ↦ let lt = (h.known o t m).0 in let e = new.1 in absurd (omega arith)
        | inr old ↦ h.held a o t m old.0
      ];
      answered = h.answered;
      young = λ a o l. elim (born-young address a o l) [
        | inl new ↦ let e = new.1 in omega arith
        | inr old ↦ let lt = old.1 in omega arith
      ];
      placed = λ a a' o l l'. elim (born-young address a o l) [
        | inl new ↦ elim (born-young address a' o l') [
          | inl new' ↦ sym new.0 ∙ new'.0
          | inr old' ↦ let lt = old'.1 in let e = new.1 in absurd (omega arith)
        ]
        | inr old ↦ elim (born-young address a' o l') [
          | inl new' ↦ let lt = old.1 in let e = new'.1 in absurd (omega arith)
          | inr old' ↦ h.placed a a' o old.0 old'.0
        ]
      ];
    }

    release-live : (address a o : ℕ) → set_at address none s.live a ≡ some o → s.live a ≡ some o
    release-live address a o e = elim (set_at-cases address none s.live a (some o) e) [
      | inl same ↦ absurd (some≢none (sym same.1))
      | inr other ↦ other.1
    ]

    release-IsKept : (address : ℕ) → IsKept (release address s) answers
    release-IsKept address = record {
      known = h.known;
      single = h.single;
      held = λ a o t m l. h.held a o t m (release-live address a o l);
      answered = h.answered;
      young = λ a o l. h.young a o (release-live address a o l);
      placed = λ a a' o l l'.
          h.placed a a' o (release-live address a o l) (release-live address a' o l');
    }

    -- An entry goes only if its object is dead.
    dropped-IsKept :
        (address : ℕ) (kept : Retained)
        → s.owner_generations address ≡ some kept
        → ((a : ℕ) → s.live a ≢ some kept.referent)
        → IsKept (record s { owner_generations = set_at address none s.owner_generations }) answers
    dropped-IsKept address kept e dead = record {
      known = h.known;
      single = h.single;
      held = λ a o t m l.
          let own = h.held a o t m l in
          elim (Bool-cases (address == a)) [
            | inl same ↦
                let at = ap s.owner_generations (==→eq address a same) in
                let referent = ap (λ r. r.referent) (some-eq kept _ (sym e ∙ (at ∙ own))) in
                absurd (dead a (l ∙ ap some (sym referent)))
            | inr other ↦ set_at-other address none s.owner_generations a other ∙ own
          ];
      answered = λ a r e'. elim (set_at-cases address none s.owner_generations a (some r) e') [
        | inl same ↦ absurd (some≢none (sym same.1))
        | inr other ↦ h.answered a r other.1
      ];
      young = h.young;
      placed = h.placed;
    }

    cleanup-IsKept :
        (address : ℕ) (r : Retained)
        → ((a : ℕ) → s.live a ≢ some r.referent)
        → IsKept (cleanup address r s) answers
    unfolding cleanup
    cleanup-IsKept address r dead = retained (s.owner_generations address) refl
      where
        retained :
            (o : Option Retained)
            → s.owner_generations address ≡ o
            → IsKept (drop_retained address r o s) answers
        retained none e = h
        retained (some kept) e =
            elim (Bool-cases (kept.referent == r.referent && str_eq kept.generation r.generation)) [
              | inl same ↦
                  let referent =
                    ==→eq kept.referent r.referent
                      (and_true (kept.referent == r.referent) _ same).0 in
                  rw same (dropped-IsKept address kept e (λ a l. dead a (l ∙ ap some referent)))
              | inr other ↦ rw other h
            ]

    module _ (n : ℕ) (distinct : AreDistinct n) (address object : ℕ)
        (alive : s.live address ≡ some object) where
      module _ (unasked : (t : String) → Memᴰ (object, t) answers → ⊥) where
        undrawn : s.drawn < n → (o : ℕ) → Memᴰ (o, uuid s.drawn) answers → ⊥
        undrawn bound o m =
            let (i, lt, e) = (h.known o (uuid s.drawn) m).1 in
            let same = distinct s.drawn i bound (omega arith) e in omega arith

        fresh-IsKept :
            s.drawn < n
            → IsKept (fresh_token uuid address object s).1 ((object, uuid s.drawn) ∷ answers)
        fresh-IsKept bound = record {
          known = λ o t m. elim (Memᴰ.cases_cons m) [
            | inl e ↦
                let lt = h.young address object alive in
                let same = ap (λ p. p.0) e in (omega arith, (s.drawn, omega arith, ap (λ p. p.1) e))
            | inr later ↦
                let (lt, drawn) = h.known o t later in
                let (i, below, e) = drawn in (lt, (i, omega arith, e))
          ];
          single = λ o o' t m m'. elim (Memᴰ.cases_cons m) [
            | inl e ↦ elim (Memᴰ.cases_cons m') [
              | inl e' ↦ ap (λ p. p.0) e ∙ sym (ap (λ p. p.0) e')
              | inr later' ↦
                  absurd
                    (undrawn bound o' (subst (λ z. Memᴰ (o', z) answers) (ap (λ p. p.1) e) later'))
            ]
            | inr later ↦ elim (Memᴰ.cases_cons m') [
              | inl e' ↦
                  absurd
                    (undrawn bound o (subst (λ z. Memᴰ (o, z) answers) (ap (λ p. p.1) e') later))
              | inr later' ↦ h.single o o' t later later'
            ]
          ];
          held = λ a o t m l. elim (Memᴰ.cases_cons m) [
            | inl e ↦
                let here = h.placed address a object alive (l ∙ ap some (ap (λ p. p.0) e)) in
                set_at-same address _ s.owner_generations a
                  (subst (λ z. (address == z) ≡ true) here (==-refl address))
                ∙ ap some (
                    ap₂ (λ y z. record { referent = y; generation = z }) (sym (ap (λ p. p.0) e))
                      (sym (ap (λ p. p.1) e)))
            | inr later ↦ elim (Bool-cases (address == a)) [
              | inl same ↦
                  let own =
                    some-eq o object (sym l ∙ (ap s.live (sym (==→eq address a same)) ∙ alive)) in
                  absurd (unasked t (subst (λ z. Memᴰ (z, t) answers) own later))
              | inr other ↦
                  set_at-other address _ s.owner_generations a other ∙ h.held a o t later l
            ]
          ];
          answered = λ a r e. elim (set_at-cases address _ s.owner_generations a (some r) e) [
            | inl same ↦ Memᴰ.head (ap (λ z. (z.referent, z.generation)) (sym (some-eq _ r same.1)))
            | inr other ↦ Memᴰ.tail (h.answered a r other.1)
          ];
          young = h.young;
          placed = h.placed;
        }

      current-IsKept :
          (o : Option Retained)
          → s.owner_generations address ≡ o
          → (current_token uuid address object o s).1.drawn ≤ n
          → IsKept
              (current_token uuid address object o s).1
              ((object, (current_token uuid address object o s).0) ∷ answers)
      current-IsKept none e = λ bound.
          fresh-IsKept (λ t m. some≢none (sym (h.held address object t m alive) ∙ e)) (omega arith)
      current-IsKept (some current) e = elim (Bool-cases (current.referent == object)) [
        | inl same ↦
            let own = ==→eq current.referent object same in
            rw same (λ bound. again (
              subst (λ z. Memᴰ (z, current.generation) answers) own (h.answered address current e)))
        | inr other ↦ rw other (λ bound.
            fresh-IsKept
              (λ t m.
                let mine = some-eq current _ (sym e ∙ h.held address object t m alive) in
                not_self object
                  (subst (λ z. (z == object) ≡ false) (ap (λ r. r.referent) mine) other))
              (omega arith))
      ]
        where
          again :
              Memᴰ (object, current.generation) answers
              → IsKept s ((object, current.generation) ∷ answers)
          again mem = record {
            known = λ o t m. h.known o t (old o t m);
            single = λ o o' t m m'. h.single o o' t (old o t m) (old o' t m');
            held = λ a o t m l. h.held a o t (old o t m) l;
            answered = λ a r e'. Memᴰ.tail (h.answered a r e');
            young = h.young;
            placed = h.placed;
          }
            where
              old :
                  (o : ℕ) (t : String)
                  → Memᴰ (o, t) ((object, current.generation) ∷ answers)
                  → Memᴰ (o, t) answers
              old o t m = elim (Memᴰ.cases_cons m) [ inl e' ↦ Memᴰ.cast e' mem | inr later ↦ later ]

  drawn-kept :
      (address : ℕ) (r : Retained) (o : Option Retained) (s : Memory)
      → (drop_retained address r o s).drawn ≡ s.drawn
  drawn-kept address r none s = refl
  drawn-kept address r (some kept) s =
      elim (Bool-cases (kept.referent == r.referent && str_eq kept.generation r.generation)) [
        | inl same ↦ rw same refl
        | inr other ↦ rw other refl
      ]

  drawn-grows :
      (address object : ℕ) (o : Option Retained) (s : Memory)
      → s.drawn ≤ (current_token uuid address object o s).1.drawn
  drawn-grows address object none s = omega arith
  drawn-grows address object (some current) s = elim (Bool-cases (current.referent == object)) [
    | inl same ↦ rw same (omega arith)
    | inr other ↦ rw other (omega arith)
  ]

  process-IsKept :
      {s : Memory} {answers : List (ℕ × String)} (n : ℕ)
      → AreDistinct n
      → Process uuid s answers
      → s.drawn ≤ n
      → IsKept s answers
  unfolding owner_token cleanup
  process-IsKept n distinct start bound = empty-IsKept
  process-IsKept n distinct (born address free run) bound =
      allocate-IsKept (process-IsKept n distinct run bound) address
  process-IsKept n distinct (asked {s = s} address object alive run) bound =
      let grows = drawn-grows address object (s.owner_generations address) s in
      current-IsKept (process-IsKept n distinct run (omega arith)) n distinct address object alive
        (s.owner_generations address) refl bound
  process-IsKept n distinct (died address run) bound =
      release-IsKept (process-IsKept n distinct run bound) address
  process-IsKept n distinct (cleaned {s = s} address r dead run) bound =
      let kept = drawn-kept address r (s.owner_generations address) s in
      cleanup-IsKept (process-IsKept n distinct run (omega arith)) address r dead

  -- In a process whose draws of `uuid4` have all been different, the token of a living object is one
  -- that was answered before exactly if it was answered for this object: an object that lives keeps
  -- its token, and no other object gets it, also if it has the address of one that died.
  pub owner_token_unique :
      (s : Memory) (answers : List (ℕ × String)) (address object : ℕ)
      → AreDistinct (owner_token uuid address object s).1.drawn
      → Process uuid s answers
      → s.live address ≡ some object
      → (o : ℕ) (t : String) → Memᴰ (o, t) answers
      → (t ≡ (owner_token uuid address object s).0) ↔ (o ≡ object)
  unfolding owner_token
  owner_token_unique s answers address object distinct run alive o t m =
      let n = (owner_token uuid address object s).1.drawn in
      let grows = drawn-grows address object (s.owner_generations address) s in
      let kept = process-IsKept n distinct (asked address object alive run) le_self in
      let old = process-IsKept n distinct run grows in
      (
        λ same. kept.single o object t (Memᴰ.tail m) (
            subst
              (λ z.
                Memᴰ {A = ℕ × String} (object, z)
                  ((object, (owner_token uuid address object s).0) ∷ answers))
              (sym same) (Memᴰ.head refl)),
        λ same.
            let mine = old.held address object t (subst (λ z. Memᴰ (z, t) answers) same m) alive in
            rw mine (rw (==-refl object) refl),
      )
