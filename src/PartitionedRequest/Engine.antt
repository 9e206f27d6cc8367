-- ===== src/PartitionedRequest/Engine.antt =====
-- What a request keeps for its attention calls apart from receipts and call counts, the actions on
-- it, and the kernels that are called. The state comes back after an exception too.
use comfy_ui_sol_h.Base.{String, ⊤, Bool, ℕ, List, ◌≢◌, ◌≡◌, ap, refl}
use comfy_ui_sol_h.Caches.Bias.{BiasState}
use comfy_ui_sol_h.Caches.DeviceDescriptor.{Descriptors}
use comfy_ui_sol_h.Py.Outcome.{Outcome, Exn, assert}
use comfy_ui_sol_h.Py.{Value}

-- The record of one arithmetic gate that has passed.
pub record Gate : Type 0 where
  pub route : String
  pub kind : String
  pub mapped_neighbor_abi : Bool
  pub key_measure_bias : Bool

pub record Engine : Type 0 where
  pub bias : BiasState
  pub descriptors : Descriptors
  pub source_verified : Bool
  pub source_verification_calls : ℕ
  pub compiled : List Value
  pub compile_calls : ℕ
  pub compile_cache_hits : ℕ
  pub core_dense_calls : ℕ
  pub torch_dense_calls : ℕ
  pub weighted_dense_verified : List Value
  pub weighted_dense_calls : ℕ
  pub weighted_dense_q_rows : ℕ
  pub sparse_verified : List Value
  pub gates : List Gate

-- An action on a state of type `S`.
abbrev pub Stateful : Type 0 → Type 0 → Type 0
Stateful S A = S → Outcome A × S

abbrev pub Action : Type 0 → Type 0
Action A = Stateful Engine A

module _ {S A : Type 0} where
  abbrev pub pure : A → Stateful S A
  pure a s = (Outcome.ok a, s)

  -- A result that reads no state and changes none.
  abbrev pub lift : Outcome A → Stateful S A
  lift outcome s = (outcome, s)

  abbrev pub gets : (S → A) → Stateful S A
  gets read s = (Outcome.ok (read s), s)

abbrev pub after_outcome : {S A B : Type 0} → Outcome A → S → (A → Stateful S B) → Outcome B × S
after_outcome (Outcome.ok a) s next = next a s
after_outcome (Outcome.raise exn) s next = (Outcome.raise exn, s)

infixl 5 ◌>>=◌ ◌>>◌
abbrev pub ◌>>=◌ : {S A B : Type 0} → Stateful S A → (A → Stateful S B) → Stateful S B
◌>>=◌ first next s = after_outcome (first s).0 (first s).1 next

abbrev pub ◌>>◌ : {S A B : Type 0} → Stateful S A → Stateful S B → Stateful S B
first >> next = first >>= λ _. next

abbrev pub modify : {S : Type 0} → (S → S) → Stateful S ⊤
modify change s = (Outcome.ok tt, change s)

abbrev pub demand : {S : Type 0} → Bool → Exn → Stateful S ⊤
demand test exn = lift (assert test exn)

raise≢ok : {B : Type 0} (exn : Exn) (b : B) → Outcome.raise exn ≢ Outcome.ok b
raise≢ok exn b h = cc

after_outcome-eq-ok :
    {S A B : Type 0} (o : Outcome A) (t : S) (next : A → Stateful S B) (b : B) (s' : S)
    → after_outcome o t next ≡ (Outcome.ok b, s')
    → (a : A) × (o ≡ Outcome.ok a) × (next a t ≡ (Outcome.ok b, s'))
after_outcome-eq-ok (Outcome.ok a) t next b s' h = (a, refl, h)
after_outcome-eq-ok (Outcome.raise exn) t next b s' h = absurd (raise≢ok exn b (ap (λ p. p.0) h))

-- The first action of a sequence that returns has returned.
pub >>=-eq-ok :
    {S A B : Type 0} (first : Stateful S A) (next : A → Stateful S B) (s : S) (b : B) (s' : S)
    → (first >>= next) s ≡ (Outcome.ok b, s')
    → (a : A) × ((first s).0 ≡ Outcome.ok a) × (next a (first s).1 ≡ (Outcome.ok b, s'))
>>=-eq-ok first next s b s' h = after_outcome-eq-ok (first s).0 (first s).1 next b s' h

-- What holds of a sequence whether or not its first action returns.
pub after_outcome-cases :
    {S A B : Type 0} (Q : Outcome B × S → Type 0) (o : Outcome A) (t : S) (next : A → Stateful S B)
    → ((exn : Exn) → Q (Outcome.raise exn, t))
    → ((a : A) → o ≡ Outcome.ok a → Q (next a t))
    → Q (after_outcome o t next)
after_outcome-cases Q (Outcome.ok a) t next raised returned = returned a refl
after_outcome-cases Q (Outcome.raise exn) t next raised returned = raised exn
