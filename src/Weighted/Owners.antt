-- ===== src/Weighted/Owners.antt =====
-- The generation tokens of stateful providers, `_owner_identity` of sol_h3/weighted_measure.py, over
-- objects that die and whose addresses are used again. Each object has a number of its own; `id` is
-- its address. A weak reference is known by the object and the token that it was made with.
use comfy_ui_sol_h.Py.Outcome.{Outcome, runtime_error}
use comfy_ui_sol_h.Base.{
  ℕ, none, Bool, String, Option, some, if◌then◌else◌, List, ◌==◌, ◌+◌, [], ◌&&◌, true, ◌≡◌, str_eq,
  ◌∷◌, ◌≢◌,
}
use comfy_ui_sol_h.Py.{Value, tuple, values, str}
use mathlib.Core.Bool.{true, false}

-- An entry of `_OWNER_GENERATIONS`.
pub record Retained : Type 0 where
  pub referent : ℕ
  pub generation : String

-- The objects that are alive, by address, the table, and how many objects and tokens there have been.
pub record Memory : Type 0 where
  pub live : ℕ → Option ℕ
  pub owner_generations : ℕ → Option Retained
  pub made : ℕ
  pub drawn : ℕ

unfoldable pub set_at : {A : Type 0} → ℕ → Option A → (ℕ → Option A) → ℕ → Option A
set_at address x f b = if address == b then x else f b

abbrev pub empty_memory : Memory
empty_memory = record { live = λ a. none; owner_generations = λ a. none; made = 0; drawn = 0 }

-- A new object at a free address.
abbrev pub allocate : ℕ → Memory → Memory
allocate address s = record s { live = set_at address (some s.made) s.live; made = s.made + 1 }

-- The object at an address dies.
abbrev pub release : ℕ → Memory → Memory
release address s = record s { live = set_at address none s.live }

abbrev pub drop_if : Bool → ℕ → Memory → Memory
drop_if same address s =
    if same then record s { owner_generations = set_at address none s.owner_generations } else s

abbrev pub drop_retained : ℕ → Retained → Option Retained → Memory → Memory
drop_retained address r none s = s
drop_retained address r (some kept) s =
    drop_if (kept.referent == r.referent && str_eq kept.generation r.generation) address s

-- The callback of a weak reference whose object has died.
unfoldable pub cleanup : ℕ → Retained → Memory → Memory
unfolding set_at
cleanup address r s = drop_retained address r (s.owner_generations address) s

-- `uuid4().hex`, drawn one after another.
module _ (uuid : ℕ → String) where
  abbrev pub fresh_token : (address object : ℕ) → Memory → String × Memory
  fresh_token address object s = (
    uuid s.drawn,
    record s {
      owner_generations =
          set_at address (some (record { referent = object; generation = uuid s.drawn }))
            s.owner_generations;
      drawn = s.drawn + 1;
    },
  )

  abbrev pub current_token : (address object : ℕ) → Option Retained → Memory → String × Memory
  current_token address object none s = fresh_token address object s
  current_token address object (some current) s =
      if current.referent == object then (current.generation, s) else fresh_token address object s

  -- The token of the object that is alive at an address.
  unfoldable pub owner_token : (address object : ℕ) → Memory → String × Memory
  unfolding set_at
  owner_token address object s = current_token address object (s.owner_generations address) s

-- What `_owner_identity` reads of a provider: its name, the identity of a stateless function, and
-- whether it can be referenced weakly.
pub record Provider : Type 0 where
  pub address : ℕ
  pub object : ℕ
  pub name : String
  pub stateless : Option Value
  pub is_weak : Bool

abbrev generation_of : Provider → String → Value
generation_of p token = tuple (values (str "owner_generation_v1" ∷ str p.name ∷ str token ∷ []))

abbrev stateful_identity : (uuid : ℕ → String) → Provider → Bool → Memory → Outcome Value × Memory
stateful_identity uuid p true s = (
  Outcome.ok (generation_of p (owner_token uuid p.address p.object s).0),
  (owner_token uuid p.address p.object s).1,
)
stateful_identity uuid p false s = (
  Outcome.raise (
      runtime_error
        "stateful attention preprocessing/provider owners must support weak references"),
  s,
)

abbrev identity_of_owner :
    (uuid : ℕ → String) → Provider → Option Value → Memory → Outcome Value × Memory
identity_of_owner uuid p (some identity) s = (Outcome.ok identity, s)
identity_of_owner uuid p none s = stateful_identity uuid p p.is_weak s

-- `_owner_identity`
unfoldable pub owner_identity :
    (uuid : ℕ → String) → Option Provider → Memory → Outcome Value × Memory
unfolding owner_token
owner_identity uuid none s =
    (Outcome.ok (tuple (values (str "singleton_v1" ∷ str "comfy.default" ∷ []))), s)
owner_identity uuid (some p) s = identity_of_owner uuid p p.stateless s

-- What a process can do, and the answers that it has got: an object and its token.
pub data Process (uuid : ℕ → String) : Memory → List (ℕ × String) → Type 0 where
  start : Process uuid empty_memory []
  born :
      {s : Memory} {answers : List (ℕ × String)} (address : ℕ)
      → s.live address ≡ none
      → Process uuid s answers
      → Process uuid (allocate address s) answers
  asked :
      {s : Memory} {answers : List (ℕ × String)} (address object : ℕ)
      → s.live address ≡ some object
      → Process uuid s answers
      → Process uuid
          (owner_token uuid address object s).1
          ((object, (owner_token uuid address object s).0) ∷ answers)
  died :
      {s : Memory} {answers : List (ℕ × String)} (address : ℕ)
      → Process uuid s answers
      → Process uuid (release address s) answers
  cleaned :
      {s : Memory} {answers : List (ℕ × String)} (address : ℕ) (r : Retained)
      → ((a : ℕ) → s.live a ≢ some r.referent)
      → Process uuid s answers
      → Process uuid (cleanup address r s) answers
