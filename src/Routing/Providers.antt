-- ===== src/Routing/Providers.antt =====
-- The chain of attention preprocessors of sol_h3/runtime.py: `_provider_leaf` and
-- `_preprocess_chain`, whose loops are one walk with different visits. Providers are numbers, as `id`
-- tells them apart, and `inner` is the pair in `attention_preprocess_v1` of a provider that has one.
use comfy_ui_sol_h.Py.Outcome.{Outcome, ◌>>=◌, runtime_error, ◌>>◌, assert}
use comfy_ui_sol_h.Base.{
  ℕ, List, Option, Bool, false, ◌∷◌, ◌==◌, ◌||◌, [], some, none, ◌≡◌, ⊤, suc, true, zero, String,
  str_eq, ◌&&◌,
}
use mathlib.Core.List.{[]}
use mathlib.Core.Bool.{true}
use Prim.Native.Nat.{zero}
use comfy_ui_sol_h.Routing.Shapes.{same_shape}

abbrev pub holds_id : ℕ → List ℕ → Bool
holds_id p [] = false
holds_id p (x ∷ xs) = x == p || holds_id p xs

module _ {T S : Type 0} (inner : ℕ → Option (T × ℕ)) (visit : T → S → Outcome S) where
  abbrev Walk : Type 0
  Walk = ℕ → S → Option (Outcome (S × ℕ))

  abbrev pub walk_new : (again : Walk) → (next : ℕ) → Bool → Outcome S → Option (Outcome (S × ℕ))
  walk_new again next true visited =
      some (Outcome.raise (runtime_error "Cyclic attention preprocessing contract"))
  walk_new again next false (Outcome.raise exn) = some (Outcome.raise exn)
  walk_new again next false (Outcome.ok s) = again next s

  abbrev pub walk_inner :
      (again : Walk)
      → (seen : List ℕ) (provider : ℕ) → Option (T × ℕ)
      → S
      → Option (Outcome (S × ℕ))
  walk_inner again seen provider none s = some (Outcome.ok (s, provider))
  walk_inner again seen provider (some (transform, next)) s =
      walk_new again next (holds_id provider seen) (visit transform s)

  -- `while hasattr(provider, "attention_preprocess_v1")`; `none` is a walk that has run out of fuel.
  unfoldable pub walk : (fuel : ℕ) (seen : List ℕ) → Walk
  walk zero seen provider s = none
  walk (suc fuel) seen provider s =
      walk_inner (walk fuel (provider ∷ seen)) seen provider (inner provider) s

-- What a walk from a provider passes: `d` transforms up to the leaf.
pub data Leads {T : Type 0} (inner : ℕ → Option (T × ℕ)) (leaf : ℕ) : ℕ → List T → Type 0 where
  here : {provider : ℕ} → inner provider ≡ none → provider ≡ leaf → Leads inner leaf provider []
  onward :
      {provider next : ℕ} {transform : T} {transforms : List T}
      → inner provider ≡ some (transform, next)
      → Leads inner leaf next transforms
      → Leads inner leaf provider (transform ∷ transforms)

-- The visits of a chain, one after another.
unfoldable pub visit_all : {T S : Type 0} → (T → S → Outcome S) → List T → S → Outcome S
visit_all visit [] s = Outcome.ok s
visit_all visit (t ∷ ts) s = visit t s >>= visit_all visit ts

-- `_provider_leaf`, over at most `providers` providers.
unfoldable pub provider_leaf :
    {T : Type 0} (inner : ℕ → Option (T × ℕ)) (providers provider : ℕ) → Option (Outcome (⊤ × ℕ))
unfolding walk
provider_leaf inner providers provider =
    walk inner (λ t s. Outcome.ok s) (suc providers) [] provider tt

-- What the chain compares of a tensor, the element type and the device by their texts.
pub record Operand (C : Type 0) : Type 0 where
  pub shape : List ℕ
  pub dtype : String
  pub device : String
  pub contents : C

pub record Operands (C : Type 0) : Type 0 where
  pub q : Operand C
  pub k : Operand C
  pub v : Operand C

module _ {C : Type 0} where
  abbrev same_shapes : Operands C → Operands C → Bool
  same_shapes a b =
      same_shape a.q.shape b.q.shape
      && same_shape a.k.shape b.k.shape
      && same_shape a.v.shape b.v.shape

  abbrev same_kind : Operand C → Operand C → Bool
  same_kind a b = str_eq a.dtype b.dtype && str_eq a.device b.device

  abbrev same_kinds : Operands C → Operands C → Bool
  same_kinds a b = same_kind a.q b.q && same_kind a.k b.k && same_kind a.v b.v

  -- A transform with the heads and the keyword arguments of the call.
  unfoldable pub transformed :
      (Operands C → Outcome (Operands C)) → Operands C → Outcome (Operands C)
  transformed transform x = do
    y ← transform x
    assert (same_shapes y x)
        (runtime_error "Attention preprocessing changed its promised QKV topology")
    assert (same_kinds y x)
        (runtime_error "Attention preprocessing changed its promised QKV dtype/device")
    Outcome.ok y

  -- `_preprocess_chain`, over at most `providers` providers.
  unfoldable pub preprocess_chain :
      (inner : ℕ → Option ((Operands C → Outcome (Operands C)) × ℕ)) (providers provider : ℕ)
      → Operands C
      → Option (Outcome (Operands C × ℕ))
  unfolding walk transformed
  preprocess_chain inner providers provider x = walk inner transformed (suc providers) [] provider x
