-- ===== src/Routing/Dense.antt =====
-- The inherited dense attention of a block of sol_h3/runtime.py, from the leaf of its provider chain
-- on: `dense` in `BlockPatch._call`, and `_provider_unavailable_reason`. A provider that cannot be
-- loaded is not tried again in its request.
use comfy_ui_sol_h.Py.Outcome.{Outcome, Exn, import_error, runtime_error, os_error}
use Prim.Native.String.{◌++◌ as text_append}
use comfy_ui_sol_h.Base.{
  List, String, ℕ, Option, Bool, if◌then◌else◌, ◌∷◌, true, ◌||◌, some, str_eq, ◌+◌, false, [], none,
}
use comfy_ui_sol_h.Routing.State.{bump}
use comfy_ui_sol_h.Routing.Providers.{holds_id}
use comfy_ui_sol_h.PartitionedRequest.Engine.{Stateful}
use comfy_ui_sol_h.Py.Text.{codes}
use mathlib.Core.List.{[]}
use mathlib.Core.Bool.{false}
use mathlib.Core.Option.{none}
use comfy_ui_sol_h.Receipts.History.{starts_with}

abbrev contains_codes : List ℕ → List ℕ → Bool
contains_codes word [] = starts_with word []
contains_codes word (d ∷ ds) = starts_with word (d ∷ ds) || contains_codes word ds

-- `word in text`
unfoldable pub contains : (word text : String) → Bool
unfolding starts_with
contains word text = contains_codes (codes word) (codes text)

abbrev pub message_reason : (message otherwise : String) → String
message_reason message otherwise =
    if contains "GLIBCXX_" message
    then "binary_abi"
    else if contains "undefined symbol" message
    then "binary_symbol"
    else if contains "cannot open shared object file" message
        || contains "No such file or directory" message
    then "binary_dependency"
    else otherwise

unfoldable pub provider_unavailable_reason : Exn → Option String
unfolding contains
provider_unavailable_reason (import_error message) = some (message_reason message "import_error")
provider_unavailable_reason (os_error message) = some (message_reason message "loader_error")
provider_unavailable_reason exn = none

-- The part of a request that the dense attention touches.
pub record DenseState : Type 0 where
  pub disabled_dense_providers : List ℕ
  pub dense_provider_failures : List (String × ℕ)
  pub fallbacks : List (String × ℕ)
  pub backend_transitions : ℕ
  pub dense_attention_backends : List String

abbrev add_name : String → List String → List String
add_name name [] = name ∷ []
add_name name (x ∷ xs) = if str_eq x name then x ∷ xs else x ∷ add_name name xs

abbrev pub note_backend : String → DenseState → DenseState
note_backend name s = record s {
  dense_attention_backends = add_name name s.dense_attention_backends;
}

abbrev pub note_first : ℕ → Bool → DenseState → DenseState
note_first leaf true s = s
note_first leaf false s = record s {
  disabled_dense_providers = leaf ∷ s.disabled_dense_providers;
  backend_transitions = s.backend_transitions + 1;
}

-- The counts of a provider that has turned out to be unavailable.
unfoldable pub demote : (leaf : ℕ) (name reason : String) → DenseState → DenseState
unfolding bump
demote leaf name reason s = note_first leaf (holds_id leaf s.disabled_dense_providers) (record s {
  dense_provider_failures =
      bump (text_append name (text_append ":" reason)) s.dense_provider_failures;
  fallbacks = bump (text_append "dense_provider_unavailable:" reason) s.fallbacks;
})

-- A provider, or the original attention, on the operands of one call.
pub record Attention (R : Type 0) : Type 0 where
  pub object : ℕ
  pub name : String
  pub outcome : Outcome R

module _ {R : Type 0} where
  abbrev pub returned_by : String → Outcome R → DenseState → Outcome R × DenseState
  returned_by name (Outcome.ok out) s = (Outcome.ok out, note_backend name s)
  returned_by name (Outcome.raise exn) s = (Outcome.raise exn, s)

  abbrev pub run_original : Option (Attention R) → Stateful DenseState R
  run_original none s = (
    Outcome.raise (
        runtime_error
          "Inherited dense provider is unavailable and no original attention fallback was supplied"),
    s,
  )
  run_original (some original) s = returned_by original.name original.outcome s

  abbrev pub or_original :
      Option (Attention R) → Attention R → Exn → Option String → Stateful DenseState R
  or_original original leaf exn none s = (Outcome.raise exn, s)
  or_original original leaf exn (some reason) s =
      run_original original (demote leaf.object leaf.name reason s)

  abbrev pub try_provider : Option (Attention R) → Attention R → Outcome R → Stateful DenseState R
  try_provider original leaf (Outcome.ok out) s = (Outcome.ok out, note_backend leaf.name s)
  try_provider original leaf (Outcome.raise exn) s =
      or_original original leaf exn (provider_unavailable_reason exn) s

  -- `dense`, for the leaf of the inherited provider.
  unfoldable pub dense_call : (original leaf : Option (Attention R)) → Stateful DenseState R
  unfolding provider_unavailable_reason demote
  dense_call original none s = run_original original s
  dense_call original (some leaf) s =
      if holds_id leaf.object s.disabled_dense_providers
      then run_original original s
      else try_provider original leaf leaf.outcome s
