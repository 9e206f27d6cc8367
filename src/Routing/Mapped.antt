-- ===== src/Routing/Mapped.antt =====
-- What a call of `vdn_provider_v4` of sol_h3/runtime.py leaves behind when it returns.
use comfy_ui_sol_h.Py.{Value}
use comfy_ui_sol_h.Routing.State.{Scope, LocalCall, Block}
use comfy_ui_sol_h.Base.{String, List, Option, ◌≡◌, true, some, refl, none, inl, ◌⊎◌}
use comfy_ui_sol_h.MappedNeighbors.Types.{DescriptorPlan, Result, Interval}
use comfy_ui_sol_h.Routing.Local.{
  with_hook, compiled_map, given_tensor, attend_of, given_to, with_hook,
}
use comfy_ui_sol_h.Py.Text.{digest_text}
use comfy_ui_sol_h.MappedNeighbors.Wire.Accepts.{IsWellFormed}
use comfy_ui_sol_h.Routing.Recorded.{Good, IsAttended, LegacySource}
use comfy_ui_sol_h.Py.Outcome.{Outcome}
use comfy_ui_sol_h.Receipts.Ledger.{Ledger}
use comfy_ui_sol_h.Receipts.Mapped.{mapped_receipt_fields}
use comfy_ui_sol_h.Receipts.Publish.{mapped_local_route}
use comfy_ui_sol_h.PartitionedRequest.Completions.{sol_contract}
use mathlib.Core.Option.{none}

-- A plan that a receipt may name.
pub record IsNamed (sha256_json : Value → String) (plan : DescriptorPlan) : Type 0 where
  pub well : IsWellFormed sha256_json plan.validated
  pub mapped : digest_text plan.validated.map_digest ≡ true
  pub described : digest_text plan.descriptor_digest ≡ true

-- The sparse attention on the neighbours that the call's own map compiles to.
pub record FromMapped {C K : Type 0} (scope : Scope C K) (call : LocalCall C)
    (sha256_json : Value → String) (s : Block K) (route : String) (fields : Option Value)
    (result : C) : Type 0 where
  pub plan : DescriptorPlan
  pub intervals : List Interval
  pub compiled : compiled_map scope sha256_json call ≡ Result.ok (some plan)
  pub given : given_tensor scope (given_to scope call plan s) ≡ Outcome.ok intervals
  pub named : route ≡ mapped_local_route
  pub shown : fields ≡ some (mapped_receipt_fields plan sol_contract)
  pub attended :
      IsAttended scope call
        (attend_of scope call (some intervals) (some plan.descriptor_digest))
        s.sparse
        result

-- Where the result of the provider comes from.
abbrev pub ProviderSource :
    {C K : Type 0}
    → Scope C K
    → LocalCall C
    → (Value → String)
    → Block K
    → String
    → Option Value
    → C
    → Type 0
ProviderSource scope call sha256_json s route fields result =
    LegacySource scope call s.sparse route fields result
    ⊎ FromMapped scope call sha256_json s route fields result

module _ {C K : Type 0} (scope : Scope C K) (call : LocalCall C) (sha256_json : Value → String)
    (s : Block K) where
  abbrev Source : String → Option Value → C → Type 0
  Source = ProviderSource scope call sha256_json s

  from_native :
      (route : String) (result : C) → call.native ≡ Outcome.ok result → Source route none result
  from_native route result ran = inl (inl (ran, refl))

  abbrev Fine : Outcome C × Block K → Type 0
  Fine = Good scope call Source from_native s.ledger
