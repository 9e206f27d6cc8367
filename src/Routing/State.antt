-- ===== src/Routing/State.antt =====
-- What a block call of sol_h3/runtime.py keeps and reads, and `record` of `BlockPatch._call`.
use Prim.Native.String.{◌++◌ as text_append}
use comfy_ui_sol_h.Base.{
  String, ℕ, Option, Bool, List, if◌then◌else◌, ◌∷◌, some, ◌&&◌, ◌||◌, str_eq, ◌++◌, none, ⊤, ltb,
  ◌+◌, [],
}
use comfy_ui_sol_h.Receipts.Ledger.{Ledger, Forward, plain_receipt}
use comfy_ui_sol_h.PartitionedRequest.Tensors.{Tensor}
use comfy_ui_sol_h.Py.Outcome.{Outcome}
use comfy_ui_sol_h.Receipts.Publish.{receipt, note_route}
use comfy_ui_sol_h.Contracts.Config.{Config}
use comfy_ui_sol_h.Py.{Float, Value}
use comfy_ui_sol_h.Interop.Warmup.{dense_evaluation_warmup}
use comfy_ui_sol_h.Caches.DeviceDescriptor.{Descriptors, Device}
use comfy_ui_sol_h.MappedNeighbors.Types.{Interval}
use comfy_ui_sol_h.PartitionedRequest.Engine.{Stateful, modify}
use mathlib.Core.Option.{none}

-- `counter[name] += 1`
unfoldable pub bump : String → List (String × ℕ) → List (String × ℕ)
bump name [] = (name, 1) ∷ []
bump name ((key, n) ∷ rest) =
    let later = bump name rest in if str_eq key name then (key, n + 1) ∷ rest else (key, n) ∷ later

-- The part of a `Request` that the VDN providers touch. `sparse` is what `attention` of
-- sol_h3/sparse.py keeps there.
pub record Block (K : Type 0) : Type 0 where
  pub ledger : Ledger
  pub eligible_calls : ℕ
  pub dense_calls : ℕ
  pub fallbacks : List (String × ℕ)
  pub descriptors : Descriptors
  pub vdn_local_sol_calls : ℕ
  pub vdn_mapped_sol_calls : ℕ
  pub vdn_rectangular_sol_calls : ℕ
  pub vdn_requested_q_rows : ℕ
  pub vdn_kernel_q_rows : ℕ
  pub sparse : K

-- The arguments that a provider gives to `attention` of sol_h3/sparse.py.
pub record Attend (C : Type 0) : Type 0 where
  pub q : Tensor C
  pub k : Tensor C
  pub v : Tensor C
  pub sink_rows : ℕ
  pub mapped_neighbor_intervals : Option (List Interval)
  pub mapped_calibration_identity : Option String

-- What one block call is made with. The last fields are torch, `attention` of sol_h3/sparse.py and
-- the plan hook of the VDN forward, if there is one.
pub record Scope (C K : Type 0) : Type 0 where
  pub index : ℕ
  pub config : Config
  pub evaluation : ℕ
  pub options : Value
  pub layout : Value
  pub streamed : Bool
  pub capability : Device → ℕ × ℕ
  pub tracked : Bool
  pub capturing : Bool
  -- `d ** -0.5`
  pub head_scale : ℕ → Float
  -- `t.transpose(0, 1).unsqueeze(0)` and `t.reshape(shape)`
  pub heads_first : C → C
  pub reshaped : List ℕ → C → C
  pub attention : Attend C → K → Outcome C × K
  pub describe : Option (Value → Value → Outcome Value)

-- A local attention call of VDN. `native` is what its own attention would give.
pub record LocalCall (C : Type 0) : Type 0 where
  pub native : Outcome C
  pub q : Tensor C
  pub k : Tensor C
  pub v : Tensor C
  pub kind : String
  pub scale : Float
  pub square_aligned : Bool
  pub sink_rows : Value
  pub query_position_map : Value

abbrev pub noted : Option Forward → ℕ → String → Option Forward
noted none index route = none
noted (some f) index route = some (note_route f index route)

abbrev append_plain : Option (List Value) → Value → Option (List Value)
append_plain none v = none
append_plain (some xs) v = some (xs ++ v ∷ [])

-- `receipt(options, index, route, fields=fields)` without a measure plan.
abbrev pub receipt_of : ℕ → String → Option Value → Ledger → Ledger
receipt_of index route none s = record s { sink = append_plain s.sink (plain_receipt index route) }
receipt_of index route (some fields) s = receipt index route fields s

-- The route and the receipt of one call.
unfoldable pub recorded : ℕ → String → Option Value → Ledger → Ledger
unfolding receipt
recorded index route fields s =
    receipt_of index route fields (record s { forward = noted s.forward index route })

module _ {C K : Type 0} (scope : Scope C K) where
  abbrev pub route_name : String → String
  route_name route =
      if scope.streamed && (str_eq route "sol" || str_eq route "dense_warmup")
      then text_append route "_streamed"
      else route

  abbrev pub count_fallback : Bool → String → List (String × ℕ) → List (String × ℕ)
  count_fallback fallback route counts = if fallback then bump route counts else counts

  unfoldable pub record_route :
      (route : String) (fallback : Bool) → Option Value → Stateful (Block K) ⊤
  unfolding recorded bump
  record_route route fallback fields = modify (λ s. record s {
    ledger = recorded scope.index (route_name route) fields s.ledger;
    fallbacks = count_fallback fallback (route_name route) s.fallbacks;
  })

  abbrev pub in_warmup : Bool
  in_warmup =
      dense_evaluation_warmup scope.config scope.evaluation scope.options
      || ltb scope.index scope.config.dense_layers
