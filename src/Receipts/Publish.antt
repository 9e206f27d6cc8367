-- ===== src/Receipts/Publish.antt =====
-- What publishes a completed call: `_completion_fields` and `_record_completion` of
-- sol_h3/partitioned_request.py, and `receipt` of sol_h3/interop.py for a receipt with fields. The
-- request `s` is the one that `_REQUEST` holds. A route number `block` is the block index, already
-- checked to be an integer of zero or more.
use comfy_ui_sol_h.Receipts.Ledger.{Ledger, Forward, proof_of, full_receipt, add_value}
use comfy_ui_sol_h.Receipts.Partitioned.{receipt_tag, request_abi}
use comfy_ui_sol_h.Base.{
  String, Option, ℕ, List, if◌then◌else◌, ◌++◌, some, str_eq, option_eq, ◌∷◌, none, [], true, ◌==◌,
}
use comfy_ui_sol_h.Py.{Value, nothing, int, Float, tuple, values, str, cons, nil, float, bool}
use comfy_ui_sol_h.Py.Outcome.{Outcome, raise, runtime_error, assert, ◌>>◌, ok}
use comfy_ui_sol_h.Base.Int.{pos}
use mathlib.Core.Option.{none}
use comfy_ui_sol_h.MappedNeighbors.Types.{policy}

-- The part of a validated map and of its descriptor that a completion names.
pub record Mapped : Type 0 where
  pub map_digest : String
  pub descriptor_digest : Option String

abbrev pub optional_str : Option String → Value
optional_str none = nothing
optional_str (some s) = str s

abbrev pub rows : ℕ → Value
rows n = int (pos n)

abbrev pub k_range : Option (ℕ × ℕ) → Value
k_range none = nothing
k_range (some (start, stop)) = tuple (cons (rows start) (cons (rows stop) nil))

abbrev pub map_digest_of : Option Mapped → Value
map_digest_of none = nothing
map_digest_of (some m) = str m.map_digest

abbrev pub descriptor_digest_of : Option Mapped → Value
descriptor_digest_of none = nothing
descriptor_digest_of (some m) = optional_str m.descriptor_digest

abbrev pub policy_of : Option Mapped → Value
policy_of none = nothing
policy_of (some m) = str policy

-- What a call knows of itself when it has completed.
pub record Call : Type 0 where
  pub semantic_digest : String
  pub kind : String
  pub execution_mode : String
  pub q_rows : ℕ
  pub kv_rows : ℕ
  pub sink_rows : ℕ
  pub prefix_k_range : Option (ℕ × ℕ)
  pub prefix_log_key_measure : Float
  pub mapped : Option Mapped
  pub kernel_contract : Option String

unfoldable pub completion_fields : Call → Value
completion_fields c = tuple (
    values (
      str receipt_tag
      ∷ str request_abi
      ∷ str c.semantic_digest
      ∷ str c.kind
      ∷ str c.execution_mode
      ∷ rows c.q_rows
      ∷ rows c.kv_rows
      ∷ rows c.sink_rows
      ∷ k_range c.prefix_k_range
      ∷ float c.prefix_log_key_measure
      ∷ map_digest_of c.mapped
      ∷ descriptor_digest_of c.mapped
      ∷ policy_of c.mapped
      ∷ optional_str c.kernel_contract
      ∷ bool true
      ∷ []))

abbrev pub mapped_local_route : String
mapped_local_route = "vdn_local_sol_mapped_v1"

abbrev pub append_sink : Option (List Value) → Value → Option (List Value)
append_sink none v = none
append_sink (some xs) v = some (xs ++ v ∷ [])

-- A mapped receipt leaves its proof on the request.
abbrev owned_mapped : (block : ℕ) (route : String) (fields : Value) → List Value → List Value
owned_mapped block route fields owned =
    if str_eq route mapped_local_route
    then add_value (proof_of (rows block) fields) owned
    else owned

-- `receipt(options, block, route, fields=fields)`
unfoldable pub receipt : (block : ℕ) (route : String) (fields : Value) → Ledger → Ledger
receipt block route fields s = record s {
  mapped_validated = owned_mapped block route fields s.mapped_validated;
  sink = append_sink s.sink (full_receipt block route fields);
}

-- The proofs of another evaluation are dropped before the first of this one.
abbrev pub proofs_of : Ledger → ℕ → List Value
proofs_of s evaluation =
    if option_eq s.receipt_evaluation evaluation then s.partitioned_validated else []

abbrev pub note_route : Forward → ℕ → String → Forward
note_route f block route = record f { routes = f.routes ++ (block, route) ∷ [] }

-- The forward `f` belongs to the request. If the proofs are of its evaluation already, then the
-- evaluation is set to what it is.
unfoldable pub publish : Forward → (block : ℕ) (route : String) (fields : Value) → Ledger → Ledger
unfolding receipt
publish f block route fields s = receipt block route fields (record s {
  forward = some (note_route f block route);
  partitioned_validated = add_value (proof_of (rows block) fields) (proofs_of s f.evaluation);
  receipt_evaluation = some f.evaluation;
  partitioned_receipts = ℕ.suc s.partitioned_receipts;
})

-- With what `_FORWARD` holds.
unfoldable pub record_within :
    Option Forward → (block : ℕ) (route : String) (fields : Value) → Ledger → Outcome Ledger
record_within none block route fields s =
    raise (runtime_error "partitioned Sol must execute inside the native Sol diffusion lifecycle")
record_within (some f) block route fields s =
    assert (f.owner == s.identity)
      (runtime_error "partitioned Sol request ownership changed during an H3 block")
    >> ok (publish f block route fields s)

unfoldable pub record_completion :
    (block : ℕ) (route : String) (fields : Value) → Ledger → Outcome Ledger
unfolding record_within
record_completion block route fields s = record_within s.forward block route fields s
