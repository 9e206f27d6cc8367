-- ===== src/Receipts/MappedAccepted.antt =====
-- The receipt that a mapped local call publishes, put before `HistoryPolicy.accept_receipts` of
-- sol_h3/interop.py.
use comfy_ui_sol_h.Py.Text.{digest_text, codes}
use comfy_ui_sol_h.Receipts.Mapped.{mapped_receipt_fields, accept_mapped}
use comfy_ui_sol_h.Py.{Value, is_plain, all_plain, py_eq}
use comfy_ui_sol_h.Base.{
  String, ◌≡◌, true, ℕ, length, refl, List, ◌==◌, str_eq, and_true, false, and_intro, ap, not,
  lt→ltb, le→leb,
}
use comfy_ui_sol_h.Receipts.Publish.{receipt, rows, mapped_local_route}
use comfy_ui_sol_h.MappedNeighbors.Types.{DescriptorPlan}
use comfy_ui_sol_h.Receipts.Ledger.{Ledger, holds_value, proof_of, holds_value-add}
use comfy_ui_sol_h.MappedNeighbors.Wire.Accepts.{IsWellFormed}
use comfy_ui_sol_h.Receipts.Accepted.{proof-plain}

digest_text-length : (s : String) → digest_text s ≡ true → (length (codes s) == 64) ≡ true
unfolding digest_text
digest_text-length s h = (and_true (length (codes s) == 64) _ ((and_true _ _ h).0)).0

pub mapped_receipt_fields-plain :
    (plan : DescriptorPlan) (contract : String)
    → is_plain (mapped_receipt_fields plan contract) ≡ true
unfolding mapped_receipt_fields is_plain all_plain
mapped_receipt_fields-plain plan contract = refl

-- The proof of a published mapped receipt is owned by the request.
pub receipt-holds :
    (block : ℕ) (fields : Value) (s : Ledger)
    → is_plain fields ≡ true
    → holds_value
        (proof_of (rows block) fields)
        (receipt block mapped_local_route fields s).mapped_validated
      ≡ true
unfolding receipt
receipt-holds block fields s plain =
    holds_value-add (proof_of (rows block) fields) s.mapped_validated
      (proof-plain block fields plain)

module _ (sha256_json : Value → String) where
  -- A receipt of a well-formed map with a digested descriptor is accepted once its proof is owned.
  pub accept_mapped-fields :
      (plan : DescriptorPlan) (contract : String) (owned : List Value) (block : ℕ)
      → IsWellFormed sha256_json plan.validated
      → digest_text plan.validated.map_digest ≡ true
      → digest_text plan.descriptor_digest ≡ true
      → str_eq contract "" ≡ false
      → holds_value (proof_of (rows block) (mapped_receipt_fields plan contract)) owned ≡ true
      → accept_mapped owned (rows block) (mapped_receipt_fields plan contract) ≡ true
  unfolding accept_mapped mapped_receipt_fields py_eq
  accept_mapped-fields plan contract owned block well map_digest descriptor_digest named held =
      let v = plan.validated in
      let text =
        and_intro (ap not well.owner_named) (digest_text-length v.plan_digest well.plan_digested) in
      let q = and_intro (and_intro text refl) (lt→ltb 0 v.q_rows well.q_positive) in
      let kv = and_intro q (lt→ltb 0 v.kv_rows well.kv_positive) in
      let sink = and_intro kv (le→leb v.sink_rows v.kv_rows well.sink_fits) in
      let map = and_intro sink (digest_text-length v.map_digest map_digest) in
      let described = and_intro map (digest_text-length plan.descriptor_digest descriptor_digest) in
      and_intro (and_intro (and_intro (and_intro described refl) (ap not named)) refl) held
