-- ===== src/Receipts/Mapped.antt =====
-- The receipt of a mapped local call: `receipt_fields` of sol_h3/mapped_neighbors.py, and what
-- `HistoryPolicy.accept_receipts` of sol_h3/interop.py asks of its twelve fields.
use comfy_ui_sol_h.Base.Int.{pos}
use comfy_ui_sol_h.MappedNeighbors.Types.{DescriptorPlan, receipt_tag, policy}
use comfy_ui_sol_h.Py.{Value, str, int, tuple, values, items, is_natural, bool}
use comfy_ui_sol_h.Base.{
  List, Bool, String, Option, not, length, ◌∷◌, str_eq, ◌&&◌, some, false, ◌==◌, none, true, [],
  ltb, leb,
}
use comfy_ui_sol_h.Receipts.Partitioned.{equals, is_true}
use comfy_ui_sol_h.Py.Text.{codes}
use comfy_ui_sol_h.Receipts.Publish.{rows}
use comfy_ui_sol_h.Receipts.Ledger.{holds_value, proof_of}

-- `receipt_fields(plan, kernel_contract=...)`
unfoldable pub mapped_receipt_fields : DescriptorPlan → (kernel_contract : String) → Value
mapped_receipt_fields plan kernel_contract =
    let v = plan.validated in
    tuple (
      values (
        str receipt_tag
        ∷ str v.owner_generation
        ∷ str v.plan_digest
        ∷ rows v.group_index
        ∷ rows v.q_rows
        ∷ rows v.kv_rows
        ∷ rows v.sink_rows
        ∷ str v.map_digest
        ∷ str plan.descriptor_digest
        ∷ str policy
        ∷ str kernel_contract
        ∷ bool true
        ∷ []))

pub record MappedFields : Type 0 where
  pub key : Value
  pub owner_generation : Value
  pub plan_digest : Value
  pub group_index : Value
  pub q_rows : Value
  pub kv_rows : Value
  pub sink_rows : Value
  pub map_digest : Value
  pub descriptor_digest : Value
  pub mapped_policy : Value
  pub kernel_contract : Value
  pub completed : Value

unfoldable pub unpack_mapped : List Value → Option MappedFields
unpack_mapped (a ∷ b ∷ c ∷ d ∷ e ∷ f ∷ g ∷ h ∷ i ∷ j ∷ k ∷ l ∷ []) = some (record {
  key = a;
  owner_generation = b;
  plan_digest = c;
  group_index = d;
  q_rows = e;
  kv_rows = f;
  sink_rows = g;
  map_digest = h;
  descriptor_digest = i;
  mapped_policy = j;
  kernel_contract = k;
  completed = l;
})
unpack_mapped _ = none

-- `isinstance(v, str) and v`
abbrev pub nonempty_str : Value → Bool
nonempty_str (str s) = not (str_eq s "")
nonempty_str _ = false

-- `isinstance(v, str) and len(v) == 64`
abbrev pub has_64 : Value → Bool
has_64 (str s) = length (codes s) == 64
has_64 _ = false

-- `type(v) is int and v > 0`
abbrev pub positive_int : Value → Bool
positive_int (int (pos n)) = ltb 0 n
positive_int _ = false

-- `type(v) is int and 0 <= v <= limit`
abbrev pub int_within : Value → Value → Bool
int_within (int (pos n)) (int (pos m)) = leb n m
int_within _ _ = false

unfoldable pub mapped_valid : MappedFields → Bool
mapped_valid m =
    equals m.key receipt_tag
    && nonempty_str m.owner_generation
    && has_64 m.plan_digest
    && is_natural m.group_index
    && positive_int m.q_rows
    && positive_int m.kv_rows
    && int_within m.sink_rows m.kv_rows
    && has_64 m.map_digest
    && has_64 m.descriptor_digest
    && equals m.mapped_policy policy
    && nonempty_str m.kernel_contract
    && is_true m.completed

-- `owned` is the request's set of the mapped receipts that its calls have published.
unfoldable pub accept_mapped : (owned : List Value) (block fields : Value) → Bool
unfolding unpack_mapped mapped_valid
accept_mapped owned block (tuple xs) = elim (unpack_mapped (items xs)) [
  | none ↦ false
  | some m ↦ mapped_valid m && holds_value (proof_of block (tuple xs)) owned
]
accept_mapped owned block _ = false
