-- ===== src/Receipts/Partitioned.antt =====
-- `_accept_partitioned_receipt` of sol_h3/partitioned_history.py.
use comfy_ui_sol_h.Base.{none, some, [], ◌∷◌, List, Option, option_eq}
use comfy_ui_sol_h.Py.{nil, cons, tuple, str, float, bool, nothing, is_natural}
use comfy_ui_sol_h.Receipts.Ledger.{Ledger, Forward, holds_value, proof_of}
use comfy_ui_sol_h.MappedNeighbors.Types.{policy}
use comfy_ui_sol_h.Base.{
  String, List, Bool, Option, true, ◌||◌, ◌&&◌, ℕ, if◌then◌else◌, false, not, leb, some, str_eq,
  ltb, ◌==◌,
}
use comfy_ui_sol_h.Py.{
  Value, py_eq, bool, str, float, natural, tuple, nothing, is_finite, whole, float_lt, items,
}
use comfy_ui_sol_h.Py.Text.{digest}

abbrev pub receipt_tag : String
receipt_tag = "sol_h3_partitioned_exact_prefix_v2"

abbrev pub request_abi : String
request_abi = "sol-h3-partitioned-single-union-v1"

abbrev pub dense_route : String
dense_route = "partitioned_dense"

abbrev pub sol_route : String
sol_route = "partitioned_sol"

abbrev pub mapped_route : String
mapped_route = "partitioned_sol_mapped"

abbrev pub weighted_dense_contract : String
weighted_dense_contract = "sm120-weighted-all-selected-v1"

-- The fifteen fields of a completion, in order.
pub record Completion : Type 0 where
  pub tag : Value
  pub abi : Value
  pub semantic_digest : Value
  pub kind : Value
  pub execution_mode : Value
  pub q_rows : Value
  pub kv_rows : Value
  pub sink_rows : Value
  pub prefix_k_range : Value
  pub prefix_log_key_measure : Value
  pub map_digest : Value
  pub descriptor_digest : Value
  pub mapped_policy : Value
  pub kernel_contract : Value
  pub completed : Value

unfoldable pub unpack : List Value → Option Completion
unpack (a ∷ b ∷ c ∷ d ∷ e ∷ f ∷ g ∷ h ∷ i ∷ j ∷ k ∷ l ∷ m ∷ n ∷ o ∷ []) = some (record {
  tag = a;
  abi = b;
  semantic_digest = c;
  kind = d;
  execution_mode = e;
  q_rows = f;
  kv_rows = g;
  sink_rows = h;
  prefix_k_range = i;
  prefix_log_key_measure = j;
  map_digest = k;
  descriptor_digest = l;
  mapped_policy = m;
  kernel_contract = n;
  completed = o;
})
unpack _ = none

abbrev pub equals : Value → String → Bool
equals v s = py_eq v (str s)

abbrev pub is_none : Value → Bool
is_none nothing = true
is_none _ = false

abbrev pub is_true : Value → Bool
is_true (bool b) = b
is_true _ = false

abbrev pub nonempty_str : Value → Bool
nonempty_str (str s) = not (str_eq s "")
nonempty_str _ = false

unfoldable pub attention_kind : Value → Bool
attention_kind v = equals v "global" || equals v "local" || equals v "anchor" || equals v "full"

-- A float that is finite and not positive.
unfoldable pub measure_valid : Value → Bool
measure_valid (float f) = is_finite f && not (float_lt (whole 0) f)
measure_valid _ = false

abbrev pub is_zero_measure : Value → Bool
is_zero_measure v = py_eq v (float (whole 0))

abbrev pub is_negative_measure : Value → Bool
is_negative_measure (float f) = float_lt f (whole 0)
is_negative_measure _ = false

-- The row counts `0 < q`, `0 < kv` and `0 <= sink <= kv`.
unfoldable pub counts_valid : (q_rows kv_rows sink_rows : Value) → Bool
counts_valid q_rows kv_rows sink_rows = elim (natural q_rows) [
  | none ↦ false
  | some q ↦ elim (natural kv_rows) [
    | none ↦ false
    | some kv ↦ elim (natural sink_rows) [
      | none ↦ false
      | some sink ↦ ltb 0 q && ltb 0 kv && leb sink kv
    ]
  ]
]

unfoldable pub header_valid : Completion → Bool
unfolding attention_kind measure_valid counts_valid
header_valid c =
    equals c.tag receipt_tag
    && equals c.abi request_abi
    && digest c.semantic_digest
    && attention_kind c.kind
    && counts_valid c.q_rows c.kv_rows c.sink_rows
    && measure_valid c.prefix_log_key_measure
    && is_true c.completed

-- The weighed key rows, with `sink` rows exact before them. A dense call may weigh the sink too.
unfoldable pub bounds_valid : (dense : Bool) (sink kv start stop : ℕ) → Bool
bounds_valid dense sink kv start stop =
    ((leb sink start && ltb start stop && leb stop kv)
      || (dense && start == 0 && ltb sink stop && leb stop kv))
    && (dense || start == sink)

unfoldable pub pair_valid : (dense : Bool) (sink_rows kv_rows start stop : Value) → Bool
unfolding bounds_valid
pair_valid dense sink_rows kv_rows start stop = elim (natural start) [
  | none ↦ false
  | some a ↦ elim (natural stop) [
    | none ↦ false
    | some b ↦ elim (natural sink_rows) [
      | none ↦ false
      | some sink ↦ elim (natural kv_rows) [
        | none ↦ false
        | some kv ↦ bounds_valid dense sink kv a b
      ]
    ]
  ]
]

unfoldable pub range_valid : (dense : Bool) (sink_rows kv_rows measure : Value) → Value → Bool
unfolding pair_valid
range_valid dense sink_rows kv_rows measure nothing = is_zero_measure measure
range_valid dense sink_rows kv_rows measure (tuple (cons a (cons b nil))) =
    pair_valid dense sink_rows kv_rows a b
range_valid dense sink_rows kv_rows measure _ = false

unfoldable pub map_valid : Completion → Bool
map_valid c =
    if is_none c.map_digest
    then is_none c.descriptor_digest && is_none c.mapped_policy
    else digest c.map_digest
      && equals c.mapped_policy policy
      && (is_none c.descriptor_digest || digest c.descriptor_digest)

abbrev pub native_dense_fields : Completion → Bool
native_dense_fields c =
    (equals c.execution_mode "dense_forced" || equals c.execution_mode "dense_warmup")
    && is_none c.kernel_contract

abbrev pub weighted_dense_fields : Completion → Bool
weighted_dense_fields c =
    (equals c.execution_mode "dense_sm120_forced" || equals c.execution_mode "dense_sm120_warmup")
    && equals c.kernel_contract weighted_dense_contract
    && not (is_none c.prefix_k_range)
    && is_negative_measure c.prefix_log_key_measure

unfoldable pub route_valid : Value → Completion → Bool
route_valid route c =
    if equals route dense_route
    then native_dense_fields c || weighted_dense_fields c
    else if equals route mapped_route
    then equals c.execution_mode "sm120_mapped"
      && digest c.map_digest
      && digest c.descriptor_digest
      && nonempty_str c.kernel_contract
    else equals c.execution_mode "sm120_union"
      && is_none c.descriptor_digest
      && nonempty_str c.kernel_contract

-- The fields, before any ownership.
unfoldable pub completion_valid : Value → Completion → Bool
unfolding header_valid range_valid map_valid route_valid
completion_valid route c =
    header_valid c
    && range_valid (equals route dense_route) c.sink_rows c.kv_rows c.prefix_log_key_measure
        c.prefix_k_range
    && map_valid c
    && route_valid route c

-- The request's own proof of this evaluation, with what `_FORWARD` holds.
unfoldable pub owned_within : Option Forward → Ledger → (block fields : Value) → Bool
owned_within none s block fields = false
owned_within (some f) s block fields =
    f.owner == s.identity
    && option_eq s.receipt_evaluation f.evaluation
    && holds_value (proof_of block fields) s.partitioned_validated

unfoldable pub owned : Option Ledger → (block fields : Value) → Bool
unfolding owned_within
owned none block fields = false
owned (some s) block fields = owned_within s.forward s block fields

abbrev pub is_partitioned_route : Value → Bool
is_partitioned_route v = equals v dense_route || equals v sol_route || equals v mapped_route

unfoldable pub fields_valid : Value → Value → Bool
unfolding unpack completion_valid
fields_valid route (tuple xs) = elim (unpack (items xs)) [
  | none ↦ false
  | some c ↦ completion_valid route c
]
fields_valid route _ = false

unfoldable pub accept_partitioned : Option Ledger → Value → Bool
unfolding fields_valid owned
accept_partitioned request (tuple (cons provider (cons block (cons route (cons fields nil))))) =
    equals provider "sol_h3"
    && is_natural block
    && is_partitioned_route route
    && fields_valid route fields
    && owned request block fields
accept_partitioned request _ = false
