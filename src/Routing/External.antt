-- ===== src/Routing/External.antt =====
-- `_external_sequence_prefix` of sol_h3/runtime.py: the protected prefix of a mixed-grid sequence
-- that another node gives, or the reason why it is not used.
use comfy_ui_sol_h.Py.Outcome.{Outcome}
use comfy_ui_sol_h.Base.{
  ℕ, List, String, Bool, ◌∷◌, if◌then◌else◌, [], ◌+◌, ◌==◌, not, ◌*◌, ◌&&◌, all, ◌-◌,
}
use comfy_ui_sol_h.Base.Int.{ℤ, pos_part, int_eq, pos}
use comfy_ui_sol_h.Py.{Value, is_int, py_eq, int, get, str}
use comfy_ui_sol_h.Contracts.Layout.{Layout, prefix_length}
use comfy_ui_sol_h.MixedMeasure.Contract.{count_in, ordered}
use comfy_ui_sol_h.Interop.Warmup.{is_dict}

pub data Prefix : Type 0 where
  prefix_of : ℕ → Prefix
  refused : String → Prefix

abbrev pub external_fields : List String
external_fields =
    "native_sequence_rows" ∷ "sequence_rows" ∷ "video_start" ∷ "temporal" ∷ "prefix_t"
    ∷ "source_rows_per_frame" ∷ "prefix_rows_per_frame" ∷ []

-- The counts of a contract, in that order.
pub record Sequence : Type 0 where
  pub native : ℤ
  pub actual : ℤ
  pub start : ℤ
  pub temporal : ℤ
  pub prefix_t : ℤ
  pub source_rows : ℤ
  pub prefix_rows : ℤ

abbrev pub sequence_of : Value → Sequence
sequence_of contract = record {
  native = count_in contract "native_sequence_rows";
  actual = count_in contract "sequence_rows";
  start = count_in contract "video_start";
  temporal = count_in contract "temporal";
  prefix_t = count_in contract "prefix_t";
  source_rows = count_in contract "source_rows_per_frame";
  prefix_rows = count_in contract "prefix_rows_per_frame";
}

-- The rows with every frame at the density of the source, and with the denser prefix.
abbrev pub native_rows : Sequence → ℕ
native_rows s = pos_part s.start + pos_part s.temporal * pos_part s.source_rows

abbrev pub mixed_rows : Sequence → ℕ
mixed_rows s =
    pos_part s.start
    + pos_part s.prefix_t * pos_part s.prefix_rows
    + (pos_part s.temporal - pos_part s.prefix_t) * pos_part s.source_rows

-- The sums are those of positive counts, since the tests before them have passed.
unfoldable pub counts_agree : (rows : ℕ) → Sequence → Bool
counts_agree rows s =
    int_eq s.actual (pos rows)
    && (ordered s.start s.actual
        && (ordered s.prefix_t s.temporal
            && (ordered s.source_rows s.prefix_rows
                && (int_eq s.native (pos (native_rows s))
                    && int_eq s.actual (pos (mixed_rows s))))))

-- `prefix_length` raises a `RuntimeError` and nothing else.
abbrev pub same_prefix : ℕ → Outcome ℕ → Prefix
same_prefix start (Outcome.ok p) =
    if p == start then prefix_of start else refused "external_sequence_layout"
same_prefix start (Outcome.raise exn) = refused "external_sequence_layout"

-- The layout has the rows of either sequence; its length is the number that it is equal to.
abbrev pub layout_prefix : (layout : Layout) (native actual start : ℕ) → Prefix
layout_prefix layout native actual start =
    if py_eq layout.seq_len (int (pos native))
    then same_prefix start (prefix_length layout native)
    else if py_eq layout.seq_len (int (pos actual))
    then same_prefix start (prefix_length layout actual)
    else refused "external_sequence_layout"

abbrev pub supported : Value → Bool
supported contract =
    is_dict contract
    && (py_eq (get "api" contract) (int (pos 2))
        && (py_eq (get "mode" contract) (str "dense_gate_no_linear")
            && py_eq (get "topology" contract) (str "mixed_grid_low_suffix")))

unfoldable pub external_sequence_prefix : (contract : Value) → Layout → (rows : ℕ) → Prefix
unfolding counts_agree prefix_length
external_sequence_prefix contract layout rows =
    if not (supported contract)
    then refused "external_sequence_native"
    else if not (all (λ name. is_int (get name contract)) external_fields)
    then refused "external_sequence_contract"
    else if not (counts_agree rows (sequence_of contract))
    then refused "external_sequence_contract"
    else layout_prefix layout (native_rows (sequence_of contract)) rows
        (pos_part (sequence_of contract).start)
