-- ===== src/MixedMeasure/Contract.antt =====
-- `validate_measure_contract` of sol_h3/mixed_measure.py.
use Prim.Native.String.{◌++◌ as text_append}
use comfy_ui_sol_h.Base.{
  String, List, ℕ, ◌∷◌, Bool, [], suc, ◌*◌, ⊤, ◌+◌, ◌&&◌, ◌-◌, zero, ◌==◌, all, ◌≡◌, true, refl,
}
use comfy_ui_sol_h.Py.{
  bool, float, tuple, list, dict, object, nothing, Value, int, get, py_eq, is_int, str,
}
use comfy_ui_sol_h.Base.Int.{ℤ, pos, pos_part, ltb_ℤ, negsuc, int_eq}
use comfy_ui_sol_h.MixedMeasure.Representatives.{representative_spatial_indices, Arithmetic}
use comfy_ui_sol_h.Py.Outcome.{Exn, Outcome, runtime_error, ◌>>◌, assert, ◌>>=◌}
use comfy_ui_sol_h.MixedMeasure.Gather.{Validated}
use Prim.Native.Nat.{zero}
use comfy_ui_sol_h.Interop.Warmup.{is_dict}
use comfy_ui_sol_h.Receipts.Partitioned.{is_true}

abbrev flow_mixed_measure_mode : String
flow_mixed_measure_mode = "prefix_kv_stratified_subsample"

abbrev integer_fields : List String
integer_fields =
    "video_start" ∷ "sequence_rows" ∷ "temporal" ∷ "prefix_t" ∷ "source_grid_h" ∷ "source_grid_w"
    ∷ "prefix_grid_h" ∷ "prefix_grid_w" ∷ "source_rows_per_frame" ∷ "prefix_rows_per_frame"
    ∷ "expected_kv_rows" ∷ []

abbrev shared_fields : List String
shared_fields =
    "video_start" ∷ "sequence_rows" ∷ "temporal" ∷ "prefix_t" ∷ "source_rows_per_frame"
    ∷ "prefix_rows_per_frame" ∷ []

-- The integer of a field that has been checked to hold one.
abbrev integer_of : Value → ℤ
integer_of (int z) = z
integer_of _ = pos 0

pub whole_number : (v : Value) → is_int v ≡ true → v ≡ int (integer_of v)
whole_number (int z) h = refl
whole_number nothing h = cc
whole_number (bool b) h = cc
whole_number (float f) h = cc
whole_number (str t) h = cc
whole_number (tuple xs) h = cc
whole_number (list xs) h = cc
whole_number (dict es) h = cc
whole_number (object i) h = cc

abbrev pub count_in : Value → String → ℤ
count_in measure name = integer_of (get name measure)

abbrev negated : ℕ → ℤ
negated zero = pos 0
negated (suc n) = negsuc n

unfoldable pub product_ℤ : ℤ → ℤ → ℤ
product_ℤ (pos a) (pos b) = pos (a * b)
product_ℤ (pos a) (negsuc b) = negated (a * suc b)
product_ℤ (negsuc a) (pos b) = negated (suc a * b)
product_ℤ (negsuc a) (negsuc b) = pos (suc a * suc b)

abbrev error : String → Exn
error = runtime_error

abbrev field_error : String → Exn
field_error name = error (
    text_append "Flow mixed-grid attention-measure "
      (text_append name " disagrees with external sequence"))

-- Both contracts name the same count under each name.
unfoldable pub fields_agree : (measure external : Value) → List String → Outcome ⊤
fields_agree measure external [] = Outcome.ok tt
fields_agree measure external (name ∷ names) =
    assert (py_eq (int (count_in measure name)) (get name external)) (field_error name)
    >> fields_agree measure external names

unfoldable pub check_shape : (measure external : Value) → Outcome ⊤
unfolding fields_agree
check_shape measure external = do
  assert (is_dict measure) (error "Flow mixed-grid attention-measure contract must be a dictionary")
  assert
      (py_eq (get "api" measure) (int (pos 1))
        && py_eq (get "mode" measure) (str flow_mixed_measure_mode))
      (error "Flow mixed-grid attention-measure API/mode is unsupported")
  assert (is_dict external && py_eq (get "api" external) (int (pos 2)))
      (error "Flow mixed-grid attention measure requires external-sequence API 2")
  assert (all (λ name. is_int (get name measure)) integer_fields)
      (error "Flow mixed-grid attention-measure counts must be integers")
  assert
      (is_true (get "exact_prefix_queries_preserved" measure)
        && is_true (get "suffix_kv_unchanged" measure))
      (error "Flow mixed-grid attention-measure preservation contract is incomplete")
  fields_agree measure external shared_fields

-- The counts of a contract, and its grid sizes.
pub record Counts : Type 0 where
  pub sequence_rows : ℤ
  pub start : ℤ
  pub temporal : ℤ
  pub prefix_t : ℤ
  pub source_rows : ℤ
  pub prefix_rows : ℤ
  pub expected_kv_rows : ℤ
  pub source_grid : ℤ × ℤ
  pub prefix_grid : ℤ × ℤ

abbrev pub counts_of : Value → Counts
counts_of measure = record {
  sequence_rows = count_in measure "sequence_rows";
  start = count_in measure "video_start";
  temporal = count_in measure "temporal";
  prefix_t = count_in measure "prefix_t";
  source_rows = count_in measure "source_rows_per_frame";
  prefix_rows = count_in measure "prefix_rows_per_frame";
  expected_kv_rows = count_in measure "expected_kv_rows";
  source_grid = (count_in measure "source_grid_h", count_in measure "source_grid_w");
  prefix_grid = (count_in measure "prefix_grid_h", count_in measure "prefix_grid_w");
}

-- `0 < low < high`
abbrev pub ordered : (low high : ℤ) → Bool
ordered low high = ltb_ℤ (pos 0) low && ltb_ℤ low high

-- `start + prefix_t * prefix_rows + (temporal - prefix_t) * source_rows`, of positive counts.
abbrev pub expected_mixed : Counts → ℕ
expected_mixed c =
    pos_part c.start
    + pos_part c.prefix_t * pos_part c.prefix_rows
    + (pos_part c.temporal - pos_part c.prefix_t) * pos_part c.source_rows

abbrev pub expected_kv : Counts → ℕ
expected_kv c = pos_part c.start + pos_part c.temporal * pos_part c.source_rows

abbrev pub contract_of : Counts → List ℕ → Validated
contract_of c reps = record {
  video_start = pos_part c.start;
  temporal = pos_part c.temporal;
  prefix_t = pos_part c.prefix_t;
  source_rows_per_frame = pos_part c.source_rows;
  prefix_rows_per_frame = pos_part c.prefix_rows;
  expected_kv_rows = expected_kv c;
  representative_spatial_indices = reps;
}

module _ (ops : Arithmetic) where
  unfoldable pub check_counts : (external : Value) (q_rows kv_rows : ℕ) → Counts → Outcome Validated
  unfolding product_ℤ representative_spatial_indices
  check_counts external q_rows kv_rows c = do
    assert (int_eq (pos q_rows) c.sequence_rows && int_eq (pos kv_rows) c.sequence_rows)
        (error "Flow mixed-grid attention measure expects the unreduced mixed QKV domain")
    assert (ordered c.start (pos q_rows) && ordered c.prefix_t c.temporal)
        (error "Flow mixed-grid attention-measure temporal geometry is invalid")
    assert (int_eq c.source_rows (product_ℤ c.source_grid.0 c.source_grid.1))
        (error "Flow mixed-grid source grid does not match rows per frame")
    assert (int_eq c.prefix_rows (product_ℤ c.prefix_grid.0 c.prefix_grid.1))
        (error "Flow mixed-grid prefix grid does not match rows per frame")
    assert (ordered c.source_rows c.prefix_rows)
        (error "Flow mixed-grid attention measure requires a denser protected prefix")
    assert (expected_mixed c == q_rows && int_eq c.expected_kv_rows (pos (expected_kv c)))
        (error "Flow mixed-grid attention-measure row accounting is inconsistent")
    assert (py_eq (get "native_sequence_rows" external) (int (pos (expected_kv c))))
        (error "Flow mixed-grid attention-measure K/V rows must equal the native carrier sequence")
    reps ←
        representative_spatial_indices ops c.source_grid.0 c.source_grid.1 c.prefix_grid.0
          c.prefix_grid.1
    Outcome.ok (contract_of c reps)

  unfoldable pub validate_measure_contract :
      (measure external : Value) (q_rows kv_rows : ℕ) → Outcome Validated
  unfolding check_shape check_counts
  validate_measure_contract measure external q_rows kv_rows = do
    check_shape measure external
    check_counts external q_rows kv_rows (counts_of measure)
