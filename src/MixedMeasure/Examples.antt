-- ===== src/MixedMeasure/Examples.antt =====
-- A gather of sol_h3/mixed_measure.py over two prefix frames of nine rows, of which four are kept,
-- and one frame after them; a contract of the same rows; K and V of one batch and two heads.
use comfy_ui_sol_h.PartitionedRequest.Tensors.{Tensor, bfloat16}
use comfy_ui_sol_h.Py.Outcome.{Outcome, assert, ◌>>◌, runtime_error}
use comfy_ui_sol_h.MixedMeasure.Gather.{Validated, distinct, kv_gather_indices}
use comfy_ui_sol_h.Base.{
  List, ◌∷◌, ℕ, [], arith, refl, ◌≡◌, length, true, All, ◌<◌, Bool, ltb, ◌&&◌, and_intro, lt→ltb,
  if◌then◌else◌,
}
use comfy_ui_sol_h.MixedMeasure.Rows.{IsContract, kv_gather_indices-returns}
use comfy_ui_sol_h.MixedMeasure.Representatives.{
  representative_spatial_indices, Arithmetic, axis_coordinates, nearest,
}
use comfy_ui_sol_h.Base.Int.{pos}
use comfy_ui_sol_h.Py.{
  whole, float_eq, float_lt, Entries, Value, entry, dict, py_eq, int, str, end, bool,
}
use comfy_ui_sol_h.MixedMeasure.Nearest.{
  IsRepresentatives, representative_spatial_indices-IsRepresentatives,
}
use comfy_ui_sol_h.MixedMeasure.Contract.{validate_measure_contract}
use comfy_ui_sol_h.MixedMeasure.Accounted.{validate_measure_contract-gathers}
use comfy_ui_sol_h.MixedMeasure.Reduce.{
  token_rows, Selects, matching_kv, reduce_kv, reduced, reduce_kv-returns,
}

abbrev contract : Validated
contract = record {
  video_start = 3;
  temporal = 3;
  prefix_t = 2;
  source_rows_per_frame = 4;
  prefix_rows_per_frame = 9;
  expected_kv_rows = 15;
  representative_spatial_indices = 0 ∷ 2 ∷ 6 ∷ 8 ∷ [];
}

contract-IsContract : IsContract contract
unfolding distinct
contract-IsContract = record {
  prefix = omega arith;
  chosen = refl;
  unique = refl;
  within = (
    (omega arith, omega arith),
    ((omega arith, omega arith), ((omega arith, omega arith), ((omega arith, omega arith), tt))),
  );
  accounted = refl;
}

kv_gather_indices-returns_example :
    (indices : List ℕ) × (kv_gather_indices contract ≡ Outcome.ok indices)
    × (length indices ≡ 15)
    × (distinct indices ≡ true)
    × All (λ row. row < 25) indices
kv_gather_indices-returns_example = kv_gather_indices-returns contract contract-IsContract

-- Coordinates that are the indices, at a distance of zero or one.
abbrev index_arithmetic : Arithmetic
index_arithmetic = record {
  of_int = whole;
  add = λ a b. a;
  subtract = λ a b. if float_eq a b then whole 0 else whole 1;
  multiply = λ a b. a;
  divide = λ a b. a;
  sqrt = λ a. a;
  abs = λ a. a;
}

abbrev corners : List ℕ
corners = 0 ∷ 1 ∷ 3 ∷ 4 ∷ []

corner_rows :
    representative_spatial_indices index_arithmetic (pos 2) (pos 2) (pos 3) (pos 3)
    ≡ Outcome.ok corners
unfolding representative_spatial_indices axis_coordinates nearest float_eq float_lt distinct
corner_rows = refl

representative_spatial_indices-IsRepresentatives_example :
    (h : ℕ) × (w : ℕ) × (ph : ℕ) × (pw : ℕ) × ((pos 2 ≡ pos h)
      × (pos 2 ≡ pos w)
      × (pos 3 ≡ pos ph)
      × (pos 3 ≡ pos pw))
    × IsRepresentatives index_arithmetic h w ph pw corners
representative_spatial_indices-IsRepresentatives_example =
    representative_spatial_indices-IsRepresentatives index_arithmetic (pos 2) (pos 2) (pos 3)
      (pos 3) corners corner_rows

abbrev count_entries_of : Entries → Entries
count_entries_of rest = entry "video_start" (int (pos 3)) (
    entry "sequence_rows" (int (pos 25)) (
      entry "temporal" (int (pos 3)) (
        entry "prefix_t" (int (pos 2)) (
          entry "source_rows_per_frame" (int (pos 4))
            (entry "prefix_rows_per_frame" (int (pos 9)) rest)))))

abbrev flow_measure : Value
flow_measure = dict (
    entry "api" (int (pos 1)) (
      entry "mode" (str "prefix_kv_stratified_subsample") (
        entry "exact_prefix_queries_preserved" (bool true) (
          entry "suffix_kv_unchanged" (bool true) (
            entry "source_grid_h" (int (pos 2)) (
              entry "source_grid_w" (int (pos 2)) (
                entry "prefix_grid_h" (int (pos 3)) (
                  entry "prefix_grid_w" (int (pos 3))
                    (entry "expected_kv_rows" (int (pos 15)) (count_entries_of end))))))))))

abbrev external_sequence : Value
external_sequence =
    dict (
      entry "api" (int (pos 2))
        (entry "native_sequence_rows" (int (pos 15)) (count_entries_of end)))

abbrev flow_contract : Validated
flow_contract = record contract { representative_spatial_indices = corners }

flow_measure-returns :
    validate_measure_contract index_arithmetic flow_measure external_sequence 25 25
    ≡ Outcome.ok flow_contract
unfolding validate_measure_contract representative_spatial_indices axis_coordinates nearest float_eq
    float_lt distinct py_eq
flow_measure-returns = refl

validate_measure_contract-gathers_example :
    (indices : List ℕ) × (kv_gather_indices flow_contract ≡ Outcome.ok indices)
    × (length indices ≡ 15)
    × (distinct indices ≡ true)
    × All (λ row. row < 25) indices
validate_measure_contract-gathers_example =
    validate_measure_contract-gathers index_arithmetic flow_measure external_sequence 25 25
      flow_contract flow_measure-returns

abbrev all_below : ℕ → List ℕ → Bool
all_below n [] = true
all_below n (i ∷ is') = ltb i n && all_below n is'

all_below-true : (n : ℕ) (is' : List ℕ) → All (λ i. i < n) is' → all_below n is' ≡ true
all_below-true n [] h = refl
all_below-true n (i ∷ is') (h, hs) = and_intro (lt→ltb i n h) (all_below-true n is' hs)

-- As many rows as indices, or an error if one of them is out of range.
abbrev selected_rows : Tensor ℕ → List ℕ → Tensor ℕ
selected_rows t indices = record t {
  layout = record t.layout { shape = 1 ∷ 2 ∷ length indices ∷ 128 ∷ [] };
}

abbrev select_rows : Tensor ℕ → List ℕ → Outcome (Tensor ℕ)
select_rows t indices =
    assert (all_below (token_rows t) indices) (runtime_error "index out of range in self")
    >> Outcome.ok (selected_rows t indices)

select_rows-Selects : Selects select_rows
select_rows-Selects t indices fits =
    (selected_rows t indices, rw (all_below-true (token_rows t) indices fits) refl, refl)

abbrev measured : Tensor ℕ
measured = record {
  layout = record {
    shape = 1 ∷ 2 ∷ 25 ∷ 128 ∷ [];
    strides = 6400 ∷ 3200 ∷ 128 ∷ 1 ∷ [];
    dtype = bfloat16;
  };
  device = record { is_cuda = true; name = "cuda:0" };
  contents = 0;
}

measured-matching : matching_kv measured.layout.shape measured.layout.shape ≡ true
unfolding matching_kv
measured-matching = refl

reduce_kv-returns_example :
    (indices : List ℕ) × (kv_gather_indices contract ≡ Outcome.ok indices)
    × (reduced_k : Tensor ℕ) × (select_rows measured indices ≡ Outcome.ok reduced_k)
    × (reduced_v : Tensor ℕ) × (select_rows measured indices ≡ Outcome.ok reduced_v)
    × (reduce_kv select_rows measured measured contract
        ≡ Outcome.ok (reduced measured measured reduced_k reduced_v (length indices)))
reduce_kv-returns_example =
    reduce_kv-returns select_rows measured measured contract select_rows-Selects contract-IsContract
      measured-matching refl
