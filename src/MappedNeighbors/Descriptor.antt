-- ===== src/MappedNeighbors/Descriptor.antt =====
-- `compile_descriptor` of sol_h3/mapped_neighbors.py on a cold cache: the exact neighbours of each
-- tile of 64 query rows, as one interval of blocks of 64 key rows.
pub mod Neighbors
pub mod Exact
use comfy_ui_sol_h.Base.{
  ℕ, zero, suc, List, [], ◌∷◌, ◌+◌, max, if◌then◌else◌, min, String, ◌-◌, leb, ◌*◌, Option, ◌/◌,
  ltb, map, none, some,
}
use comfy_ui_sol_h.Py.{Value, dict, entry, end, str, int, list, tuple, cons, nil, values}
use comfy_ui_sol_h.MappedNeighbors.Types.{
  Interval, Run, Result, ValidatedMap, ok, block_size, policy, DescriptorPlan, ◌>>◌, ◌>>=◌, guard,
  fragmented, max_interval_width, interval_width, unavailable,
}
use comfy_ui_sol_h.MappedNeighbors.Intervals.{merge_block_intervals}
use comfy_ui_sol_h.Base.Int.{pos}

-- The blocks beside those that hold the key rows of a run's part between two query rows.
unfoldable pub run_range : (k_blocks overlap_begin overlap_end : ℕ) → Run → Interval
run_range k_blocks overlap_begin overlap_end r =
    let first_position = r.kv_begin + overlap_begin - r.q_begin in
    let last_position = r.kv_begin + overlap_end - r.q_begin - 1 in
    let first_block = first_position / block_size in
    let last_block = last_position / block_size in
    record { start = max 0 (first_block - 1); stop = min k_blocks (last_block + 2) }

-- The inner loop, from the first run that is not used up.
unfoldable pub selected_ranges : (k_blocks tile_q_begin tile_q_end : ℕ) → List Run → List Interval
unfolding run_range
selected_ranges k_blocks lo hi [] = []
selected_ranges k_blocks lo hi (r ∷ rs) =
    let rest = selected_ranges k_blocks lo hi rs in
    let overlap_begin = max lo r.q_begin in
    let overlap_end = min hi r.q_end in
    if leb hi r.q_begin
    then []
    else if ltb overlap_begin overlap_end
    then run_range k_blocks overlap_begin overlap_end r ∷ rest
    else rest

-- `while run_index < len(runs) and runs[run_index][1] <= tile_q_begin: run_index += 1`, on the runs
-- from `run_index` on.
unfoldable pub advance : ℕ → List Run → List Run
advance lo [] = []
advance lo (r ∷ rs) = let rest = advance lo rs in if leb r.q_end lo then rest else r ∷ rs

-- A tile's ranges make one interval that is neither empty nor too wide.
unfoldable pub single_interval : List Interval → Result Interval
single_interval (i ∷ []) = do
  guard (ltb i.start i.stop) fragmented
  guard (leb (i.stop - i.start) max_interval_width) interval_width
  ok i
single_interval _ = unavailable fragmented

unfoldable pub tile_end : (q_rows tile : ℕ) → ℕ
tile_end q_rows tile = min q_rows (tile * block_size + block_size)

unfoldable pub tile_interval : (q_rows k_blocks tile : ℕ) → List Run → Result Interval
unfolding single_interval selected_ranges merge_block_intervals tile_end
tile_interval q_rows k_blocks tile rs =
    single_interval (
      merge_block_intervals
        (selected_ranges k_blocks (tile * block_size) (tile_end q_rows tile) rs))

-- The tiles from `tile` on, `count` of them.
unfoldable pub compile_tiles : (q_rows k_blocks count tile : ℕ) → List Run → Result (List Interval)
unfolding advance tile_interval
compile_tiles q_rows k_blocks zero tile rs = ok []
compile_tiles q_rows k_blocks (suc count) tile rs = do
  let ahead = advance (tile * block_size) rs
  i ← tile_interval q_rows k_blocks tile ahead
  rest ← compile_tiles q_rows k_blocks count (tile + 1) ahead
  ok (i ∷ rest)

abbrev pub blocks : ℕ → ℕ
blocks rows = (rows + block_size - 1) / block_size

abbrev interval_value : Interval → Value
interval_value i = tuple (cons (int (pos i.start)) (cons (int (pos i.stop)) nil))

pub descriptor_payload : ValidatedMap → List Interval → Value
descriptor_payload v is' = dict (
    entry "policy" (str policy) (
      entry "map_digest" (str v.map_digest) (
        entry "q_rows" (int (pos v.q_rows)) (
          entry "kv_rows" (int (pos v.kv_rows))
            (entry "intervals" (list (values (map interval_value is'))) end)))))

module _ (sha256_json : Value → String) where
  -- A map that is not aligned with the identity.
  unfoldable pub compile_moved : ValidatedMap → Result (Option DescriptorPlan)
  unfolding compile_tiles descriptor_payload
  compile_moved v = do
    is' ← compile_tiles v.q_rows (blocks v.kv_rows) (blocks v.q_rows) 0 v.runs
    ok (
        some (record {
          validated = v;
          intervals = is';
          descriptor_digest = sha256_json (descriptor_payload v is');
        }))

  unfoldable pub compile_cold : ValidatedMap → Result (Option DescriptorPlan)
  unfolding compile_moved
  compile_cold v = if v.identity_aligned then ok none else compile_moved v
