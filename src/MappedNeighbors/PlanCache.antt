-- ===== src/MappedNeighbors/PlanCache.antt =====
-- The plan cache of a request in front of `validate_wire_map` and `compile_descriptor` of
-- sol_h3/mapped_neighbors.py: `_safe_wire_cache_key`, `_validated_cache_key`, `_cache_store`. An
-- ordered dictionary is the list of its entries, the oldest first.
use comfy_ui_sol_h.Base.{
  Option, List, ℕ, Bool, if◌then◌else◌, none, ◌∷◌, ◌++◌, String, all, ◌&&◌, ltb, [], ◌==◌, str_eq,
  true, false, some, length,
}
use comfy_ui_sol_h.Py.{Value, tuple, is_int, is_str, items, cons, py_eq, str, nil}
use comfy_ui_sol_h.MappedNeighbors.Types.{ValidatedMap, Run, DescriptorPlan, Result, policy}
use comfy_ui_sol_h.MappedNeighbors.Wire.Accepts.{encode}
use comfy_ui_sol_h.Receipts.Publish.{rows}
use comfy_ui_sol_h.Py.Outcome.{Outcome, runtime_error}
use comfy_ui_sol_h.MappedNeighbors.Descriptor.{compile_cold}
use comfy_ui_sol_h.Caches.DeviceDescriptor.{same_bool}
use comfy_ui_sol_h.MappedNeighbors.Wire.{validate_cold}

-- `_UNCOMPILED`, or what `compile_descriptor` has returned.
pub data Compiled : Type 0 where
  uncompiled : Compiled
  compiled : Option DescriptorPlan → Compiled

pub record Planned : Type 0 where
  pub key : Value
  pub validated : ValidatedMap
  pub descriptor : Compiled

abbrev pub PlanCache : Type 0
PlanCache = List Planned

abbrev pub max_cpu_plan_cache_entries : ℕ
max_cpu_plan_cache_entries = 64

-- One test for each item.
unfoldable pub fits : List (Value → Bool) → List Value → Bool
fits [] [] = true
fits (p ∷ ps) (x ∷ xs) = p x && fits ps xs
fits _ _ = false

abbrev pub is_run : Value → Bool
is_run (tuple xs) = fits (is_int ∷ is_int ∷ is_int ∷ []) (items xs)
is_run _ = false

abbrev pub is_runs : Value → Bool
is_runs (tuple xs) = all is_run (items xs)
is_runs _ = false

-- The kinds of the nine items of a wire tuple.
abbrev pub wire_kinds : List (Value → Bool)
wire_kinds = is_str ∷ is_int ∷ is_str ∷ is_str ∷ is_int ∷ is_int ∷ is_int ∷ is_int ∷ is_runs ∷ []

unfoldable pub is_safe_wire : Value → Bool
unfolding fits
is_safe_wire (tuple xs) = fits wire_kinds (items xs)
is_safe_wire _ = false

abbrev pub plan_key : (value q_rows kv_rows sink_rows : Value) → Value
plan_key value q_rows kv_rows sink_rows =
    tuple (cons value (cons q_rows (cons kv_rows (cons sink_rows (cons (str policy) nil)))))

-- `_safe_wire_cache_key`
unfoldable pub safe_wire_cache_key : (value q_rows kv_rows sink_rows : Value) → Option Value
unfolding is_safe_wire
safe_wire_cache_key value q_rows kv_rows sink_rows =
    if is_safe_wire value && (is_int q_rows && is_int kv_rows && is_int sink_rows)
    then some (plan_key value q_rows kv_rows sink_rows)
    else none

-- `_validated_cache_key`
abbrev pub validated_cache_key : ValidatedMap → Value
validated_cache_key v = plan_key (encode v) (rows v.q_rows) (rows v.kv_rows) (rows v.sink_rows)

unfoldable pub find_plan : Value → PlanCache → Option Planned
find_plan key [] = none
find_plan key (e ∷ es) = if py_eq e.key key then some e else find_plan key es

abbrev pub without_plan : Value → PlanCache → PlanCache
without_plan key [] = []
without_plan key (e ∷ es) = if py_eq e.key key then es else e ∷ without_plan key es

-- `popitem(last=False)` as long as there are too many.
unfoldable pub trim_plans : PlanCache → PlanCache
trim_plans [] = []
trim_plans (e ∷ es) =
    let rest = trim_plans es in
    if ltb max_cpu_plan_cache_entries (length (e ∷ es)) then rest else e ∷ es

-- `_cache_store`
unfoldable pub cache_store : Value → ValidatedMap → Compiled → PlanCache → PlanCache
unfolding trim_plans
cache_store key v d cache =
    trim_plans
      (without_plan key cache ++ (record { key = key; validated = v; descriptor = d } ∷ []))

-- `cache[key] = cache.pop(key)` for the entry that was found.
abbrev pub touch_plan : Value → Planned → PlanCache → PlanCache
touch_plan key e cache = without_plan key cache ++ (record e { key = key } ∷ [])

-- `==` of two validated maps.
abbrev pub same_run : Run → Run → Bool
same_run a b = a.q_begin == b.q_begin && a.q_end == b.q_end && a.kv_begin == b.kv_begin

abbrev pub all_same_run : List Run → List Run → Bool
all_same_run [] [] = true
all_same_run (a ∷ as') (b ∷ bs) = same_run a b && all_same_run as' bs
all_same_run _ _ = false

unfoldable pub same_validated : ValidatedMap → ValidatedMap → Bool
same_validated a b =
    str_eq a.owner_generation b.owner_generation
    && str_eq a.plan_digest b.plan_digest
    && a.group_index == b.group_index
    && a.q_rows == b.q_rows
    && a.kv_rows == b.kv_rows
    && a.sink_rows == b.sink_rows
    && all_same_run a.runs b.runs
    && str_eq a.map_digest b.map_digest
    && same_bool a.identity_aligned b.identity_aligned

module _ (sha256_json : Value → String) where
  abbrev pub store_validated :
      Value → Result ValidatedMap → PlanCache → Result ValidatedMap × PlanCache
  store_validated key (Result.ok v) cache = (Result.ok v, cache_store key v uncompiled cache)
  store_validated key (Result.unavailable reason) cache = (Result.unavailable reason, cache)

  abbrev pub validate_found :
      (value q_rows kv_rows sink_rows key : Value)
      → Option Planned
      → PlanCache
      → Result ValidatedMap × PlanCache
  validate_found value q_rows kv_rows sink_rows key (some e) cache =
      (Result.ok e.validated, touch_plan key e cache)
  validate_found value q_rows kv_rows sink_rows key none cache =
      store_validated key (validate_cold sha256_json value q_rows kv_rows sink_rows) cache

  abbrev pub validate_keyed :
      (value q_rows kv_rows sink_rows : Value)
      → Option Value
      → PlanCache
      → Result ValidatedMap × PlanCache
  validate_keyed value q_rows kv_rows sink_rows none cache =
      (validate_cold sha256_json value q_rows kv_rows sink_rows, cache)
  validate_keyed value q_rows kv_rows sink_rows (some key) cache =
      validate_found value q_rows kv_rows sink_rows key (find_plan key cache) cache

  -- `validate_wire_map` inside a request.
  unfoldable pub validate_wire_map :
      (value q_rows kv_rows sink_rows : Value) → PlanCache → Result ValidatedMap × PlanCache
  unfolding safe_wire_cache_key find_plan cache_store
  validate_wire_map value q_rows kv_rows sink_rows cache =
      validate_keyed value q_rows kv_rows sink_rows
        (safe_wire_cache_key value q_rows kv_rows sink_rows) cache

  abbrev pub Answer : Type 0
  Answer = Outcome (Result (Option DescriptorPlan)) × PlanCache

  abbrev pub store_compiled : ValidatedMap → Result (Option DescriptorPlan) → PlanCache → Answer
  store_compiled v (Result.ok d) cache =
      (Outcome.ok (Result.ok d), cache_store (validated_cache_key v) v (compiled d) cache)
  store_compiled v (Result.unavailable reason) cache =
      (Outcome.ok (Result.unavailable reason), cache)

  abbrev pub compile_hit : ValidatedMap → Compiled → PlanCache → Answer
  compile_hit v (compiled d) cache = (Outcome.ok (Result.ok d), cache)
  compile_hit v uncompiled cache = store_compiled v (compile_cold sha256_json v) cache

  abbrev pub compile_found : ValidatedMap → Option Planned → PlanCache → Answer
  compile_found v none cache = store_compiled v (compile_cold sha256_json v) cache
  compile_found v (some e) cache =
      if same_validated e.validated v
      then compile_hit v e.descriptor (touch_plan (validated_cache_key v) e cache)
      else (
        Outcome.raise (runtime_error "Sol mapped CPU plan cache identity changed"),
        touch_plan (validated_cache_key v) e cache,
      )

  -- `compile_descriptor` inside a request.
  unfoldable pub compile_descriptor : ValidatedMap → PlanCache → Answer
  unfolding same_validated find_plan cache_store
  compile_descriptor v cache = compile_found v (find_plan (validated_cache_key v) cache) cache

-- The arguments of one `validate_wire_map`.
pub record WireCall : Type 0 where
  pub value : Value
  pub q_rows : Value
  pub kv_rows : Value
  pub sink_rows : Value

module _ (sha256_json : Value → String) where
  -- A map that is accepted is compiled, as `_descriptor_for_wire` does.
  abbrev pub compile_answer : Result ValidatedMap × PlanCache → Answer sha256_json
  compile_answer (Result.ok v, cache) = compile_descriptor sha256_json v cache
  compile_answer (Result.unavailable reason, cache) =
      (Outcome.ok (Result.unavailable reason), cache)

  unfoldable pub compile_wire : WireCall → PlanCache → Answer sha256_json
  unfolding validate_wire_map compile_descriptor
  compile_wire c cache =
      compile_answer (validate_wire_map sha256_json c.value c.q_rows c.kv_rows c.sink_rows cache)

  -- The answers of a request to its calls, one after another.
  unfoldable pub compile_wires :
      List WireCall → PlanCache → List (Outcome (Result (Option DescriptorPlan)))
  unfolding compile_wire
  compile_wires [] cache = []
  compile_wires (c ∷ cs) cache =
      (compile_wire c cache).0 ∷ compile_wires cs (compile_wire c cache).1

  abbrev pub cold_compiled : Result ValidatedMap → Result (Option DescriptorPlan)
  cold_compiled (Result.ok v) = compile_cold sha256_json v
  cold_compiled (Result.unavailable reason) = Result.unavailable reason

  -- The same with no cache.
  unfoldable pub cold_wire : WireCall → Result (Option DescriptorPlan)
  cold_wire c = cold_compiled (validate_cold sha256_json c.value c.q_rows c.kv_rows c.sink_rows)
