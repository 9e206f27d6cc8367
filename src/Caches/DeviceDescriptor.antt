-- ===== src/Caches/DeviceDescriptor.antt =====
-- `device_descriptor` and `descriptor_cache_key` of sol_h3/mapped_neighbors.py: the interval tensors
-- that a request keeps on its devices. A tensor is the rows that it was made of. The streams of CUDA
-- are left out, all but the event that an entry must have there; `capturing` is
-- `torch.cuda.is_current_stream_capturing()`.
use comfy_ui_sol_h.Caches.Lru.{Entry, Cache, store, lookup, move_to_end}
use comfy_ui_sol_h.MappedNeighbors.Types.{
  Run, Interval, DescriptorPlan, max_cache_entries, max_device_cache_bytes,
}
use comfy_ui_sol_h.Py.Outcome.{
  Outcome, ok, ◌>>=◌, or_raise, raise_if, assert, mapping_unavailable, runtime_error, key_error,
  ◌>>◌,
}
use comfy_ui_sol_h.Base.{
  none, some, [], ◌∷◌, Bool, String, List, length, ℕ, true, str_eq, false, ◌*◌, not, Option, ◌==◌,
  ◌&&◌, ltb,
}

pub record Device : Type 0 where
  pub is_cuda : Bool
  pub name : String

-- The key, less the constant schema and policy.
pub record DescriptorKey : Type 0 where
  pub owner_generation : String
  pub plan_digest : String
  pub group_index : ℕ
  pub q_rows : ℕ
  pub kv_rows : ℕ
  pub sink_rows : ℕ
  pub runs : List Run
  pub device : String

unfoldable pub descriptor_cache_key : DescriptorPlan → Device → DescriptorKey
descriptor_cache_key plan device = record {
  owner_generation = plan.validated.owner_generation;
  plan_digest = plan.validated.plan_digest;
  group_index = plan.validated.group_index;
  q_rows = plan.validated.q_rows;
  kv_rows = plan.validated.kv_rows;
  sink_rows = plan.validated.sink_rows;
  runs = plan.validated.runs;
  device = device.name;
}

unfoldable pub same_runs : List Run → List Run → Bool
same_runs [] [] = true
same_runs (a ∷ as') (b ∷ bs) =
    (a.q_begin == b.q_begin)
    && (a.q_end == b.q_end)
    && (a.kv_begin == b.kv_begin)
    && same_runs as' bs
same_runs _ _ = false

unfoldable pub same_descriptor_key : DescriptorKey → DescriptorKey → Bool
unfolding same_runs
same_descriptor_key a b =
    (str_eq a.owner_generation b.owner_generation
      && str_eq a.plan_digest b.plan_digest
      && (a.group_index == b.group_index)
      && (a.sink_rows == b.sink_rows)
      && str_eq a.device b.device)
    && ((a.q_rows == b.q_rows) && ((a.kv_rows == b.kv_rows) && same_runs a.runs b.runs))

-- The intervals, and whether an event was recorded with them.
pub record Stored : Type 0 where
  pub tensor : List Interval
  pub event : Bool

abbrev pub Descriptors : Type 0
Descriptors = Cache DescriptorKey Stored

-- The tensor has two columns, unless it has no row at all.
abbrev pub two_columns : List Interval → Bool
two_columns [] = false
two_columns (i ∷ is') = true

abbrev pub stored_entry : DescriptorPlan → Device → Entry DescriptorKey Stored
stored_entry plan device = record {
  key = descriptor_cache_key plan device;
  value = record { tensor = plan.intervals; event = device.is_cuda };
  size = length plan.intervals * 2 * 4;
}

abbrev pub Given : Type 0
Given = List Interval × Descriptors

unfoldable pub keep_descriptor : DescriptorPlan → Device → Descriptors → Outcome Given
keep_descriptor plan device s = do
  kept ←
      or_raise (store max_cache_entries max_device_cache_bytes (stored_entry plan device) s)
        (key_error "dictionary is empty")
  ok (plan.intervals, kept)

unfoldable pub make_descriptor :
    (capturing : Bool) → DescriptorPlan → Device → Descriptors → Outcome Given
unfolding keep_descriptor
make_descriptor capturing plan device s =
    raise_if (device.is_cuda && capturing) (mapping_unavailable "backend")
    >> assert (two_columns plan.intervals)
        (runtime_error "mapped-neighbor descriptor tensor has an invalid shape")
    >> raise_if (ltb max_device_cache_bytes (length plan.intervals * 2 * 4))
        (mapping_unavailable "metadata_budget")
    >> keep_descriptor plan device s

abbrev pub same_bool : Bool → Bool → Bool
same_bool true b = b
same_bool false b = not b

unfoldable pub found_descriptor :
    (capturing : Bool)
    → DescriptorPlan
    → Device
    → Option (Entry DescriptorKey Stored)
    → Descriptors
    → Outcome Given
unfolding make_descriptor
found_descriptor capturing plan device (some hit) s =
    assert (same_bool device.is_cuda hit.value.event)
      (runtime_error "mapped-neighbor descriptor cache entry has the wrong stream event")
    >> ok
        (hit.value.tensor, move_to_end same_descriptor_key (descriptor_cache_key plan device) hit s)
found_descriptor capturing plan device none s = make_descriptor capturing plan device s

unfoldable pub device_descriptor :
    (capturing : Bool) → DescriptorPlan → Device → Descriptors → Outcome Given
unfolding found_descriptor
device_descriptor capturing plan device s =
    found_descriptor capturing plan device
      (lookup same_descriptor_key (descriptor_cache_key plan device) s.entries) s
