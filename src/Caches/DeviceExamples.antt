-- ===== src/Caches/DeviceExamples.antt =====
-- Runs of the descriptor cache of sol_h3/mapped_neighbors.py, and of the ordered dictionary.
use comfy_ui_sol_h.Caches.DeviceDescriptor.{Device, Descriptors, stored_entry, device_descriptor}
use comfy_ui_sol_h.Caches.DeviceExact.{IsDescriptors, device_descriptor-exact}
use comfy_ui_sol_h.Caches.Lru.{Entry, Cache, IsBounded, empty_cache, lookup, store}
use comfy_ui_sol_h.MappedNeighbors.Examples.{shifted, shifted_plan, shifted_compiles, constant_sha}
use comfy_ui_sol_h.Base.{true, arith, ◌≡◌, ℕ, ◌∷◌, refl, false, ◌==◌, [], none, some}
use comfy_ui_sol_h.Py.Outcome.{ok}
use comfy_ui_sol_h.Caches.Hits.{store-lookup}

abbrev gpu : Device
gpu = record { is_cuda = true; name = "cuda:0" }

abbrev no_descriptors : Descriptors
no_descriptors = empty_cache

abbrev one_descriptor : Descriptors
one_descriptor = record { entries = stored_entry shifted_plan gpu ∷ []; bytes = 16 }

no_descriptors-IsDescriptors : IsDescriptors no_descriptors
no_descriptors-IsDescriptors = record {
  bounded = record { counted = refl; few = omega arith; small = omega arith };
  faithful = tt;
}

first_use :
    device_descriptor false shifted_plan gpu no_descriptors
    ≡ ok (shifted_plan.intervals, one_descriptor)
unfolding device_descriptor lookup store
first_use = refl

device_descriptor-exact_example :
    (shifted_plan.intervals ≡ shifted_plan.intervals) × IsDescriptors one_descriptor
device_descriptor-exact_example =
    device_descriptor-exact constant_sha false shifted shifted_plan gpu no_descriptors
      one_descriptor shifted_plan.intervals no_descriptors-IsDescriptors shifted_compiles first_use

abbrev full_cache : Cache ℕ ℕ
full_cache = record {
  entries =
      record { key = 1; value = 10; size = 4 } ∷ record { key = 2; value = 20; size = 4 } ∷ [];
  bytes = 8;
}

full_cache-IsBounded : IsBounded 2 10 full_cache
full_cache-IsBounded = record { counted = refl; few = omega arith; small = omega arith }

abbrev third_entry : Entry ℕ ℕ
third_entry = record { key = 3; value = 30; size = 4 }

no_third : lookup ◌==◌ 3 full_cache.entries ≡ none
unfolding lookup
no_third = refl

store-lookup_example :
    (d : Cache ℕ ℕ) × (store 2 10 third_entry full_cache ≡ some d)
    × (lookup ◌==◌ 3 d.entries ≡ some third_entry)
store-lookup_example =
    store-lookup ◌==◌ 2 10 3 third_entry full_cache (omega arith) (omega arith) full_cache-IsBounded
      refl no_third
