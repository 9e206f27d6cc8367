-- ===== src/MappedNeighbors/Examples.antt =====
-- A map of 70 query rows in two runs over 300 key rows, and the theorems at it.
use comfy_ui_sol_h.Py.Outcome.{Outcome}
use comfy_ui_sol_h.MappedNeighbors.Types.{Run, ValidatedMap, Interval, DescriptorPlan, ok}
use comfy_ui_sol_h.MappedNeighbors.Wire.Accepts.{
  validate_cold_iff, validate_cold-position, encode, IsWellFormed, natural_value, Accepted,
}
use comfy_ui_sol_h.MappedNeighbors.Descriptor.Exact.{
  compile_cold-IsDescriptor, compile_cold-none, IsDescriptor,
}
use comfy_ui_sol_h.Base.{
  String, List, false, ◌∷◌, arith, ℕ, [], ◌≡◌, refl, true, some, none, ◌↔◌, ◌<◌, map,
}
use comfy_ui_sol_h.Py.{Value}
use comfy_ui_sol_h.Py.Text.{digest_text}
use comfy_ui_sol_h.MappedNeighbors.Descriptor.{compile_cold}
use comfy_ui_sol_h.MappedNeighbors.Wire.{validate_cold}
use comfy_ui_sol_h.MappedNeighbors.Wire.Runs.{position}
use comfy_ui_sol_h.MappedNeighbors.Intervals.{covers, merge_block_intervals, covers-merge}
use comfy_ui_sol_h.MappedNeighbors.PlanCache.{WireCall, compile_wires, cold_wire, validate_wire_map}
use comfy_ui_sol_h.MappedNeighbors.Transparent.{IsPlanCache}
use comfy_ui_sol_h.MappedNeighbors.Refines.{Validates, validate_wire_map-Validates}
use comfy_ui_sol_h.MappedNeighbors.RefinesCompile.{compile_wires-cold}

abbrev pub hex : String
hex = "0123456789abcdef0123456789abcdef0123456789abcdef0123456789abcdef"

-- A digest that is the same for all values.
abbrev pub constant_sha : Value → String
constant_sha v = hex

abbrev pub two_runs : List Run
two_runs =
    record { q_begin = 0; q_end = 64; kv_begin = 10 }
    ∷ record { q_begin = 64; q_end = 70; kv_begin = 200 }
    ∷ []

abbrev pub shifted : ValidatedMap
shifted = record {
  owner_generation = "vdn";
  plan_digest = hex;
  group_index = 2;
  q_rows = 70;
  kv_rows = 300;
  sink_rows = 5;
  runs = two_runs;
  map_digest = hex;
  identity_aligned = false;
}

-- Every row at the key row of its own number.
abbrev straight : ValidatedMap
straight = record shifted {
  kv_rows = 70;
  runs = record { q_begin = 0; q_end = 70; kv_begin = 0 } ∷ [];
  identity_aligned = true;
}

hex_digest : digest_text hex ≡ true
unfolding digest_text
hex_digest = refl

shifted-IsWellFormed : IsWellFormed constant_sha shifted
shifted-IsWellFormed = record {
  owner_named = refl;
  plan_digested = hex_digest;
  group_fits = omega arith;
  q_positive = omega arith;
  q_fits = omega arith;
  kv_positive = omega arith;
  kv_fits = omega arith;
  sink_fits = omega arith;
  covered = omega arith;
  identity = refl;
  digested = refl;
}

straight-IsWellFormed : IsWellFormed constant_sha straight
straight-IsWellFormed = record {
  owner_named = refl;
  plan_digested = hex_digest;
  group_fits = omega arith;
  q_positive = omega arith;
  q_fits = omega arith;
  kv_positive = omega arith;
  kv_fits = omega arith;
  sink_fits = omega arith;
  covered = omega arith;
  identity = refl;
  digested = refl;
}

abbrev pub shifted_plan : DescriptorPlan
shifted_plan = record {
  validated = shifted;
  intervals = record { start = 0; stop = 3 } ∷ record { start = 2; stop = 5 } ∷ [];
  descriptor_digest = hex;
}

pub shifted_compiles : compile_cold constant_sha shifted ≡ ok (some shifted_plan)
unfolding compile_cold
shifted_compiles = refl

straight_compiles : compile_cold constant_sha straight ≡ ok none
unfolding compile_cold
straight_compiles = refl

shifted_valid :
    validate_cold constant_sha
      (encode shifted)
      (natural_value 70)
      (natural_value 300)
      (natural_value 5)
    ≡ ok shifted
shifted_valid =
    (validate_cold_iff constant_sha (encode shifted) (natural_value 70) (natural_value 300)
        (natural_value 5) shifted).1
      (shifted-IsWellFormed, refl, refl, refl, refl)

validate_cold_iff_example :
    (validate_cold constant_sha
        (encode shifted)
        (natural_value 70)
        (natural_value 300)
        (natural_value 5)
      ≡ ok shifted)
    ↔ Accepted constant_sha
        (encode shifted)
        (natural_value 70)
        (natural_value 300)
        (natural_value 5)
        shifted
validate_cold_iff_example =
    validate_cold_iff constant_sha (encode shifted) (natural_value 70) (natural_value 300)
      (natural_value 5) shifted

validate_cold-position_example :
    (p : ℕ) × (s : ℕ) × (position two_runs 3 ≡ some p)
    × (position two_runs 66 ≡ some s)
    × (p < s)
    × (s < 300)
validate_cold-position_example =
    validate_cold-position constant_sha (encode shifted) (natural_value 70) (natural_value 300)
      (natural_value 5) shifted 3 66 shifted_valid (omega arith) (omega arith)

compile_cold-IsDescriptor_example : IsDescriptor constant_sha shifted shifted_plan
compile_cold-IsDescriptor_example =
    compile_cold-IsDescriptor constant_sha shifted shifted_plan shifted-IsWellFormed
      shifted_compiles

compile_cold-none_example : position straight.runs 65 ≡ some 65
compile_cold-none_example =
    compile_cold-none constant_sha straight 65 straight-IsWellFormed straight_compiles (omega arith)

abbrev loose : List Interval
loose = record { start = 4; stop = 6 } ∷ record { start = 0; stop = 5 } ∷ []

covers-merge_example : covers 5 (merge_block_intervals loose) ≡ covers 5 loose
covers-merge_example = covers-merge 5 loose

abbrev shifted_call : WireCall
shifted_call = record {
  value = encode shifted;
  q_rows = natural_value 70;
  kv_rows = natural_value 300;
  sink_rows = natural_value 5;
}

empty-IsPlanCache : IsPlanCache constant_sha []
empty-IsPlanCache = record { planned = tt; few = omega arith }

validate_wire_map-Validates_example :
    Validates constant_sha
      (validate_cold constant_sha
        (encode shifted)
        (natural_value 70)
        (natural_value 300)
        (natural_value 5))
      (validate_wire_map constant_sha
        (encode shifted)
        (natural_value 70)
        (natural_value 300)
        (natural_value 5)
        [])
validate_wire_map-Validates_example =
    validate_wire_map-Validates constant_sha (encode shifted) (natural_value 70) (natural_value 300)
      (natural_value 5) [] empty-IsPlanCache

-- The second call finds the plan of the first.
compile_wires-cold_example :
    compile_wires constant_sha (shifted_call ∷ shifted_call ∷ []) []
    ≡ map (λ c. Outcome.ok (cold_wire constant_sha c)) (shifted_call ∷ shifted_call ∷ [])
compile_wires-cold_example =
    compile_wires-cold constant_sha (shifted_call ∷ shifted_call ∷ []) [] empty-IsPlanCache
