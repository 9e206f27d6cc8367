-- ===== src/MappedNeighbors/Refines.antt =====
-- `validate_wire_map` and `compile_descriptor` of sol_h3/mapped_neighbors.py with the plan cache of a
-- request, against the same functions on a cold cache.
use comfy_ui_sol_h.Py.{is_primitive, Value, all_primitive, values, py_eq, py_eq-eq}
use comfy_ui_sol_h.Base.{
  List, Bool, String, ◌≡◌, Option, true, map, and_intro, ◌∷◌, ==-refl, refl, eq_refl, sym, ℕ, [],
  ap, All-append, length, some, ◌∙◌, subst, none, length-append, ◌++◌, arith,
}
use comfy_ui_sol_h.MappedNeighbors.PlanCache.{
  same_validated, validated_cache_key, all_same_run, Planned, Compiled, cache_store,
  validate_wire_map, plan_key, PlanCache, safe_wire_cache_key, store_validated, find_plan,
  validate_keyed, uncompiled, validate_found, without_plan, touch_plan,
}
use comfy_ui_sol_h.MappedNeighbors.Types.{Run, ValidatedMap, Result}
use comfy_ui_sol_h.Caches.DeviceDescriptor.{same_bool}
use comfy_ui_sol_h.MappedNeighbors.Wire.{validate_cold, run_value}
use comfy_ui_sol_h.MappedNeighbors.Transparent.{
  IsPlanned, component, CompiledFrom, IsPlanCache, trim_plans-All, find_plan-found,
  safe_wire_cache_key-some, without_plan-All, trim_plans-few,
}
use mathlib.Core.Bool.{false}
use mathlib.Core.List.{[]}
use mathlib.Core.Option.{none}

run_values-primitive : (rs : List Run) → all_primitive (values (map run_value rs)) ≡ true
unfolding is_primitive
run_values-primitive [] = refl
run_values-primitive (r ∷ rs) = run_values-primitive rs

pub validated_cache_key-primitive : (v : ValidatedMap) → is_primitive (validated_cache_key v) ≡ true
unfolding is_primitive
validated_cache_key-primitive v = and_intro (and_intro (run_values-primitive v.runs) refl) refl

all_same_run_refl : (rs : List Run) → all_same_run rs rs ≡ true
all_same_run_refl [] = refl
all_same_run_refl (r ∷ rs) =
    and_intro (and_intro (and_intro (==-refl r.q_begin) (==-refl r.q_end)) (==-refl r.kv_begin))
      (all_same_run_refl rs)

same_bool_refl : (b : Bool) → same_bool b b ≡ true
same_bool_refl true = refl
same_bool_refl false = refl

pub same_validated_refl : (v : ValidatedMap) → same_validated v v ≡ true
unfolding same_validated
same_validated_refl v =
    and_intro
      (and_intro
        (and_intro
          (and_intro
            (and_intro
              (and_intro
                (and_intro (and_intro (eq_refl v.owner_generation) (eq_refl v.plan_digest))
                  (==-refl v.group_index))
                (==-refl v.q_rows))
              (==-refl v.kv_rows))
            (==-refl v.sink_rows))
          (all_same_run_refl v.runs))
        (eq_refl v.map_digest))
      (same_bool_refl v.identity_aligned)

module _ (sha256_json : Value → String) where
  cold_at : Value → Result ValidatedMap
  cold_at key =
      validate_cold sha256_json (component 0 key) (component 1 key) (component 2 key)
        (component 3 key)

  -- What was found under an equal key is the cold answer for that key.
  pub found-answer :
      (e : Planned) (value q kv sink : Value)
      → IsPlanned sha256_json e
      → is_primitive (plan_key value q kv sink) ≡ true
      → py_eq e.key (plan_key value q kv sink) ≡ true
      → validate_cold sha256_json value q kv sink ≡ Result.ok e.validated
  unfolding cold_at
  found-answer e value q kv sink planned primitive same =
      let key = plan_key value q kv sink in
      let eq = py_eq-eq e.key key planned.primitive primitive same in
      sym (ap cold_at (sym planned.keyed ∙ eq)) ∙ planned.answered

  pub entry-IsPlanned :
      (v : ValidatedMap) (d : Compiled) (value q kv sink key : Value)
      → plan_key value q kv sink ≡ key
      → is_primitive key ≡ true
      → validate_cold sha256_json value q kv sink ≡ Result.ok v
      → CompiledFrom sha256_json v d
      → IsPlanned sha256_json (record { key = key; validated = v; descriptor = d })
  entry-IsPlanned v d value q kv sink key eq primitive answered described = record {
    value = value;
    q_rows = q;
    kv_rows = kv;
    sink_rows = sink;
    keyed = sym eq;
    primitive = primitive;
    answered = answered;
    described = described;
  }

  pub stored-IsPlanCache :
      (key : Value) (v : ValidatedMap) (d : Compiled) (cache : PlanCache)
      → IsPlanCache sha256_json cache
      → IsPlanned sha256_json (record { key = key; validated = v; descriptor = d })
      → IsPlanCache sha256_json (cache_store key v d cache)
  unfolding cache_store
  stored-IsPlanCache key v d cache h new = record {
    planned = trim_plans-All (IsPlanned sha256_json) _ (
        All-append (IsPlanned sha256_json) (without_plan key cache) _
          (without_plan-All (IsPlanned sha256_json) key cache h.planned) (new, tt));
    few =
        trim_plans-few
          (without_plan key cache ++ (record { key = key; validated = v; descriptor = d } ∷ []));
  }

  pub touched-IsPlanCache :
      (key : Value) (e : Planned) (cache : PlanCache)
      → IsPlanCache sha256_json cache
      → ℕ.suc (length (without_plan key cache)) ≡ length cache
      → IsPlanned sha256_json (record e { key = key })
      → IsPlanCache sha256_json (touch_plan key e cache)
  touched-IsPlanCache key e cache h size new =
      let few = h.few in
      let long = length-append (without_plan key cache) (record e { key = key } ∷ []) in
      record {
        planned =
            All-append (IsPlanned sha256_json) (without_plan key cache) _
              (without_plan-All (IsPlanned sha256_json) key cache h.planned) (new, tt);
        few = omega arith;
      }

  -- The answer of a cold cache, and a cache that is still one.
  abbrev pub Validates : Result ValidatedMap → Result ValidatedMap × PlanCache → Type 0
  Validates cold r = (r.0 ≡ cold) × IsPlanCache sha256_json r.1

  store_validated-Validates :
      (value q kv sink key : Value) (r : Result ValidatedMap) (cache : PlanCache)
      → plan_key value q kv sink ≡ key
      → is_primitive key ≡ true
      → IsPlanCache sha256_json cache
      → validate_cold sha256_json value q kv sink ≡ r
      → Validates r (store_validated sha256_json key r cache)
  store_validated-Validates value q kv sink key (Result.ok v) cache eq primitive h answered = (
    refl,
    stored-IsPlanCache key v uncompiled cache h
        (entry-IsPlanned v uncompiled value q kv sink key eq primitive answered tt),
  )
  store_validated-Validates value q kv sink key (Result.unavailable reason) cache eq primitive h
        answered =
      (refl, h)

  found-Validates :
      (value q kv sink key : Value) (o : Option Planned) (cache : PlanCache)
      → plan_key value q kv sink ≡ key
      → is_primitive key ≡ true
      → IsPlanCache sha256_json cache
      → find_plan key cache ≡ o
      → Validates
          (validate_cold sha256_json value q kv sink)
          (validate_found sha256_json value q kv sink key o cache)
  found-Validates value q kv sink key none cache eq primitive h found =
      store_validated-Validates value q kv sink key (validate_cold sha256_json value q kv sink)
        cache eq primitive h refl
  found-Validates value q kv sink key (some e) cache eq primitive h found =
      let (planned, same, size) =
        find_plan-found (IsPlanned sha256_json) key cache e h.planned found in
      let answered =
        found-answer e value q kv sink planned
          (subst (λ k. is_primitive k ≡ true) (sym eq) primitive)
          (subst (λ k. py_eq e.key k ≡ true) (sym eq) same) in
      (
        sym answered,
        touched-IsPlanCache key e cache h size (
            entry-IsPlanned e.validated e.descriptor value q kv sink key eq primitive answered
              planned.described),
      )

  keyed-Validates :
      (value q kv sink : Value) (o : Option Value) (cache : PlanCache)
      → safe_wire_cache_key value q kv sink ≡ o
      → IsPlanCache sha256_json cache
      → Validates
          (validate_cold sha256_json value q kv sink)
          (validate_keyed sha256_json value q kv sink o cache)
  keyed-Validates value q kv sink none cache e h = (refl, h)
  keyed-Validates value q kv sink (some key) cache e h =
      let (eq, primitive) = safe_wire_cache_key-some value q kv sink key e in
      found-Validates value q kv sink key (find_plan key cache) cache eq primitive h refl

  -- With any cache that this code has filled, `validate_wire_map` answers what it answers on a cold
  -- one, the reason of a refusal included, and leaves such a cache, of at most 64 entries.
  pub validate_wire_map-Validates :
      (value q kv sink : Value) (cache : PlanCache)
      → IsPlanCache sha256_json cache
      → Validates
          (validate_cold sha256_json value q kv sink)
          (validate_wire_map sha256_json value q kv sink cache)
  unfolding validate_wire_map
  validate_wire_map-Validates value q kv sink cache h =
      keyed-Validates value q kv sink (safe_wire_cache_key value q kv sink) cache refl h
