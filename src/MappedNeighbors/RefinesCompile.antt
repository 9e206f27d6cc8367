-- ===== src/MappedNeighbors/RefinesCompile.antt =====
-- `compile_descriptor` of sol_h3/mapped_neighbors.py with the plan cache of a request, and the two
-- functions together over the calls of a request.
use comfy_ui_sol_h.Py.Outcome.{Outcome}
use comfy_ui_sol_h.Py.{Value}
use comfy_ui_sol_h.Base.{
  String, Option, List, ◌≡◌, map, refl, subst, sym, ap, some, ◌∙◌, true, if-true, none, ◌∷◌, ap₂,
  [],
}
use comfy_ui_sol_h.MappedNeighbors.Types.{Result, ValidatedMap, DescriptorPlan}
use comfy_ui_sol_h.MappedNeighbors.PlanCache.{
  compile_descriptor, WireCall, compile_wire, compile_wires, PlanCache, cold_wire, Answer,
  cold_compiled, validate_wire_map, Compiled, store_compiled, Planned, find_plan, compile_answer,
  validated_cache_key, compiled, compile_hit, compile_found, same_validated, touch_plan, uncompiled,
}
use comfy_ui_sol_h.MappedNeighbors.Wire.{validate_cold}
use comfy_ui_sol_h.MappedNeighbors.Wire.Accepts.{encode, validate_cold_iff}
use comfy_ui_sol_h.MappedNeighbors.Transparent.{
  IsPlanCache, CompiledFrom, IsPlanned, find_plan-found,
}
use comfy_ui_sol_h.Receipts.Publish.{rows}
use comfy_ui_sol_h.MappedNeighbors.Descriptor.{compile_cold}
use comfy_ui_sol_h.MappedNeighbors.Refines.{
  validate_wire_map-Validates, stored-IsPlanCache, entry-IsPlanned, validated_cache_key-primitive,
  found-answer, same_validated_refl, touched-IsPlanCache,
}
use comfy_ui_sol_h.MappedNeighbors.Wire.Sound.{ok-eq}
use mathlib.Core.Option.{none}
use mathlib.Core.List.{[]}

module _ (sha256_json : Value → String) where
  abbrev Compiles : Result (Option DescriptorPlan) → Answer sha256_json → Type 0
  Compiles cold r = (r.0 ≡ Outcome.ok cold) × IsPlanCache sha256_json r.1

  -- An accepted map is accepted again in its own encoding.
  accepted-again :
      (value q kv sink : Value) (v : ValidatedMap)
      → validate_cold sha256_json value q kv sink ≡ Result.ok v
      → validate_cold sha256_json (encode v) (rows v.q_rows) (rows v.kv_rows) (rows v.sink_rows)
        ≡ Result.ok v
  accepted-again value q kv sink v h =
      let well = ((validate_cold_iff sha256_json value q kv sink v).0 h).0 in
      (validate_cold_iff sha256_json (encode v) (rows v.q_rows) (rows v.kv_rows) (rows v.sink_rows)
          v).1
        (well, refl, refl, refl, refl)

  module _ (v : ValidatedMap)
      (accepted : validate_cold sha256_json
          (encode v)
          (rows v.q_rows)
          (rows v.kv_rows)
          (rows v.sink_rows)
        ≡ Result.ok v) where
    compiled-IsPlanned :
        (d : Compiled)
        → CompiledFrom sha256_json v d
        → IsPlanned sha256_json
            (record { key = validated_cache_key v; validated = v; descriptor = d })
    compiled-IsPlanned d described =
        entry-IsPlanned sha256_json v d (encode v) (rows v.q_rows) (rows v.kv_rows)
          (rows v.sink_rows) (validated_cache_key v) refl (validated_cache_key-primitive v) accepted
          described

    store_compiled-Compiles :
        (r : Result (Option DescriptorPlan)) (cache : PlanCache)
        → IsPlanCache sha256_json cache
        → compile_cold sha256_json v ≡ r
        → Compiles r (store_compiled sha256_json v r cache)
    store_compiled-Compiles (Result.ok d) cache h e = (
      refl,
      stored-IsPlanCache sha256_json (validated_cache_key v) v (compiled d) cache h
          (compiled-IsPlanned (compiled d) e),
    )
    store_compiled-Compiles (Result.unavailable reason) cache h e = (refl, h)

    compile_hit-Compiles :
        (d : Compiled) (cache : PlanCache)
        → IsPlanCache sha256_json cache
        → CompiledFrom sha256_json v d
        → Compiles (compile_cold sha256_json v) (compile_hit sha256_json v d cache)
    compile_hit-Compiles uncompiled cache h e =
        store_compiled-Compiles (compile_cold sha256_json v) cache h refl
    compile_hit-Compiles (compiled d) cache h e = (ap Outcome.ok (sym e), h)

    compile_found-Compiles :
        (o : Option Planned) (cache : PlanCache)
        → IsPlanCache sha256_json cache
        → find_plan (validated_cache_key v) cache ≡ o
        → Compiles (compile_cold sha256_json v) (compile_found sha256_json v o cache)
    compile_found-Compiles none cache h found =
        store_compiled-Compiles (compile_cold sha256_json v) cache h refl
    compile_found-Compiles (some e) cache h found =
        let key = validated_cache_key v in
        let (planned, same, size) =
          find_plan-found (IsPlanned sha256_json) key cache e h.planned found in
        let answered =
          found-answer sha256_json e (encode v) (rows v.q_rows) (rows v.kv_rows) (rows v.sink_rows)
            planned (validated_cache_key-primitive v) same in
        let own = ok-eq v e.validated (sym accepted ∙ answered) in
        let described =
          subst (λ z. CompiledFrom sha256_json z e.descriptor) (sym own) planned.described in
        let equal = subst (λ z. same_validated z v ≡ true) own (same_validated_refl v) in
        let touched = touched-IsPlanCache sha256_json key e cache h size (
          subst
            (λ z.
              IsPlanned sha256_json
                (record { key = key; validated = z; descriptor = e.descriptor }))
            own (compiled-IsPlanned e.descriptor described)) in
        subst (Compiles (compile_cold sha256_json v))
          (sym (if-true (same_validated e.validated v) _ _ equal))
          (compile_hit-Compiles e.descriptor (touch_plan key e cache) touched described)

  -- For an accepted map and any cache that this code has filled, `compile_descriptor` answers what
  -- it answers on a cold cache; in particular it never finds that the cached map has changed.
  pub compile_descriptor-Compiles :
      (value q kv sink : Value) (v : ValidatedMap) (cache : PlanCache)
      → IsPlanCache sha256_json cache
      → validate_cold sha256_json value q kv sink ≡ Result.ok v
      → Compiles (compile_cold sha256_json v) (compile_descriptor sha256_json v cache)
  unfolding compile_descriptor
  compile_descriptor-Compiles value q kv sink v cache h accepted =
      compile_found-Compiles v (accepted-again value q kv sink v accepted)
        (find_plan (validated_cache_key v) cache) cache h refl

  compile_answer-Compiles :
      (c : WireCall) (r : Result ValidatedMap) (cache : PlanCache)
      → IsPlanCache sha256_json cache
      → validate_cold sha256_json c.value c.q_rows c.kv_rows c.sink_rows ≡ r
      → Compiles (cold_compiled sha256_json r) (compile_answer sha256_json (r, cache))
  compile_answer-Compiles c (Result.ok v) cache h e =
      compile_descriptor-Compiles c.value c.q_rows c.kv_rows c.sink_rows v cache h e
  compile_answer-Compiles c (Result.unavailable reason) cache h e = (refl, h)

  compile_wire-Compiles :
      (c : WireCall) (cache : PlanCache)
      → IsPlanCache sha256_json cache
      → Compiles (cold_wire sha256_json c) (compile_wire sha256_json c cache)
  unfolding compile_wire cold_wire
  compile_wire-Compiles c cache h =
      let got = validate_wire_map sha256_json c.value c.q_rows c.kv_rows c.sink_rows cache in
      let (same, kept) =
        validate_wire_map-Validates sha256_json c.value c.q_rows c.kv_rows c.sink_rows cache h in
      subst (λ r. Compiles (cold_compiled sha256_json r) (compile_answer sha256_json got)) same
        (compile_answer-Compiles c got.0 got.1 kept (sym same))

  -- The calls of a request are answered as if there were no cache, however they repeat and whatever
  -- has been evicted.
  pub compile_wires-cold :
      (calls : List WireCall) (cache : PlanCache)
      → IsPlanCache sha256_json cache
      → compile_wires sha256_json calls cache
        ≡ map (λ c. Outcome.ok (cold_wire sha256_json c)) calls
  unfolding compile_wires
  compile_wires-cold [] cache h = refl
  compile_wires-cold (c ∷ cs) cache h =
      let (same, kept) = compile_wire-Compiles c cache h in
      ap₂ ◌∷◌ same (compile_wires-cold cs (compile_wire sha256_json c cache).1 kept)
