-- ===== src/MappedNeighbors/Transparent.antt =====
-- The plan cache of sol_h3/mapped_neighbors.py does not show in what `validate_wire_map` and
-- `compile_descriptor` answer.
use comfy_ui_sol_h.Base.{
  ℕ, List, String, Bool, ◌≡◌, All, length, true, all, some, ◌∷◌, ◌≤◌, and_intro, Bool-cases, suc,
  inl, ltb, refl, [], ◌&&◌, zero, inr, arith, some-eq, and_true, sym, if-true, ◌∙◌, subst, if-false,
  some≢none, ap,
}
use comfy_ui_sol_h.Py.{
  Value, is_primitive, tuple, is_str, is_int, Values, nothing, items, py_eq, str, int,
  all_primitive, cons, nil,
}
use comfy_ui_sol_h.MappedNeighbors.PlanCache.{
  Planned, trim_plans, find_plan, fits, is_safe_wire, safe_wire_cache_key, PlanCache, is_run,
  is_runs, plan_key, Compiled, without_plan, wire_kinds, compiled, max_cpu_plan_cache_entries,
  uncompiled,
}
use comfy_ui_sol_h.MappedNeighbors.Types.{ValidatedMap, Result}
use comfy_ui_sol_h.MappedNeighbors.Wire.{validate_cold}
use Prim.Native.Nat.{zero}
use comfy_ui_sol_h.MappedNeighbors.Descriptor.{compile_cold}

abbrev pub at : ℕ → List Value → Value
at i [] = nothing
at zero (x ∷ xs) = x
at (suc i) (x ∷ xs) = at i xs

abbrev pub component : ℕ → Value → Value
component i (tuple xs) = at i (items xs)
component i _ = nothing

module _ (sha256_json : Value → String) where
  abbrev pub CompiledFrom : ValidatedMap → Compiled → Type 0
  CompiledFrom v uncompiled = Unit
  CompiledFrom v (compiled d) = compile_cold sha256_json v ≡ Result.ok d

  -- An entry holds what the cold functions answer for its key.
  pub record IsPlanned (e : Planned) : Type 0 where
    pub value : Value
    pub q_rows : Value
    pub kv_rows : Value
    pub sink_rows : Value
    pub keyed : e.key ≡ plan_key value q_rows kv_rows sink_rows
    pub primitive : is_primitive e.key ≡ true
    pub answered : validate_cold sha256_json value q_rows kv_rows sink_rows ≡ Result.ok e.validated
    pub described : CompiledFrom e.validated e.descriptor

  -- Every entry does, and there are at most 64.
  pub record IsPlanCache (cache : PlanCache) : Type 0 where
    pub planned : All IsPlanned cache
    pub few : length cache ≤ max_cpu_plan_cache_entries

pub without_plan-All :
    (P : Planned → Type 0) (key : Value) (cache : PlanCache)
    → All P cache
    → All P (without_plan key cache)
without_plan-All P key [] h = tt
without_plan-All P key (e ∷ es) (h, hs) = elim (Bool-cases (py_eq e.key key)) [
  | inl same ↦ rw same hs
  | inr other ↦ rw other (h, without_plan-All P key es hs)
]

pub trim_plans-All :
    (P : Planned → Type 0) (cache : PlanCache) → All P cache → All P (trim_plans cache)
unfolding trim_plans
trim_plans-All P [] h = tt
trim_plans-All P (e ∷ es) (h, hs) =
    elim (Bool-cases (ltb max_cpu_plan_cache_entries (length (e ∷ es)))) [
      | inl over ↦ rw over (trim_plans-All P es hs)
      | inr fine ↦ rw fine (h, hs)
    ]

pub trim_plans-few : (cache : PlanCache) → length (trim_plans cache) ≤ max_cpu_plan_cache_entries
unfolding trim_plans
trim_plans-few [] = omega arith
trim_plans-few (e ∷ es) = let rest = trim_plans-few es in ground arith

pub find_plan-found :
    (P : Planned → Type 0) (key : Value) (cache : PlanCache) (e : Planned)
    → All P cache
    → find_plan key cache ≡ some e
    → P e × (py_eq e.key key ≡ true) × (ℕ.suc (length (without_plan key cache)) ≡ length cache)
unfolding find_plan
find_plan-found P key [] e h f = cc
find_plan-found P key (x ∷ es) e (h, hs) f = elim (Bool-cases (py_eq x.key key)) [
  | inl same ↦
      let own =
        some-eq x e (sym (if-true (py_eq x.key key) (some x) (find_plan key es) same) ∙ f) in
      (subst P own h, subst (λ z. py_eq z.key key ≡ true) own same, rw same refl)
  | inr other ↦
      let (p, q, r) =
        find_plan-found P key es e hs
          (sym (if-false (py_eq x.key key) (some x) (find_plan key es) other) ∙ f) in
      (p, q, rw other (ap ℕ.suc r))
]

is_str-primitive : (v : Value) → is_str v ≡ true → is_primitive v ≡ true
unfolding is_primitive
is_str-primitive (str s) h = refl
is_str-primitive _ h = cc

is_int-primitive : (v : Value) → is_int v ≡ true → is_primitive v ≡ true
unfolding is_primitive
is_int-primitive (int s) h = refl
is_int-primitive _ h = cc

-- A test that only primitive values pass.
abbrev Primitive : (Value → Bool) → Type 0
Primitive p = (v : Value) → p v ≡ true → is_primitive v ≡ true

fitting_items :
    (ps : List (Value → Bool)) (xs : Values)
    → All Primitive ps
    → fits ps (items xs) ≡ true
    → all_primitive xs ≡ true
unfolding fits is_primitive
fitting_items [] nil h f = refl
fitting_items [] (cons x xs) h f = cc
fitting_items (p ∷ ps) nil h f = cc
fitting_items (p ∷ ps) (cons x xs) (h, hs) f =
    let (now, later) = and_true (p x) (fits ps (items xs)) f in
    and_intro (h x now) (fitting_items ps xs hs later)

is_run-primitive : (v : Value) → is_run v ≡ true → is_primitive v ≡ true
unfolding is_primitive
is_run-primitive (tuple xs) h =
    fitting_items (is_int ∷ is_int ∷ is_int ∷ []) xs
      (is_int-primitive, (is_int-primitive, (is_int-primitive, tt))) h
is_run-primitive _ h = cc

all_runs-primitive : (xs : Values) → all is_run (items xs) ≡ true → all_primitive xs ≡ true
unfolding is_primitive
all_runs-primitive nil h = refl
all_runs-primitive (cons x xs) h =
    let (now, later) = and_true (is_run x) (all is_run (items xs)) h in
    and_intro (is_run-primitive x now) (all_runs-primitive xs later)

is_runs-primitive : (v : Value) → is_runs v ≡ true → is_primitive v ≡ true
unfolding is_primitive
is_runs-primitive (tuple xs) h = all_runs-primitive xs h
is_runs-primitive _ h = cc

is_safe_wire-primitive : (v : Value) → is_safe_wire v ≡ true → is_primitive v ≡ true
unfolding is_safe_wire is_primitive
is_safe_wire-primitive (tuple xs) h =
    fitting_items wire_kinds xs
      (
        is_str-primitive,
        (
          is_int-primitive,
          (
            is_str-primitive,
            (
              is_str-primitive,
              (
                is_int-primitive,
                (is_int-primitive, (is_int-primitive, (is_int-primitive, (is_runs-primitive, tt)))),
              ),
            ),
          ),
        ),
      )
      h
is_safe_wire-primitive _ h = cc

pub plan_key-primitive :
    (value q kv sink : Value)
    → is_primitive value ≡ true
    → is_int q ≡ true
    → is_int kv ≡ true
    → is_int sink ≡ true
    → is_primitive (plan_key value q kv sink) ≡ true
unfolding is_primitive
plan_key-primitive value q kv sink h a b c = and_intro h (
    and_intro (is_int-primitive q a)
      (and_intro (is_int-primitive kv b) (and_intro (is_int-primitive sink c) refl)))

-- A key is given only to a wire that is made of texts and integers.
pub safe_wire_cache_key-some :
    (value q kv sink key : Value)
    → safe_wire_cache_key value q kv sink ≡ some key
    → (plan_key value q kv sink ≡ key) × (is_primitive key ≡ true)
unfolding safe_wire_cache_key
safe_wire_cache_key-some value q kv sink key h =
    elim (Bool-cases (is_safe_wire value && (is_int q && is_int kv && is_int sink))) [
      | inl safe ↦
          let own = some-eq (plan_key value q kv sink) key (sym (if-true _ _ _ safe) ∙ h) in
          let (wire, counts) = and_true (is_safe_wire value) _ safe in
          let (both, c) = and_true (is_int q && is_int kv) (is_int sink) counts in
          let (a, b) = and_true (is_int q) (is_int kv) both in
          (
            own,
            subst (λ k. is_primitive k ≡ true) own
                (plan_key-primitive value q kv sink (is_safe_wire-primitive value wire) a b c),
          )
      | inr unsafe ↦ absurd (some≢none (sym h ∙ if-false _ _ _ unsafe))
    ]
