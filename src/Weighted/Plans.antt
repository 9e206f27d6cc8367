-- ===== src/Weighted/Plans.antt =====
-- What `prepare` of sol_h3/weighted_measure.py is called with and keeps in the two dictionaries of a
-- request, and `Capability.prepare`. The module `comfy.attention_measure` is a parameter.
use comfy_ui_sol_h.Py.Outcome.{Outcome, assert, runtime_error, or_raise, ◌>>◌, ◌>>=◌}
use comfy_ui_sol_h.Base.{
  String, ℕ, Option, Bool, List, if◌then◌else◌, none, some, ⊤, str_eq, false, ◌∷◌, [], ◌&&◌, ◌==◌,
}
use comfy_ui_sol_h.Py.{Value, py_eq}
use comfy_ui_sol_h.Receipts.History.{sparse_profile, dense_profile}
use mathlib.Core.List.{[]}

abbrev pub provider_identity : String
provider_identity = "comfy.sol_h3.sm120"

-- `_ROUTE_PROFILES.get(route)`
abbrev pub route_profile : String → Option String
route_profile route =
    if str_eq route sparse_profile.1
    then some sparse_profile.0
    else if str_eq route dense_profile.1
    then some dense_profile.0
    else none

-- A `ProviderOwner`, with the number of the object that it is.
pub record Owner : Type 0 where
  pub object : ℕ
  pub generation : String

-- What a registry holds under a provider's identity: a `Capability` of this module, or another's.
pub data Registered : Type 0 where
  capability : Owner → Registered
  foreign : Registered

-- The registry of the transformer options, `none` if it is missing or no dictionary.
abbrev pub Registry : Type 0
Registry = Option (List (String × Registered))

abbrev pub registered_under : String → List (String × Registered) → Option Registered
registered_under name [] = none
registered_under name ((key, r) ∷ rest) =
    if str_eq key name then some r else registered_under name rest

abbrev own_capability : Option Registered → Option Owner
own_capability (some (capability owner)) = some owner
own_capability _ = none

abbrev pub owner_in : Registry → Option Owner
owner_in none = none
owner_in (some entries) = own_capability (registered_under provider_identity entries)

-- `MeasureExecutionContext`. The element type and the device are their texts.
pub record Context : Type 0 where
  pub context_identity : String
  pub block_index : ℕ
  pub owner : Owner
  pub layout : Value
  pub q_rows : ℕ
  pub kv_rows : ℕ
  pub dtype : String
  pub device : String
  pub head_dim : ℕ
  pub preprocess_digest : String
  pub numerical_route : String
  pub existing_sink : Value
  pub external_sequence : Value

pub record MeasurePlan (B : Type 0) : Type 0 where
  pub owner_generation : String
  pub semantic_digest : String
  pub implementation_profile : String
  pub numerical_route : String
  pub q_rows : ℕ
  pub kv_rows : ℕ
  pub exact_k_block_range : Value
  pub exact_range_digest : String
  pub preprocess_digest : String
  pub key_log_measure : B

-- What the code takes from `comfy.attention_measure`.
pub record Core (B : Type 0) : Type 0 where
  pub semantic_digest : Value → Outcome String
  pub bind :
      (request : Value) (context : Context) (block_size : ℕ) (implementation_profile : String)
      → Outcome (MeasurePlan B)
  pub prepare_capability : Registry → (request : Value) → Context → Outcome (MeasurePlan B)
  pub validate_h3 :
      (request layout : Value) (q_rows kv_rows : ℕ) (external_sequence : Value) → Outcome ⊤
  pub merge_exact_k_blocks :
      (request : Value) (block_size : ℕ) (existing_sink : Value) → Outcome Value

-- `Capability.prepare`, which `core.prepare_capability` calls.
unfoldable pub capability_prepare :
    {B : Type 0} → Core B → Owner → (request : Value) → Context → Outcome (MeasurePlan B)
capability_prepare core owner request context = do
  assert (context.owner.object == owner.object)
      (runtime_error "Sol-H3 attention-measure capability is bound to another owner")
  assert (str_eq context.context_identity provider_identity)
      (runtime_error "Sol-H3 attention-measure provider identity changed during binding")
  profile ←
      or_raise (route_profile context.numerical_route)
        (runtime_error "Sol-H3 attention-measure numerical route is not capability-bound")
  core.bind request context 64 profile

-- The key of a plan.
pub record PlanKey : Type 0 where
  pub digest : String
  pub block : ℕ
  pub q_rows : ℕ
  pub kv_rows : ℕ
  pub device : String
  pub dtype : String
  pub head_dim : ℕ
  pub existing_sink : Value
  pub preprocess : String
  pub generation : String
  pub profile : String
  pub route : String

unfoldable pub same_plan_key : PlanKey → PlanKey → Bool
same_plan_key a b =
    str_eq a.digest b.digest
    && (str_eq a.device b.device
        && (str_eq a.profile b.profile
            && (str_eq a.route b.route
                && (a.block == b.block
                    && (a.q_rows == b.q_rows
                        && (a.kv_rows == b.kv_rows
                            && (str_eq a.dtype b.dtype
                                && (a.head_dim == b.head_dim
                                    && (py_eq a.existing_sink b.existing_sink
                                        && (str_eq a.preprocess b.preprocess
                                            && str_eq a.generation b.generation))))))))))

-- `measure_plans` and `measure_biases` of a request. A key of the second is a digest and a device.
pub record Measures (B : Type 0) : Type 0 where
  pub measure_plans : List (PlanKey × MeasurePlan B)
  pub measure_biases : List ((String × String) × B)

-- The arguments of `prepare` that are not the request's own.
pub record MeasureCall : Type 0 where
  pub block_index : ℕ
  pub layout : Value
  pub q_rows : ℕ
  pub kv_rows : ℕ
  pub dtype : String
  pub device : String
  pub head_dim : ℕ
  pub existing_sink : Value
  pub external_sequence : Value
  pub preprocess_identity : String
  pub implementation_profile : String
  pub numerical_route : String

abbrev pub context_of : MeasureCall → Owner → Context
context_of call owner = record {
  context_identity = provider_identity;
  block_index = call.block_index;
  owner = owner;
  layout = call.layout;
  q_rows = call.q_rows;
  kv_rows = call.kv_rows;
  dtype = call.dtype;
  device = call.device;
  head_dim = call.head_dim;
  preprocess_digest = call.preprocess_identity;
  numerical_route = call.numerical_route;
  existing_sink = call.existing_sink;
  external_sequence = call.external_sequence;
}

abbrev pub plan_key_of : MeasureCall → Owner → (digest : String) → PlanKey
plan_key_of call owner digest = record {
  digest = digest;
  block = call.block_index;
  q_rows = call.q_rows;
  kv_rows = call.kv_rows;
  device = call.device;
  dtype = call.dtype;
  head_dim = call.head_dim;
  existing_sink = call.existing_sink;
  preprocess = call.preprocess_identity;
  generation = owner.generation;
  profile = call.implementation_profile;
  route = call.numerical_route;
}

abbrev pub same_profile : Option String → String → Bool
same_profile none profile = false
same_profile (some expected) profile = str_eq expected profile

module _ {B : Type 0} where
  unfoldable pub plan_at : PlanKey → List (PlanKey × MeasurePlan B) → Option (MeasurePlan B)
  unfolding same_plan_key
  plan_at key [] = none
  plan_at key ((k, plan) ∷ rest) = if same_plan_key k key then some plan else plan_at key rest

  unfoldable pub bias_at : (digest device : String) → List ((String × String) × B) → Option B
  bias_at digest device [] = none
  bias_at digest device (((a, b), bias) ∷ rest) =
      if str_eq a digest && str_eq b device then some bias else bias_at digest device rest

  -- The plan is stored, with the buffer that its digest and device already have; one that has it
  -- already is left as it is.
  abbrev pub keep_plan :
      PlanKey → MeasurePlan B → Option B → Measures B → Outcome (MeasurePlan B) × Measures B
  keep_plan key plan none s = (
    Outcome.ok plan,
    record {
      measure_plans = (key, plan) ∷ s.measure_plans;
      measure_biases = ((key.digest, key.device), plan.key_log_measure) ∷ s.measure_biases;
    },
  )
  keep_plan key plan (some shared) s = (
    Outcome.ok (record plan { key_log_measure = shared }),
    record s { measure_plans = (key, record plan { key_log_measure = shared }) ∷ s.measure_plans },
  )
