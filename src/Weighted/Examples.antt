-- ===== src/Weighted/Examples.antt =====
-- A process in which a provider dies and another gets its address, and a plan that is prepared twice.
use comfy_ui_sol_h.Py.Outcome.{Outcome}
use mathlib.Core.List.{Memᴰ}
use comfy_ui_sol_h.Base.{
  ℕ, ◌≢◌, ◌≡◌, String, some, ◌↔◌, suc, ◌∷◌, refl, zero, [], sym, arith, eq_iff, true,
}
use comfy_ui_sol_h.Weighted.Generations.{AreDistinct, owner_token_unique}
use comfy_ui_sol_h.Weighted.Owners.{
  Memory, owner_token, allocate, Process, empty_memory, release, born, died, asked, start,
}
use Prim.Native.Nat.{zero}
use comfy_ui_sol_h.Weighted.Plans.{
  MeasurePlan, Core, MeasureCall, Registry, Measures, provider_identity, capability,
}
use comfy_ui_sol_h.Weighted.Prepare.{prepare, plan_receipt_fields}
use comfy_ui_sol_h.Weighted.Bound.{Binds, IsShared, prepare-Binds}
use comfy_ui_sol_h.Receipts.History.{accept_weighted, sparse_profile}
use comfy_ui_sol_h.Py.{nothing, tuple, values, int}
use comfy_ui_sol_h.Weighted.Accepted.{mixed_weighted_route, prepare-accept_weighted}
use comfy_ui_sol_h.Base.Int.{pos}

abbrev two_tokens : ℕ → String
two_tokens zero = "0a"
two_tokens (suc n) = "1b"

first_differs : two_tokens 0 ≢ two_tokens 1
first_differs same = let equal = (eq_iff (two_tokens 0) (two_tokens 1)).1 same in cc

tokens-AreDistinct : AreDistinct two_tokens 2
tokens-AreDistinct zero zero i j e = refl
tokens-AreDistinct zero (suc n) i j e = absurd (first_differs e)
tokens-AreDistinct (suc m) zero i j e = absurd (first_differs (sym e))
tokens-AreDistinct (suc m) (suc n) i j e = omega arith

abbrev first : ℕ
first = 0

abbrev second : ℕ
second = 1

-- Object 0 is made at address 7 and gets a token.
abbrev first_asked : Memory
first_asked = (owner_token two_tokens 7 0 (allocate 7 empty_memory)).1

-- It dies, and object 1 is made at its address.
abbrev reused : Memory
reused = allocate 7 (release 7 first_asked)

reused-Process : Process two_tokens reused ((0, "0a") ∷ [])
unfolding owner_token
reused-Process = born 7 refl (died 7 (asked 7 0 refl (born 7 refl start)))

reused-alive : reused.live 7 ≡ some 1
unfolding owner_token
reused-alive = refl

reused-AreDistinct : AreDistinct two_tokens (owner_token two_tokens 7 1 reused).1.drawn
unfolding owner_token
reused-AreDistinct = tokens-AreDistinct

owner_token_unique_example : ("0a" ≡ (owner_token two_tokens 7 1 reused).0) ↔ (first ≡ second)
owner_token_unique_example =
    owner_token_unique two_tokens reused ((0, "0a") ∷ []) 7 1 reused-AreDistinct reused-Process
      reused-alive 0 "0a" (Memᴰ.head refl)

-- A core that plans every request in the same way.
abbrev made_plan : MeasurePlan ℕ
made_plan = record {
  owner_generation = "sol-h3-0a";
  semantic_digest = "d";
  implementation_profile = sparse_profile.0;
  numerical_route = sparse_profile.1;
  q_rows = 6;
  kv_rows = 6;
  exact_k_block_range = tuple (values (int (pos 0) ∷ int (pos 1) ∷ []));
  exact_range_digest = "r";
  preprocess_digest = "p";
  key_log_measure = 5;
}

abbrev made_core : Core ℕ
made_core = record {
  semantic_digest = λ request. Outcome.ok "d";
  bind = λ request context size profile. Outcome.ok made_plan;
  prepare_capability = λ options request context. Outcome.ok made_plan;
  validate_h3 = λ request layout q k external. Outcome.ok tt;
  merge_exact_k_blocks =
      λ request size sink. Outcome.ok (tuple (values (int (pos 0) ∷ int (pos 1) ∷ [])));
}

abbrev measure_call : MeasureCall
measure_call = record {
  block_index = 3;
  layout = nothing;
  q_rows = 6;
  kv_rows = 6;
  dtype = "torch.bfloat16";
  device = "cuda:0";
  head_dim = 128;
  existing_sink = tuple (values (int (pos 0) ∷ int (pos 1) ∷ []));
  external_sequence = nothing;
  preprocess_identity = "p";
  implementation_profile = sparse_profile.0;
  numerical_route = sparse_profile.1;
}

abbrev own_registry : Registry
own_registry =
    some ((provider_identity, capability (record { object = 0; generation = "sol-h3-0a" })) ∷ [])

-- Another buffer is bound to the digest and the device.
abbrev bound_measures : Measures ℕ
bound_measures = record { measure_plans = []; measure_biases = (("d", "cuda:0"), 9) ∷ [] }

abbrev shared_plan : MeasurePlan ℕ
shared_plan = record made_plan { key_log_measure = 9 }

abbrev after_first : Measures ℕ
after_first = (prepare (some made_core) own_registry nothing measure_call bound_measures).1

first_planned :
    prepare (some made_core) own_registry nothing measure_call bound_measures
    ≡ (Outcome.ok shared_plan, after_first)
unfolding prepare
first_planned = refl

first_planned-IsShared : IsShared after_first
unfolding prepare
first_planned-IsShared = ((refl, refl, refl), tt)

-- The second call finds the plan of the first.
prepare-Binds_example :
    Binds made_core own_registry nothing measure_call after_first
      (prepare (some made_core) own_registry nothing measure_call after_first)
prepare-Binds_example =
    prepare-Binds made_core own_registry nothing measure_call after_first first_planned-IsShared

prepare-accept_weighted_example :
    accept_weighted mixed_weighted_route (plan_receipt_fields shared_plan 2) ≡ true
prepare-accept_weighted_example =
    prepare-accept_weighted made_core own_registry nothing measure_call bound_measures after_first
      shared_plan 2 tt first_planned refl
      (record {
        generation = refl;
        digest = refl;
        range = refl;
        preprocess = refl;
        queries = refl;
        keys = refl;
      })
