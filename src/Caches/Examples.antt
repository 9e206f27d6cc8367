-- ===== src/Caches/Examples.antt =====
-- Runs of the bias cache of sol_h3/partitioned_request.py on a small call.
use comfy_ui_sol_h.Caches.Bias.{
  BiasCall, BiasState, made_entry, key_bias, key_of, read_range, same_key,
}
use comfy_ui_sol_h.Caches.Weighs.{IsBiasState, Weighs, key_bias-Weighs}
use comfy_ui_sol_h.Base.{some, [], ◌∷◌, String, List, arith, ℕ, true, refl, false, ◌≡◌, ◌+◌}
use comfy_ui_sol_h.Py.{tuple, cons, nil, int, finite, Float, whole, float_eq, is_finite, float_lt}
use comfy_ui_sol_h.Base.Int.{pos}
use comfy_ui_sol_h.Caches.Lru.{empty_cache, lookup, store, move_to_end}
use comfy_ui_sol_h.Py.Outcome.{ok}
use comfy_ui_sol_h.Py.Text.{digest_text}

abbrev some_digest : String
some_digest = "0123456789abcdef0123456789abcdef0123456789abcdef0123456789abcdef"

abbrev minus_one : Float
minus_one = finite true 1 1074

abbrev minus_two : Float
minus_two = finite true 2 1074

-- A coarse rounding: downwards by one.
abbrev rounded : Float → Float
rounded (finite s m e) = finite s (m + 1) e
rounded f = f

abbrev weighed_call : BiasCall
weighed_call = record {
  kv_rows = 3;
  prefix_range = tuple (cons (int (pos 1)) (cons (int (pos 2)) nil));
  log_measure = minus_one;
  device = "cuda:0";
  semantic_digest = some_digest;
}

abbrev fresh_state : BiasState
fresh_state = record { cache = empty_cache; unit_measure_calls = 0 }

abbrev used_state : BiasState
used_state = record {
  cache = record { entries = made_entry rounded (key_of weighed_call (1, 2)) ∷ []; bytes = 12 };
  unit_measure_calls = 0;
}

abbrev some_bias : List Float
some_bias = whole 0 ∷ minus_two ∷ whole 0 ∷ []

fresh_state-IsBiasState : IsBiasState rounded fresh_state
fresh_state-IsBiasState = record {
  bounded = record { counted = refl; few = omega arith; small = omega arith };
  exact = tt;
}

first_call : key_bias rounded false weighed_call fresh_state ≡ ok (some some_bias, used_state)
unfolding key_bias is_finite float_lt digest_text float_eq lookup store
first_call = refl

-- The second call finds the entry.
second_call : key_bias rounded false weighed_call used_state ≡ ok (some some_bias, used_state)
unfolding key_bias is_finite float_lt digest_text float_eq lookup same_key move_to_end
second_call = refl

key_bias-Weighs_example :
    IsBiasState rounded used_state
    × (r : ℕ × ℕ) × (read_range weighed_call.prefix_range 3 ≡ ok r)
    × (m : Float) × (float_eq m minus_one ≡ true)
    × Weighs some_bias 3 r.0 r.1 (rounded m)
key_bias-Weighs_example =
    key_bias-Weighs rounded false weighed_call fresh_state used_state some_bias
      fresh_state-IsBiasState first_call
