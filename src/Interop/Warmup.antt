-- ===== src/Interop/Warmup.antt =====
-- `dense_evaluation_warmup` and `_flow_progressive_high_continuation` of sol_h3/interop.py.
use comfy_ui_sol_h.Base.{Bool, ℕ, true, false, ltb, ◌&&◌, not, ◌==◌}
use comfy_ui_sol_h.Py.{Value, bool, dict, str, int, float, get, py_eq, whole}
use comfy_ui_sol_h.Contracts.Config.{Config}
use comfy_ui_sol_h.Base.Int.{pos}

abbrev pub is_dict : Value → Bool
is_dict (dict es) = true
is_dict _ = false

-- `v is True`
abbrev pub is_true : Value → Bool
is_true (bool b) = b
is_true _ = false

-- The options ask for the high stage of a progressive run that another pass has begun.
unfoldable pub flow_progressive_high_continuation : Value → Bool
flow_progressive_high_continuation options =
    let refinement = get "h3_refinement" options in
    py_eq (get "h3_flow_stage" options) (str "high")
    && is_dict refinement
    && py_eq (get "api" refinement) (int (pos 1))
    && is_true (get "active" refinement)
    && py_eq (get "source" refinement) (str "h3_flow_progressive_handoff")
    && py_eq (get "min_actual_prefix_steps" refinement) (int (pos 1))
    && py_eq (get "sigma_reference" refinement) (float (whole 1))

unfoldable pub dense_evaluation_warmup : Config → (evaluation : ℕ) → (options : Value) → Bool
unfolding flow_progressive_high_continuation
dense_evaluation_warmup config evaluation options =
    ltb evaluation config.dense_evaluations
    && not (config.dense_evaluations == 1 && flow_progressive_high_continuation options)
