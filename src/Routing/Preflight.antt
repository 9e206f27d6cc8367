-- ===== src/Routing/Preflight.antt =====
-- `validate_preflight_summary` of sol_h3/mapped_neighbors.py. A summary is the dictionary of its
-- attributes; one that is missing is `None`.
use comfy_ui_sol_h.Base.{
  List, Option, ℕ, Bool, true, false, ◌&&◌, ◌∷◌, [], some, suc, ◌==◌, ltb, zero, none, length,
}
use comfy_ui_sol_h.Py.{Value, tuple, nothing, items, int, py_eq, get, natural}
use comfy_ui_sol_h.MappedNeighbors.Types.{DescriptorPlan}
use comfy_ui_sol_h.Receipts.Partitioned.{equals}
use comfy_ui_sol_h.Base.Int.{int_eq, pos}
use Prim.Native.Nat.{zero}
use mathlib.Core.Option.{none}

-- `xs[i]` of an index that is in range.
abbrev pub item : List Value → ℕ → Value
item [] i = nothing
item (x ∷ xs) zero = x
item (x ∷ xs) (suc i) = item xs i

abbrev pub parts_of : Value → List Value
parts_of (tuple xs) = items xs
parts_of _ = []

-- `type(v) is int and v == 1`
abbrev strict_one : Value → Bool
strict_one (int z) = int_eq z (pos 1)
strict_one _ = false

unfoldable pub summary_header : (summary : Value) → Bool
summary_header summary =
    equals (get "tag" summary) "vdn_query_position_plan_v1"
    && strict_one (get "schema" summary)
    && equals (get "mode" summary) "grouped"

unfoldable pub summary_owner : (summary wire : Value) → Bool
summary_owner summary wire =
    py_eq (get "owner_generation" summary) (item (parts_of wire) 2)
    && py_eq (get "plan_digest" summary) (item (parts_of wire) 3)

abbrev plan_group : Option DescriptorPlan → ℕ → Bool
plan_group none group = true
plan_group (some plan) group = plan.validated.group_index == group

-- The group of the wire is the wire itself, and the descriptor is of that group.
abbrev group_at : (groups : List Value) (wire : Value) → Option DescriptorPlan → Option ℕ → Bool
group_at groups wire plan none = false
group_at groups wire plan (some group) =
    ltb group (length groups) && py_eq (item groups group) wire && plan_group plan group

unfoldable pub summary_group : (groups wire : Value) → Option DescriptorPlan → Bool
summary_group (tuple groups) wire plan =
    group_at (items groups) wire plan (natural (item (parts_of wire) 4))
summary_group _ wire plan = false

unfoldable pub validate_preflight_summary : (summary wire : Value) → Option DescriptorPlan → Bool
unfolding summary_header summary_owner summary_group
validate_preflight_summary summary wire plan =
    summary_header summary
    && summary_owner summary wire
    && summary_group (get "groups" summary) wire plan
