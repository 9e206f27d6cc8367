-- ===== src/PartitionedRequest/Described.antt =====
-- How the receipt of `partitioned_request_attention` of sol_h3/partitioned_request.py stands to the
-- arguments of the call.
use comfy_ui_sol_h.Base.{some, ◌≡◌, Bool, String, ◌||◌, ap, ◌∙◌, subst, sym, refl, ap₂}
use comfy_ui_sol_h.Py.{Value, natural}
use comfy_ui_sol_h.MappedNeighbors.Wire.{digest_of}
use comfy_ui_sol_h.PartitionedRequest.Arguments.{Arguments, Checked, pair_of}
use comfy_ui_sol_h.PartitionedRequest.Calls.{Plan}
use comfy_ui_sol_h.PartitionedRequest.Completions.{Done, completion_of, is_dense}
use comfy_ui_sol_h.PartitionedRequest.Facts.Checked.{IsChecked}
use comfy_ui_sol_h.PartitionedRequest.Facts.Maps.{FromWire, mapped_of}
use comfy_ui_sol_h.PartitionedRequest.Facts.Plans.{IsPlanOf}
use comfy_ui_sol_h.PartitionedRequest.Published.{IsSound, IsChosen, weighs}
use comfy_ui_sol_h.PartitionedRequest.Tensors.{rows_in}

-- Every field of the receipt but the constants comes from the arguments: the route, the mode and the
-- contract from whether the call is dense and whether its measure is zero, the map's part from the call's own map.
pub record IsDescribed {C : Type 0} (sha256_json : Value → String) (dense : Bool) (a : Arguments C)
    (d : Done C) : Type 0 where
  pub kind : d.completion.kind ≡ a.kind
  pub q_rows : d.completion.q_rows ≡ rows_in a.q
  pub kv_rows : d.completion.kv_rows ≡ rows_in a.k
  pub sink_rows : natural a.sink_rows ≡ some d.completion.sink_rows
  pub semantic_digest : digest_of a.semantic_digest ≡ some d.completion.semantic_digest
  pub prefix_k_range : d.completion.prefix_k_range ≡ pair_of a.prefix_k_range
  pub measure : d.completion.prefix_log_key_measure ≡ a.prefix_log_key_measure
  pub mapped :
      FromWire sha256_json a.query_position_map
        (rows_in a.q)
        (rows_in a.k)
        d.completion.sink_rows
        d.completion.mapped
  pub chosen :
      IsChosen dense a.force_dense
        (weighs a.prefix_log_key_measure)
        d.route
        d.completion.execution_mode
        d.completion.kernel_contract

module _ {C : Type 0} (sha256_json : Value → String) where
  -- For the arguments and the checked values that the plan itself holds.
  plan-IsDescribed :
      (p : Plan C) (d : Done C)
      → IsChecked p.arguments p.checked
      → IsPlanOf sha256_json p.arguments p.checked p.warmup p
      → IsSound p d
      → IsDescribed sha256_json (is_dense p) p.arguments d
  unfolding completion_of
  plan-IsDescribed p d checked plan sound =
      let described =
        subst
          (λ c.
            IsDescribed sha256_json (is_dense p) p.arguments
              (record { result = d.result; route = d.route; completion = c }))
          (sym sound.described) in
      described (record {
        kind = refl;
        q_rows = refl;
        kv_rows = refl;
        sink_rows = checked.sunk;
        semantic_digest = checked.named;
        prefix_k_range = plan.prefix;
        measure = refl;
        mapped = plan.wired;
        chosen = sound.chosen;
      })

  pub IsPlanOf-IsDescribed :
      (a : Arguments C) (c : Checked) (warmup : Bool) (p : Plan C) (d : Done C)
      → IsChecked a c
      → IsPlanOf sha256_json a c warmup p
      → IsSound p d
      → IsDescribed sha256_json (a.force_dense || warmup) a d
  IsPlanOf-IsDescribed a c warmup p d checked plan sound =
      let own : IsPlanOf sha256_json p.arguments p.checked p.warmup p = record {
        checked = refl;
        arguments = refl;
        warm = refl;
        prefix = plan.prefix ∙ ap (λ z. pair_of z.prefix_k_range) (sym plan.arguments);
        wired =
            subst
              (λ (z : Arguments C × Checked).
                FromWire sha256_json z.0.query_position_map (rows_in z.0.q) (rows_in z.0.k) z.1.sink
                  (mapped_of p.mapping))
              (ap₂ (λ x y. (x, y)) (sym plan.arguments) (sym plan.checked)) plan.wired;
      } in
      let good =
        subst (λ (z : Arguments C × Checked). IsChecked z.0 z.1)
          (ap₂ (λ x y. (x, y)) (sym plan.arguments) (sym plan.checked)) checked in
      subst (λ (z : Arguments C × Bool). IsDescribed sha256_json (z.0.force_dense || z.1) z.0 d)
        (ap₂ (λ x y. (x, y)) plan.arguments plan.warm) (plan-IsDescribed p d good own sound)
