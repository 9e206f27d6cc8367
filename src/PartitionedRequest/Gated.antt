-- ===== src/PartitionedRequest/Gated.antt =====
-- The arithmetic gate in front of the sparse route of sol_h3/partitioned_request.py.
use comfy_ui_sol_h.Py.Outcome.{Outcome, ok-eq, runtime_error, assert-true}
use comfy_ui_sol_h.PartitionedRequest.Kernels.{
  Kernels, Metrics, Prepared, arithmetic_gate_passes, Launch,
}
use comfy_ui_sol_h.PartitionedRequest.Calls.{Plan}
use comfy_ui_sol_h.PartitionedRequest.Dense.{weighted_dense}
use comfy_ui_sol_h.Py.{Value}
use comfy_ui_sol_h.PartitionedRequest.Engine.{Engine, >>=-eq-ok, lift, gets, ◌>>=◌, demand}
use comfy_ui_sol_h.Base.{
  String, ◌≡◌, Option, Bool, List, true, ◌⊎◌, inl, ◌∙◌, inr, ap, some, [], refl, ℕ,
}
use comfy_ui_sol_h.PartitionedRequest.Attention.{
  gate_sparse, sparse_result, preparation_for, trusted_layout, run_union, sparse_done,
}
use comfy_ui_sol_h.Contracts.Config.{Config}
use comfy_ui_sol_h.PartitionedRequest.Completions.{Done, union_of}
use comfy_ui_sol_h.PartitionedRequest.Union.{
  sm120_union, launch_of, prepared_for, verify_partitioned_source, layouts_of, compiled_for,
  compile_key,
}
use comfy_ui_sol_h.PartitionedRequest.Facts.Plans.{outcome_eq}
use comfy_ui_sol_h.PartitionedRequest.Tensors.{rows_in}
use mathlib.Core.Bool.{false}
use comfy_ui_sol_h.PartitionedRequest.Checks.{Union, check_union, abis_of}

module _ {C P : Type 0} (kernels : Kernels C P) where
  -- One launch of the kernel on the tensors, the bias and the neighbours of a call, with the key
  -- rows up to `exact_end` selected for every query.
  abbrev pub launch_for : Plan C → Prepared P → (exact_end : ℕ) → Launch C P
  launch_for p prepared exact_end = record {
    q = p.arguments.q;
    k = p.arguments.k;
    v = p.arguments.v;
    prepared = prepared;
    scale = p.arguments.scale;
    sink_blocks = kernels.sink_block_range (rows_in p.arguments.k) 0 exact_end;
    key_bias = p.key_bias;
    mapped = p.mapping.intervals;
  }

  -- The kernel has returned `out` for such a launch.
  abbrev pub Launched : Plan C → (exact_end : ℕ) → C → Type 0
  Launched p exact_end out =
      (prepared : Prepared P) × (kernels.launch (launch_for p prepared exact_end) ≡ Outcome.ok out)

  -- The result of a launch with every key row selected has been measured against the dense attention
  -- on the same tensors, and has passed.
  pub record IsMeasured (p : Plan C) : Type 0 where
    pub sparse : C
    pub dense : C
    pub metrics : Metrics
    pub launched : Launched p (rows_in p.arguments.k) sparse
    pub attended :
        kernels.dense p.arguments.q p.arguments.k p.arguments.v p.key_bias p.arguments.scale
        ≡ Outcome.ok dense
    pub measured : kernels.error_metrics sparse dense ≡ Outcome.ok metrics
    pub passed : arithmetic_gate_passes metrics ≡ true

  sm120_union-Launched :
      (u : Union C P) (s s' : Engine) (out : C × Option (List (Prepared P)))
      → sm120_union kernels u s ≡ (Outcome.ok out, s')
      → (prepared : Prepared P) × (kernels.launch (launch_of kernels u prepared) ≡ Outcome.ok out.0)
  unfolding sm120_union
  sm120_union-Launched u s s' out h =
      let prepared = prepared_for kernels u u.preparation in
      let launch = launch_of kernels u prepared in
      let (t0, r0, h0) = >>=-eq-ok (verify_partitioned_source kernels.verify_source) _ s out s' h in
      let (t1, r1, h1) = >>=-eq-ok (lift (check_union kernels u)) _ _ out s' h0 in
      let (abis, r2, h2) =
        >>=-eq-ok (lift (abis_of (layouts_of kernels u prepared))) _ _ out s' h1 in
      let (t3, r3, h3) =
        >>=-eq-ok (compiled_for kernels (compile_key kernels u abis) launch) _ _ out s' h2 in
      let (got, r4, h4) = >>=-eq-ok (lift (kernels.launch launch)) _ _ out s' h3 in
      (prepared, r4 ∙ ap (λ z. Outcome.ok z.0) (ok-eq _ out (ap (λ z. z.0) h4)))

  weighted_dense-attended :
      (p : Plan C) (s : Engine) (out : C)
      → (weighted_dense kernels p.arguments.q p.arguments.k p.arguments.v p.key_bias
          p.arguments.scale s).0
        ≡ Outcome.ok out
      → kernels.dense p.arguments.q p.arguments.k p.arguments.v p.key_bias p.arguments.scale
        ≡ Outcome.ok out
  unfolding weighted_dense
  weighted_dense-attended p s out h =
      let a = p.arguments in
      let (given, ran, rest) =
        >>=-eq-ok (lift (kernels.dense a.q a.k a.v p.key_bias a.scale)) _ s out _
          (outcome_eq _ out h) in
      ran ∙ ap (λ z. z.0) rest

  module _ (sha256_json : Value → String) where
    gate_sparse-IsMeasured :
        (config : Config) (p : Plan C) (s s' : Engine) (shared : Option (List (Prepared P)))
        → gate_sparse kernels sha256_json config p s ≡ (Outcome.ok shared, s')
        → IsMeasured p
    unfolding gate_sparse
    gate_sparse-IsMeasured config p s s' shared h =
        let a = p.arguments in
        let (got, t0, h1) =
          >>=-eq-ok (sm120_union kernels (union_of p config (rows_in a.k) (some []))) _ s shared s'
            h in
        let (want, t1, h2) =
          >>=-eq-ok (weighted_dense kernels a.q a.k a.v p.key_bias a.scale) _ _ shared s' h1 in
        let (gate, t2, h3) = >>=-eq-ok (lift (kernels.error_metrics got.0 want)) _ _ shared s' h2 in
        let (u, t3, h4) =
          >>=-eq-ok
            (demand (arithmetic_gate_passes gate)
              (runtime_error "partitioned Sol all-selected arithmetic gate failed"))
            _ _ shared s' h3 in
        record {
          sparse = got.0;
          dense = want;
          metrics = gate;
          launched = sm120_union-Launched _ _ _ got (outcome_eq _ got t0);
          attended = weighted_dense-attended p _ want t1;
          measured = t2;
          passed = assert-true (arithmetic_gate_passes gate) _ t3;
        }

    preparation_for-IsMeasured :
        (config : Config) (p : Plan C) (trusted : Bool) (s : Engine)
        (shared : Option (List (Prepared P)))
        → (preparation_for kernels sha256_json config p trusted s).0 ≡ Outcome.ok shared
        → (trusted ≡ true) ⊎ IsMeasured p
    preparation_for-IsMeasured config p true s shared h = inl refl
    preparation_for-IsMeasured config p false s shared h =
        inr (gate_sparse-IsMeasured config p s _ shared (outcome_eq _ shared h))

    run_union-Launched :
        (config : Config) (p : Plan C) (shared : Option (List (Prepared P))) (s s' : Engine)
        (d : Done C)
        → run_union kernels sha256_json config p shared s ≡ (Outcome.ok d, s')
        → Launched p p.exact_end d.result
    run_union-Launched config p shared s s' d h =
        let (out, ran, h1) =
          >>=-eq-ok (sm120_union kernels (union_of p config p.exact_end shared)) _ s d s' h in
        let (prepared, launched) = sm120_union-Launched _ _ _ out (outcome_eq _ out ran) in
        (
          prepared,
          launched
              ∙ ap (λ (z : Done C). Outcome.ok z.result)
                  (ok-eq (sparse_done kernels sha256_json p out.0) d (ap (λ z. z.0) h1)),
        )

    -- A sparse result is what the kernel has returned for a launch on the call's own tensors. It is
    -- handed out only if the layout was trusted before the call, or if another launch on them, with
    -- every key row selected, has just been measured against the dense attention and has passed.
    pub sparse_result-IsMeasured :
        (config : Config) (p : Plan C) (s s' : Engine) (d : Done C)
        → sparse_result kernels sha256_json config p s ≡ (Outcome.ok d, s')
        → Launched p p.exact_end d.result
          × ((trusted_layout kernels sha256_json p s ≡ true) ⊎ IsMeasured p)
    unfolding sparse_result
    sparse_result-IsMeasured config p s s' d h =
        let (trusted, t0, h1) =
          >>=-eq-ok (gets (trusted_layout kernels sha256_json p))
            (λ t.
              preparation_for kernels sha256_json config p t
              >>= run_union kernels sha256_json config p)
            s d s' h in
        let (shared, t1, h2) =
          >>=-eq-ok (preparation_for kernels sha256_json config p trusted)
            (run_union kernels sha256_json config p) s d s' h1 in
        (
          run_union-Launched config p shared _ s' d h2,
          elim (preparation_for-IsMeasured config p trusted s shared t1) [
            | inl known ↦ inl (ok-eq _ trusted t0 ∙ known)
            | inr measured ↦ inr measured
          ],
        )
