-- ===== src/PartitionedRequest/Union.antt =====
-- `_verify_partitioned_source`, `_dynamic_tensor_abi` and `_sm120_union` of
-- sol_h3/partitioned_request.py, as the one thread of a request runs them: a lock is not held by
-- another, so the second test inside it finds what the first one found.
use comfy_ui_sol_h.Base.{
  none, some, [], ◌∷◌, false, true, ⊤, Option, List, ℕ, ◌+◌, if◌then◌else◌, Bool, ◌*◌,
}
use comfy_ui_sol_h.MappedNeighbors.Descriptor.{blocks}
use comfy_ui_sol_h.PartitionedRequest.Engine.{Engine, Action, pure, lift, modify, gets, ◌>>=◌, ◌>>◌}
use comfy_ui_sol_h.PartitionedRequest.Kernels.{Kernels, Launch, Prepared}
use comfy_ui_sol_h.PartitionedRequest.Tensors.{Strided, float32, int32, rows_in}
use comfy_ui_sol_h.Py.{Value, int, str, bool, tuple, cons, nil, values}
use comfy_ui_sol_h.Py.Outcome.{Outcome}
use comfy_ui_sol_h.PartitionedRequest.Checks.{Union, check_union, abis_of}
use comfy_ui_sol_h.Receipts.Ledger.{add_value, holds_value}
use comfy_ui_sol_h.Receipts.Partitioned.{request_abi}
use comfy_ui_sol_h.Base.Int.{pos}

abbrev begin_verification : Engine → Engine
begin_verification s = record s {
  source_verified = false;
  source_verification_calls = s.source_verification_calls + 1;
}

abbrev verified : Engine → Engine
verified s = record s { source_verified = true }

unfoldable pub verify_partitioned_source : Outcome ⊤ → Action ⊤
verify_partitioned_source verify_source = do
  trusted ← gets (λ s. s.source_verified)
  if trusted then pure tt else (modify begin_verification >> lift verify_source >> modify verified)

abbrev biased : {A : Type 0} → Option A → Bool
biased none = false
biased (some a) = true

abbrev pub heads_of : List ℕ → ℕ
heads_of (t ∷ h ∷ rest) = h
heads_of _ = 0

abbrev bias_layout : ℕ → Strided
bias_layout rows = record { shape = rows ∷ []; strides = 1 ∷ []; dtype = float32 }

abbrev mapped_layout : ℕ → Strided
mapped_layout tiles = record { shape = tiles ∷ 2 ∷ []; strides = 2 ∷ 1 ∷ []; dtype = int32 }

abbrev lse_layout : (q_rows heads : ℕ) → Strided
lse_layout q_rows heads = record {
  shape = 1 ∷ q_rows ∷ heads ∷ [];
  strides = (q_rows * heads) ∷ heads ∷ 1 ∷ [];
  dtype = float32;
}

-- An argument that is left out has the threshold in its place.
abbrev or_threshold : {A : Type 0} → Option A → Strided → Strided → Strided
or_threshold none given threshold = threshold
or_threshold (some a) given threshold = given

module _ {C P : Type 0} (kernels : Kernels C P) where
  -- The shared preparation, or that of the grouped keys, or one of this call.
  unfoldable pub prepared_for : Union C P → Option (List (Prepared P)) → Prepared P
  prepared_for u (some (p ∷ ps)) = p
  prepared_for u _ = elim (kernels.grouped u.q u.k u.v u.tau u.scale) [
    | none ↦ kernels.prepare u.q u.k u.v u.tau u.scale
    | some p ↦ p
  ]

  -- An empty list that is shared takes the preparation.
  unfoldable pub shared_after : Option (List (Prepared P)) → Prepared P → Option (List (Prepared P))
  shared_after (some []) p = some (p ∷ [])
  shared_after shared p = shared

  abbrev pub launch_of : Union C P → Prepared P → Launch C P
  launch_of u p = record {
    q = u.q;
    k = u.k;
    v = u.v;
    prepared = p;
    scale = u.scale;
    sink_blocks = kernels.sink_block_range (rows_in u.k) 0 u.sink_rows;
    key_bias = u.key_bias;
    mapped = u.mapped;
  }

  -- The ten tensors of a launch.
  abbrev pub layouts_of : Union C P → Prepared P → List Strided
  layouts_of u p =
      let q = kernels.unsqueeze u.q.layout in
      q
      ∷ kernels.unsqueeze u.k.layout
      ∷ kernels.unsqueeze u.v.layout
      ∷ kernels.empty_like q
      ∷ p.kc
      ∷ p.vc
      ∷ p.threshold
      ∷ or_threshold u.key_bias (bias_layout (rows_in u.k)) p.threshold
      ∷ or_threshold u.mapped (mapped_layout (blocks (rows_in u.q))) p.threshold
      ∷ lse_layout (rows_in u.q) (heads_of u.q.layout.shape)
      ∷ []

  -- The key of the compiled kernel; no extent stands in it.
  abbrev pub compile_key : Union C P → List Value → Value
  compile_key u abis =
      let arch = kernels.capability u.q.device in
      tuple (
        values (
          str request_abi
          ∷ str "dynamic_layout_v1"
          ∷ int (pos (kernels.index u.q.device))
          ∷ tuple (cons (int (pos arch.0)) (cons (int (pos arch.1)) nil))
          ∷ int (pos 1)
          ∷ int (pos (heads_of u.q.layout.shape))
          ∷ tuple (values abis)
          ∷ bool (biased u.key_bias)
          ∷ bool (biased u.mapped)
          ∷ []))

  abbrev count_compile : Engine → Engine
  count_compile s = record s { compile_calls = s.compile_calls + 1 }

  abbrev keep_compiled : Value → Engine → Engine
  keep_compiled key s = record s { compiled = add_value key s.compiled }

  abbrev count_hit : Engine → Engine
  count_hit s = record s { compile_cache_hits = s.compile_cache_hits + 1 }

  unfoldable pub compiled_for : Value → Launch C P → Action ⊤
  compiled_for key l = do
    hit ← gets (λ s. holds_value key s.compiled)
    if hit
        then modify count_hit
        else (modify count_compile >> lift (kernels.compile key l) >> modify (keep_compiled key))

  -- The output, and what the shared list holds afterwards.
  unfoldable pub sm120_union : Union C P → Action (C × Option (List (Prepared P)))
  unfolding verify_partitioned_source check_union prepared_for shared_after abis_of compiled_for
  sm120_union u = do
    verify_partitioned_source kernels.verify_source
    lift (check_union kernels u)
    let p = prepared_for u u.preparation
    abis ← lift (abis_of (layouts_of u p))
    compiled_for (compile_key u abis) (launch_of u p)
    out ← lift (kernels.launch (launch_of u p))
    pure (out, shared_after u.preparation p)
