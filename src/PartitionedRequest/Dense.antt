-- ===== src/PartitionedRequest/Dense.antt =====
-- `_weighted_dense` and `_checked_weighted_dense` of sol_h3/partitioned_request.py.
use comfy_ui_sol_h.Base.{
  none, some, [], ◌∷◌, ℕ, List, if◌then◌else◌, Option, String, ◌++◌, ◌+◌, ⊤, map, ltb, false,
  length, true, drop,
}
use comfy_ui_sol_h.PartitionedRequest.Engine.{
  Engine, Action, Gate, pure, lift, modify, gets, demand, ◌>>=◌, ◌>>◌,
}
use comfy_ui_sol_h.PartitionedRequest.Kernels.{Kernels, arithmetic_gate_passes}
use comfy_ui_sol_h.PartitionedRequest.Checks.{Union}
use comfy_ui_sol_h.PartitionedRequest.Tensors.{Tensor, Strided, rows_in}
use comfy_ui_sol_h.Py.{Value, str, float, tuple, cons, nil, Float, values, py_eq}
use comfy_ui_sol_h.Py.Outcome.{runtime_error}
use comfy_ui_sol_h.PartitionedRequest.Union.{sm120_union}
use comfy_ui_sol_h.Receipts.Partitioned.{weighted_dense_contract}
use comfy_ui_sol_h.Receipts.Ledger.{holds_value}
use comfy_ui_sol_h.Receipts.Publish.{rows}

abbrev max_weighted_dense_gate_entries : ℕ
max_weighted_dense_gate_entries = 64

-- A row of numbers as a tuple.
abbrev pub numbers : List ℕ → Value
numbers ns = tuple (values (map rows ns))

abbrev shape_and_stride : Strided → Value
shape_and_stride t = tuple (cons (numbers t.shape) (cons (numbers t.strides) nil))

-- `verified[key] = None`, the oldest key dropped if there are more than 64.
unfoldable pub remember : Value → List Value → List Value
remember key keys =
    let longer = keys ++ key ∷ [] in
    if ltb max_weighted_dense_gate_entries (length longer) then drop 1 longer else longer

-- `verified.move_to_end(key)`
abbrev without : Value → List Value → List Value
without key [] = []
without key (k ∷ keys) = if py_eq key k then keys else k ∷ without key keys

unfoldable pub refresh : Value → List Value → List Value
refresh key keys = without key keys ++ key ∷ []

module _ {C P : Type 0} (kernels : Kernels C P) where
  abbrev count_dense : Engine → Engine
  count_dense s =
      if kernels.core_ops
      then record s { core_dense_calls = s.core_dense_calls + 1 }
      else record s { torch_dense_calls = s.torch_dense_calls + 1 }

  unfoldable pub weighted_dense :
      (q k v : Tensor C) (bias : Option (List Float)) (scale : Float) → Action C
  weighted_dense q k v bias scale = do
    out ← lift (kernels.dense q k v bias scale)
    modify count_dense
    pure out

  -- What a gate of this route depends on.
  abbrev dense_layout_key : (q k v : Tensor C) (numerical_identity : Value) (scale : Float) → Value
  dense_layout_key q k v numerical_identity scale = tuple (
      values (
        str weighted_dense_contract
        ∷ numerical_identity
        ∷ str q.device.name
        ∷ str "torch.bfloat16"
        ∷ tuple (values (map shape_and_stride (q.layout ∷ k.layout ∷ v.layout ∷ [])))
        ∷ float scale
        ∷ []))

  -- Every key is selected, so the sparse kernel computes the dense attention.
  abbrev all_selected : (q k v : Tensor C) (tau scale : Float) (bias : List Float) → Union C P
  all_selected q k v tau scale bias = record {
    q = q;
    k = k;
    v = v;
    tau = tau;
    scale = scale;
    sink_rows = rows_in k;
    key_bias = some (kernels.rounded q.layout.dtype bias);
    mapped = none;
    preparation = none;
  }

  abbrev dense_gate : String → Gate
  dense_gate kind = record {
    route = weighted_dense_contract;
    kind = kind;
    mapped_neighbor_abi = false;
    key_measure_bias = true;
  }

  abbrev accept_dense : Value → String → Engine → Engine
  accept_dense key kind s = record s {
    weighted_dense_verified = remember key s.weighted_dense_verified;
    gates = s.gates ++ dense_gate kind ∷ [];
  }

  -- The result against the native attention, before its layout is trusted.
  unfoldable pub gate_dense :
      (q k v : Tensor C) (bias : List Float) (scale : Float) (kind : String) (key : Value)
      → C
      → Action ⊤
  unfolding weighted_dense
  gate_dense q k v bias scale kind key result = do
    reference ← weighted_dense q k v (some bias) scale
    gate ← lift (kernels.error_metrics result reference)
    demand (arithmetic_gate_passes gate)
        (runtime_error "partitioned Sol weighted dense arithmetic gate failed")
    modify (accept_dense key kind)

  abbrev count_weighted : ℕ → Value → Engine → Engine
  count_weighted q_rows key s = record s {
    weighted_dense_verified = refresh key s.weighted_dense_verified;
    weighted_dense_calls = s.weighted_dense_calls + 1;
    weighted_dense_q_rows = s.weighted_dense_q_rows + q_rows;
  }

  unfoldable pub checked_weighted_dense :
      (q k v : Tensor C) (bias : List Float) (tau scale : Float) (kind : String)
      (numerical_identity : Value)
      → Action C
  unfolding sm120_union gate_dense
  checked_weighted_dense q k v bias tau scale kind numerical_identity = do
    let key = dense_layout_key q k v numerical_identity scale
    trusted ← gets (λ s. holds_value key s.weighted_dense_verified)
    out ← sm120_union kernels (all_selected q k v tau scale bias)
    if trusted then pure tt else gate_dense q k v bias scale kind key out.0
    modify (count_weighted (rows_in q) key)
    pure out.0
