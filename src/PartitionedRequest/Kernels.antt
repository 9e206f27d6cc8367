-- ===== src/PartitionedRequest/Kernels.antt =====
-- The code that sol_h3/partitioned_request.py calls and that is not part of the model: the vendored
-- kernels, torch, and the grouped preparation. `arithmetic_gate_passes` is of sol_h3/sparse.py.
use comfy_ui_sol_h.Base.{Bool, ℕ, ◌&&◌, Option, ⊤, false, List, String}
use comfy_ui_sol_h.Caches.DeviceDescriptor.{Device}
use comfy_ui_sol_h.MappedNeighbors.Types.{Interval}
use comfy_ui_sol_h.PartitionedRequest.Tensors.{Tensor, Strided, Dtype}
use comfy_ui_sol_h.Py.Outcome.{Outcome}
use comfy_ui_sol_h.Py.{Float, finite, float_le, Value}

-- The statistics that `error_metrics` measures of two results.
pub record Metrics : Type 0 where
  pub all_finite : Bool
  pub mean_abs : Float
  pub rel_l2 : Float
  pub max_abs : Float
  pub catastrophic_max_abs_limit : Float

-- 0.002 and 0.005
abbrev mean_abs_limit : Float
mean_abs_limit = finite false 4611686018427388 1013

abbrev rel_l2_limit : Float
rel_l2_limit = finite false 5764607523034235 1014

unfoldable pub arithmetic_gate_passes : Metrics → Bool
arithmetic_gate_passes m =
    m.all_finite
    && float_le m.mean_abs mean_abs_limit
    && float_le m.rel_l2 rel_l2_limit
    && float_le m.max_abs m.catastrophic_max_abs_limit

-- The centroids of keys and values and the routing threshold, and what they hold.
pub record Prepared (P : Type 0) : Type 0 where
  pub kc : Strided
  pub vc : Strided
  pub threshold : Strided
  pub centroids : P

-- One launch of the SM120 kernel. The sink blocks are selected for every query.
pub record Launch (C P : Type 0) : Type 0 where
  pub q : Tensor C
  pub k : Tensor C
  pub v : Tensor C
  pub prepared : Prepared P
  pub scale : Float
  pub sink_blocks : ℕ × ℕ
  pub key_bias : Option (List Float)
  pub mapped : Option (List Interval)

pub record Kernels (C P : Type 0) : Type 0 where
  pub capability : Device → ℕ × ℕ
  -- The index of a CUDA device.
  pub index : Device → ℕ
  -- Autograd, torch.compile or a graph capture is on.
  pub tracked : Bool
  pub capturing : Bool
  -- ComfyUI's own dispatcher of dense attention is installed.
  pub core_ops : Bool
  -- `verify_source` of sol_h3/provenance.py, on the files that are there.
  pub verify_source : Outcome ⊤
  pub backend_for_arch : ℕ × ℕ → String
  pub validate_cute : ℕ × ℕ → ℕ → Outcome ⊤
  -- `current` of sol_h3/grouped_kv.py and the threshold for it, if a preparation is current.
  pub grouped : (q k v : Tensor C) (tau scale : Float) → Option (Prepared P)
  pub prepare : (q k v : Tensor C) (tau scale : Float) → Prepared P
  pub sink_block_range : (kv_rows start stop : ℕ) → ℕ × ℕ
  -- `t.unsqueeze(0)` and `torch.empty_like(t)`
  pub unsqueeze : Strided → Strided
  pub empty_like : Strided → Strided
  pub compile : Value → Launch C P → Outcome ⊤
  pub launch : Launch C P → Outcome C
  pub dense : (q k v : Tensor C) (bias : Option (List Float)) (scale : Float) → Outcome C
  -- What a tensor of the type float32 holds of a float.
  pub float32 : Float → Float
  -- A bias in the precision of the query, as `key_bias.to(q.dtype).float()`.
  pub rounded : Dtype → List Float → List Float
  pub error_metrics : C → C → Outcome Metrics
