-- ===== src/PartitionedRequest/Tensors.antt =====
-- Tensors by what the code reads of them, and `_validate_thd` of sol_h3/partitioned_request.py. What
-- a tensor holds is a parameter.
use comfy_ui_sol_h.Base.{
  none, some, [], ◌∷◌, List, Bool, ℕ, true, str_eq, Option, ◌==◌, ◌&&◌, option_eq, ⊤, false, ltb,
  ◌||◌,
}
use comfy_ui_sol_h.Caches.DeviceDescriptor.{Device}
use comfy_ui_sol_h.Py.Outcome.{Outcome, ◌>>◌, assert, runtime_error, raise_if}

pub data Dtype : Type 0 where
  bfloat16 float32 int32 other : Dtype

pub record Strided : Type 0 where
  pub shape : List ℕ
  pub strides : List ℕ
  pub dtype : Dtype

pub record Tensor (C : Type 0) : Type 0 where
  pub layout : Strided
  pub device : Device
  pub contents : C

abbrev pub is_bfloat16 : Dtype → Bool
is_bfloat16 bfloat16 = true
is_bfloat16 _ = false

abbrev pub same_device : Device → Device → Bool
same_device a b = str_eq a.name b.name

-- The last element, `none` of an empty list.
abbrev pub last? : List ℕ → Option ℕ
last? [] = none
last? (x ∷ []) = some x
last? (x ∷ y ∷ xs) = last? (y ∷ xs)

-- Q is [Tq, H, 128] and K and V are [Tkv, H, 128], with no dimension of zero.
unfoldable pub geometry_valid : (q k v : List ℕ) → Bool
geometry_valid (tq ∷ hq ∷ dq ∷ []) (tk ∷ hk ∷ dk ∷ []) (tv ∷ hv ∷ dv ∷ []) =
    (tk == tv && hk == hv && dk == dv)
    && (hq == hk && dq == dk)
    && (ltb 0 tq && ltb 0 tk)
    && (ltb 0 hq && dq == 128)
geometry_valid _ _ _ = false

-- `t.shape[0]`
abbrev pub rows_of : List ℕ → ℕ
rows_of [] = 0
rows_of (n ∷ ns) = n

abbrev pub is_sm120 : ℕ × ℕ → Bool
is_sm120 (major, minor) = major == 12 && (minor == 0 || minor == 1)

module _ {C : Type 0} where
  abbrev pub rows_in : Tensor C → ℕ
  rows_in t = rows_of t.layout.shape

  abbrev bf16_with : Tensor C → Tensor C → Bool
  bf16_with q t = is_bfloat16 t.layout.dtype && same_device t.device q.device

  abbrev contiguous_head : Tensor C → Bool
  contiguous_head t = option_eq (last? t.layout.strides) 1

  -- `tracked` is whether autograd, torch.compile or a graph capture records what runs.
  unfoldable pub validate_thd :
      (capability : Device → ℕ × ℕ) (tracked : Bool) (q k v : Tensor C) → Outcome ⊤
  unfolding geometry_valid
  validate_thd capability tracked q k v =
      assert (geometry_valid q.layout.shape k.layout.shape v.layout.shape)
        (runtime_error "partitioned Sol requires Q [Tq,H,128] and KV [Tkv,H,128]")
      >> assert (bf16_with q q && bf16_with q k && bf16_with q v)
          (runtime_error "partitioned Sol requires BF16 QKV on one device")
      >> assert (q.device.is_cuda && is_sm120 (capability q.device))
          (runtime_error "partitioned Sol currently requires SM120/SM121")
      >> assert (contiguous_head q && contiguous_head k && contiguous_head v)
          (runtime_error "partitioned Sol requires a contiguous head dimension")
      >> raise_if tracked (
          runtime_error
            "partitioned Sol is unavailable under autograd, torch.compile, or CUDA graph capture")
