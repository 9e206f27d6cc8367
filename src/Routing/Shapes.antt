-- ===== src/Routing/Shapes.antt =====
-- `_shape_reason` of sol_h3/runtime.py, and the other checks of tensors and arguments there.
use comfy_ui_sol_h.Base.{
  List, ℕ, Bool, String, false, true, ◌∷◌, Option, [], ◌==◌, none, ◌&&◌, if◌then◌else◌, not, some,
  min, ◌||◌, str_eq,
}
use comfy_ui_sol_h.Py.{Value, Entries, dict, bool, nothing, entry, get, int, end, str}
use comfy_ui_sol_h.Caches.DeviceDescriptor.{Device}
use comfy_ui_sol_h.PartitionedRequest.Tensors.{Tensor, is_bfloat16, same_device, is_sm120}
use comfy_ui_sol_h.Receipts.History.{one_of}
use comfy_ui_sol_h.Base.Int.{int_eq, pos}

abbrev pub same_shape : List ℕ → List ℕ → Bool
same_shape [] [] = true
same_shape (a ∷ as') (b ∷ bs) = a == b && same_shape as' bs
same_shape _ _ = false

-- `bool(v)` of a flag.
abbrev pub truthy : Value → Bool
truthy nothing = false
truthy (bool b) = b
truthy (int z) = not (int_eq z (pos 0))
truthy (str s) = not (str_eq s "")
truthy _ = true

abbrev pub is_nothing : Value → Bool
is_nothing nothing = true
is_nothing _ = false

abbrev allowed_keys : List String
allowed_keys =
    "skip_reshape" ∷ "skip_output_reshape" ∷ "transformer_options" ∷ "_inside_attn_wrapper"
    ∷ "attn_precision" ∷ []

unfoldable pub keys_allowed : Entries → Bool
keys_allowed end = true
keys_allowed (entry key v rest) = one_of key allowed_keys && keys_allowed rest

abbrev pub arguments_allowed : Value → Bool
arguments_allowed (dict es) = keys_allowed es
arguments_allowed _ = true

-- [1, H, T, D] with one head count, one head dimension and a row in each.
unfoldable pub qkv_geometry : (q k v : List ℕ) → Bool
qkv_geometry (bq ∷ hq ∷ tq ∷ dq ∷ []) (bk ∷ hk ∷ tk ∷ dk ∷ []) (bv ∷ hv ∷ tv ∷ dv ∷ []) =
    same_shape (bk ∷ hk ∷ tk ∷ dk ∷ []) (bv ∷ hv ∷ tv ∷ dv ∷ [])
    && (bq == bk && hq == hk)
    && dq == dk
    && bq == 1
    && not (min tq tk == 0)
qkv_geometry _ _ _ = false

abbrev pub head_geometry : List ℕ → (heads : ℕ) → Bool
head_geometry (b ∷ h ∷ t ∷ d ∷ []) heads = h == heads && d == 128
head_geometry _ heads = false

-- The first of the reasons whose test fails.
unfoldable pub first_reason : List (Bool × String) → Option String
first_reason [] = none
first_reason ((fine, reason) ∷ rest) =
    let later = first_reason rest in if fine then later else some reason

module _ {C : Type 0} (capability : Device → ℕ × ℕ) (tracked : Bool) where
  abbrev bf16_on : Tensor C → Tensor C → Bool
  bf16_on q t = is_bfloat16 t.layout.dtype && same_device t.device q.device

  unfoldable pub shape_reason :
      (rectangular : Bool) (q k v : Tensor C) (heads : ℕ) (mask kw : Value) → Option String
  unfolding first_reason qkv_geometry keys_allowed
  shape_reason rectangular q k v heads mask kw = first_reason (
      (is_nothing mask, "attention_mask")
      ∷ (
        truthy (get "skip_reshape" kw) && not (truthy (get "skip_output_reshape" kw)),
        "attention_layout_flags",
      )
      ∷ (arguments_allowed kw && is_nothing (get "attn_precision" kw), "attention_arguments")
      ∷ (qkv_geometry q.layout.shape k.layout.shape v.layout.shape, "qkv_geometry")
      ∷ (rectangular || same_shape q.layout.shape k.layout.shape, "non_square_qkv")
      ∷ (head_geometry q.layout.shape heads, "head_geometry")
      ∷ (bf16_on q q && bf16_on q k && bf16_on q v, "qkv_dtype_device")
      ∷ (q.device.is_cuda && is_sm120 (capability q.device), "device_not_sm120")
      ∷ (not tracked, "autograd_or_graph_capture")
      ∷ [])

-- Q is [Tq, H, D], and K and V are [Tkv, H, D].
unfoldable pub local_domain : (q k v : List ℕ) → Bool
local_domain (tq ∷ hq ∷ dq ∷ []) (tk ∷ hk ∷ dk ∷ []) (tv ∷ hv ∷ dv ∷ []) =
    (tk == tv && hk == hv && dk == dv) && (hq == hk && dq == dk)
local_domain _ _ _ = false

-- The shape or the strides of `t.transpose(0, 1).unsqueeze(0)`, `front` for the new axis.
abbrev pub heads_first_axes : (front : ℕ) → List ℕ → List ℕ
heads_first_axes front (t ∷ h ∷ d ∷ []) = front ∷ h ∷ t ∷ d ∷ []
heads_first_axes front axes = front ∷ axes
