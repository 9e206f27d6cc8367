-- ===== src/PartitionedRequest/Checks.antt =====
-- What `_sm120_union` of sol_h3/partitioned_request.py tests of its arguments, and
-- `_dynamic_tensor_abi`.
use comfy_ui_sol_h.Base.{
  none, some, [], ◌∷◌, ℕ, List, Option, ⊤, ◌==◌, option_eq, Bool, str_eq, true, length, leb, map,
}
use comfy_ui_sol_h.MappedNeighbors.Types.{Interval}
use comfy_ui_sol_h.MappedNeighbors.Descriptor.{blocks}
use comfy_ui_sol_h.PartitionedRequest.Kernels.{Kernels, Prepared}
use comfy_ui_sol_h.PartitionedRequest.Tensors.{
  Tensor, Strided, Dtype, bfloat16, float32, int32, other, last?, rows_in,
}
use comfy_ui_sol_h.Py.{Value, int, str, bool, tuple, cons, nil, Float, values}
use comfy_ui_sol_h.Py.Outcome.{Outcome, ok, runtime_error, assert, ◌>>=◌, ◌>>◌}
use comfy_ui_sol_h.Base.Int.{pos}

abbrev dtype_value : Dtype → Value
dtype_value bfloat16 = str "torch.bfloat16"
dtype_value float32 = str "torch.float32"
dtype_value int32 = str "torch.int32"
dtype_value other = str "other"

abbrev broadcast : ℕ → Value
broadcast stride = bool (stride == 0)

-- The rank, the element type and which strides are zero; the last stride must be one.
unfoldable pub dynamic_tensor_abi : Strided → Outcome Value
dynamic_tensor_abi t =
    assert (option_eq (last? t.strides) 1)
      (runtime_error "partitioned Sol CuTe arguments require a leading-last unit stride")
    >> ok (
        tuple (
          cons (int (pos (length t.shape)))
            (cons (dtype_value t.dtype) (cons (tuple (values (map broadcast t.strides))) nil))))

unfoldable pub abis_of : List Strided → Outcome (List Value)
unfolding dynamic_tensor_abi
abis_of [] = ok []
abis_of (t ∷ ts) = dynamic_tensor_abi t >>= λ abi. abis_of ts >>= λ rest. ok (abi ∷ rest)

-- The arguments of one union. `preparation` is a list that the caller shares between calls, if it
-- shares one.
pub record Union (C P : Type 0) : Type 0 where
  pub q : Tensor C
  pub k : Tensor C
  pub v : Tensor C
  pub tau : Float
  pub scale : Float
  pub sink_rows : ℕ
  pub key_bias : Option (List Float)
  pub mapped : Option (List Interval)
  pub preparation : Option (List (Prepared P))

unfoldable pub bias_fits : Option (List Float) → (kv_rows : ℕ) → Bool
bias_fits none kv_rows = true
bias_fits (some b) kv_rows = length b == kv_rows

-- One interval for each tile of 64 query rows.
unfoldable pub mapped_fits : Option (List Interval) → (q_rows : ℕ) → Bool
mapped_fits none q_rows = true
mapped_fits (some is') q_rows = length is' == blocks q_rows

module _ {C P : Type 0} (kernels : Kernels C P) where
  unfoldable pub check_union : Union C P → Outcome ⊤
  unfolding bias_fits mapped_fits
  check_union u =
      let arch = kernels.capability u.q.device in
      assert (str_eq (kernels.backend_for_arch arch) "cute_sm120")
        (runtime_error "partitioned Sol requires the packaged cute_sm120 backend")
      >> kernels.validate_cute arch (rows_in u.k)
      >> assert (leb u.sink_rows (rows_in u.k))
          (runtime_error "partitioned Sol exact K prefix is outside the K/V domain")
      >> assert (bias_fits u.key_bias (rows_in u.k))
          (runtime_error "partitioned Sol key bias must be contiguous FP32 [Tkv]")
      >> assert (mapped_fits u.mapped (rows_in u.q))
          (runtime_error "partitioned Sol mapped-neighbor metadata is invalid")
