-- ===== src/PartitionedRequest/Arguments.antt =====
-- The arguments of `partitioned_request_attention` of sol_h3/partitioned_request.py and its checks
-- of them.
use comfy_ui_sol_h.Base.{
  none, some, String, ℕ, Option, Bool, false, str_eq, ⊤, max, ◌||◌, ◌&&◌, not, ltb, ◌==◌, leb,
}
use comfy_ui_sol_h.PartitionedRequest.Kernels.{Kernels}
use comfy_ui_sol_h.PartitionedRequest.Tensors.{Tensor, validate_thd, rows_in}
use comfy_ui_sol_h.Py.{
  Value, int, tuple, cons, nil, finite, Float, is_finite, float_lt, whole, float_eq, natural,
}
use comfy_ui_sol_h.Base.Int.{pos}
use comfy_ui_sol_h.Py.Outcome.{◌>>◌, ◌>>=◌, Outcome, Exn, runtime_error, ok, ◌>>◌, assert, or_raise}
use comfy_ui_sol_h.Interop.Warmup.{is_dict}
use comfy_ui_sol_h.MappedNeighbors.Wire.{digest_of}

pub record Arguments (C : Type 0) : Type 0 where
  pub q : Tensor C
  pub k : Tensor C
  pub v : Tensor C
  pub transformer_options : Value
  pub block_index : Value
  pub kind : String
  pub scale : Float
  pub sink_rows : Value
  pub prefix_k_range : Value
  pub prefix_log_key_measure : Float
  pub semantic_digest : Value
  pub query_position_map : Value
  pub force_dense : Bool

-- The arguments that are read as numbers and texts once they have been checked.
pub record Checked : Type 0 where
  pub block : ℕ
  pub sink : ℕ
  pub semantic_digest : String

-- 128 ** -0.5
abbrev pub native_scale : Float
native_scale = finite false 6369051672525773 1018

unfoldable pub supported_kind : String → Bool
supported_kind kind =
    str_eq kind "global" || str_eq kind "local" || str_eq kind "anchor" || str_eq kind "full"

unfoldable pub scale_valid : Float → Bool
scale_valid scale = is_finite scale && float_lt (whole 0) scale && float_eq scale native_scale

abbrev error : String → Exn
error = runtime_error

-- A range that `_key_bias` has passed.
unfoldable pub pair_of : Value → Option (ℕ × ℕ)
pair_of (tuple (cons (int (pos start)) (cons (int (pos stop)) nil))) = some (start, stop)
pair_of _ = none

-- How the range of the measure stands to the sink.
unfoldable pub range_allowed : (dense : Bool) (sink : ℕ) → Option (ℕ × ℕ) → Outcome ⊤
range_allowed dense sink none = ok tt
range_allowed dense sink (some (start, stop)) =
    assert (not (ltb start sink && not (dense && (start == 0) && ltb sink stop)))
      (error "partitioned Sol target-prefix K/V range overlaps the global sink")
    >> assert (dense || start == sink)
        (error "partitioned Sol sparse key measure must begin exactly at the global sink boundary")

abbrev pub exact_end_of : ℕ → Option (ℕ × ℕ) → ℕ
exact_end_of sink none = sink
exact_end_of sink (some (start, stop)) = max sink stop

module _ {C P : Type 0} (kernels : Kernels C P) where
  unfoldable pub check_arguments : Arguments C → Outcome Checked
  unfolding supported_kind scale_valid
  check_arguments a = do
    validate_thd kernels.capability kernels.tracked a.q a.k a.v
    assert (is_dict a.transformer_options) (error "partitioned Sol requires transformer options")
    assert (supported_kind a.kind) (error "partitioned Sol attention kind is unsupported")
    block ← or_raise (natural a.block_index) (error "partitioned Sol block index is invalid")
    assert (scale_valid a.scale) (error "partitioned Sol requires the native H3 attention scale")
    sink ← or_raise (natural a.sink_rows) (error "partitioned Sol sink-row count is invalid")
    assert (leb sink (rows_in a.k)) (error "partitioned Sol sink-row count is invalid")
    name ←
        or_raise (digest_of a.semantic_digest) (error "partitioned Sol semantic digest is invalid")
    ok (record { block = block; sink = sink; semantic_digest = name })
