-- ===== src/PartitionedRequest/Facts/Checked.antt =====
-- What the checks of the arguments in `partitioned_request_attention` of
-- sol_h3/partitioned_request.py leave known.
use comfy_ui_sol_h.Base.{some, Bool, ◌≡◌, ⊤, ℕ, true, ltb, refl, leb, subst}
use comfy_ui_sol_h.PartitionedRequest.Arguments.{
  Arguments, Checked, check_arguments, scale_valid, supported_kind,
}
use comfy_ui_sol_h.PartitionedRequest.Kernels.{Kernels}
use comfy_ui_sol_h.PartitionedRequest.Tensors.{Tensor, validate_thd, geometry_valid, rows_in}
use comfy_ui_sol_h.Caches.DeviceDescriptor.{Device}
use comfy_ui_sol_h.Py.Outcome.{
  Outcome, Exn, ok, ◌>>◌, >>=-eq-ok, assert, or_raise, ok-eq, assert-true,
}
use comfy_ui_sol_h.Py.{natural}
use mathlib.Core.Bool.{false}
use comfy_ui_sol_h.Interop.Warmup.{is_dict}
use comfy_ui_sol_h.Py.Text.{digest_text}
use comfy_ui_sol_h.MappedNeighbors.Wire.{digest_of}
use comfy_ui_sol_h.PartitionedRequest.Facts.Ranges.{
  geometry_valid-rows, or_raise-some, digest_of-digest_text,
}

pub record IsChecked {C : Type 0} (a : Arguments C) (c : Checked) : Type 0 where
  pub kind : supported_kind a.kind ≡ true
  pub block : natural a.block_index ≡ some c.block
  pub q_rows : ltb 0 (rows_in a.q) ≡ true
  pub kv_rows : ltb 0 (rows_in a.k) ≡ true
  pub sink : leb c.sink (rows_in a.k) ≡ true
  pub digest : digest_text c.semantic_digest ≡ true
  pub sunk : natural a.sink_rows ≡ some c.sink
  pub named : digest_of a.semantic_digest ≡ some c.semantic_digest

-- `validate_thd` is a chain of checks that starts with the geometry.
first_check :
    (t : Bool) (e : Exn) (a b c d : Outcome ⊤) (u : ⊤)
    → (assert t e >> a >> b >> c >> d) ≡ ok u
    → t ≡ true
first_check true e a b c d u h = refl
first_check false e a b c d u h = cc

validate_thd-geometry :
    {C : Type 0} (capability : Device → ℕ × ℕ) (tracked : Bool) (q k v : Tensor C) (u : ⊤)
    → validate_thd capability tracked q k v ≡ ok u
    → geometry_valid q.layout.shape k.layout.shape v.layout.shape ≡ true
unfolding validate_thd
validate_thd-geometry capability tracked q k v u h = first_check _ _ _ _ _ _ u h

module _ {C P : Type 0} (kernels : Kernels C P) where
  pub check_arguments-IsChecked :
      (a : Arguments C) (c : Checked) → check_arguments kernels a ≡ ok c → IsChecked a c
  unfolding check_arguments
  check_arguments-IsChecked a c h =
      let (t0, shapes, h0) =
        >>=-eq-ok (validate_thd kernels.capability kernels.tracked a.q a.k a.v) _ h in
      let (t1, options, h1) = >>=-eq-ok (assert (is_dict a.transformer_options) _) _ h0 in
      let (t2, kind, h2) = >>=-eq-ok (assert (supported_kind a.kind) _) _ h1 in
      let (block, numbered, h3) = >>=-eq-ok (or_raise (natural a.block_index) _) _ h2 in
      let (t4, scaled, h4) = >>=-eq-ok (assert (scale_valid a.scale) _) _ h3 in
      let (sink, sunk, h5) = >>=-eq-ok (or_raise (natural a.sink_rows) _) _ h4 in
      let (t6, within, h6) = >>=-eq-ok (assert (leb sink (rows_in a.k)) _) _ h5 in
      let (name, named, h7) = >>=-eq-ok (or_raise (digest_of a.semantic_digest) _) _ h6 in
      let (some_q, some_kv) =
        geometry_valid-rows a.q.layout.shape a.k.layout.shape a.v.layout.shape
          (validate_thd-geometry kernels.capability kernels.tracked a.q a.k a.v t0 shapes) in
      subst (IsChecked a) (ok-eq _ c h7) (record {
        kind = assert-true (supported_kind a.kind) _ kind;
        block = or_raise-some (natural a.block_index) _ block numbered;
        q_rows = some_q;
        kv_rows = some_kv;
        sink = assert-true (leb sink (rows_in a.k)) _ within;
        digest =
            digest_of-digest_text a.semantic_digest name
              (or_raise-some (digest_of a.semantic_digest) _ name named);
        sunk = or_raise-some (natural a.sink_rows) _ sink sunk;
        named = or_raise-some (digest_of a.semantic_digest) _ name named;
      })
