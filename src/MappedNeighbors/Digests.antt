-- ===== src/MappedNeighbors/Digests.antt =====
-- The digests of maps and descriptors of sol_h3/mapped_neighbors.py are those of the canonical JSON.
use comfy_ui_sol_h.Base.{some, String, ◌≡◌, true, ℕ, subst, sym, ◌==◌}
use comfy_ui_sol_h.MappedNeighbors.Types.{
  ok, ValidatedMap, DescriptorPlan, require, schema_reason, guard,
}
use comfy_ui_sol_h.Py.{Value}
use comfy_ui_sol_h.Py.Text.{digest_text}
use comfy_ui_sol_h.MappedNeighbors.Wire.{
  validate_runs, validate_cold, validated_of, validate_fields, wire_of, runs_of, read_header,
  check_domain, scan_runs, scan_start, payload,
}
use comfy_ui_sol_h.MappedNeighbors.Descriptor.{compile_cold, descriptor_payload}
use comfy_ui_sol_h.MappedNeighbors.Descriptor.Exact.{compile_cold-moved}
use comfy_ui_sol_h.MappedNeighbors.Wire.Sound.{ok-eq, >>=-eq-ok}

module _ (sha256_json : Value → String)
    (hex : (v : Value) → digest_text (sha256_json v) ≡ true) where
  validate_runs-digest :
      (owner plan : String) (group q kv sink : ℕ) (raw : Value) (v : ValidatedMap)
      → validate_runs sha256_json owner plan group q kv sink raw ≡ ok v
      → digest_text v.map_digest ≡ true
  unfolding validate_runs validated_of
  validate_runs-digest owner plan group q kv sink raw v h =
      let (raws, h0, h1) = >>=-eq-ok (require (runs_of raw) schema_reason) _ h in
      let (s, h2, h3) = >>=-eq-ok (scan_runs q kv (scan_start q kv) raws) _ h1 in
      let (t, h4, h5) = >>=-eq-ok (guard (s.expected_q == q) schema_reason) _ h3 in
      subst (λ z. digest_text z.map_digest ≡ true)
        (ok-eq (validated_of sha256_json owner plan group q kv sink s) v h5)
        (hex (payload owner plan group q kv sink s.runs))

  pub validate_cold-digest :
      (w q kv sink : Value) (v : ValidatedMap)
      → validate_cold sha256_json w q kv sink ≡ ok v
      → digest_text v.map_digest ≡ true
  unfolding validate_cold validate_fields
  validate_cold-digest w q kv sink v h =
      let (wire, h0, h1) = >>=-eq-ok (wire_of w) _ h in
      let (header, h2, h3) = >>=-eq-ok (read_header wire) _ h1 in
      let (t, h4, h5) = >>=-eq-ok (check_domain header q kv sink) _ h3 in
      validate_runs-digest header.owner header.plan_digest header.group_index header.q_rows
        header.kv_rows header.sink_rows wire.raw_runs v h5

  pub compile_cold-digest :
      (v : ValidatedMap) (plan : DescriptorPlan)
      → compile_cold sha256_json v ≡ ok (some plan)
      → digest_text plan.descriptor_digest ≡ true
  compile_cold-digest v plan h =
      let (moved, is', e, eq) = compile_cold-moved sha256_json v plan h in
      subst (λ z. digest_text z.descriptor_digest ≡ true) (sym eq) (hex (descriptor_payload v is'))
