-- ===== src/PartitionedRequest/Facts/Valid.antt =====
-- The fields that `partitioned_request_attention` of sol_h3/partitioned_request.py publishes are
-- valid ones for `_accept_partitioned_receipt` of sol_h3/partitioned_history.py.
use comfy_ui_sol_h.Base.{
  none, some, Option, String, Bool, ◌≡◌, if◌then◌else◌, str_eq, true, ◌||◌, and_intro, ◌&&◌, subst,
  sym, refl,
}
use comfy_ui_sol_h.PartitionedRequest.Calls.{Plan}
use comfy_ui_sol_h.PartitionedRequest.Facts.Plans.{IsPlan}
use comfy_ui_sol_h.Receipts.Partitioned.{
  Completion, receipt_tag, fields_valid, completion_valid, map_valid, request_abi, header_valid,
  is_none, attention_kind, counts_valid, dense_route, range_valid, route_valid, equals,
}
use comfy_ui_sol_h.Receipts.Publish.{
  Call, Mapped, completion_fields, rows, k_range, optional_str, map_digest_of, descriptor_digest_of,
  policy_of,
}
use comfy_ui_sol_h.Py.{str, bool, float, py_eq}
use comfy_ui_sol_h.PartitionedRequest.Facts.Maps.{DigestIfAny, MappedDigests}
use comfy_ui_sol_h.PartitionedRequest.Completions.{completion_of, is_dense}
use comfy_ui_sol_h.PartitionedRequest.Arguments.{supported_kind}
use comfy_ui_sol_h.MappedNeighbors.Types.{policy}
use comfy_ui_sol_h.PartitionedRequest.Tensors.{rows_in}
use comfy_ui_sol_h.Py.Text.{digest}

-- The fields of a call as the history policy reads them.
abbrev pub unpacked : Call → Completion
unpacked c = record {
  tag = str receipt_tag;
  abi = str request_abi;
  semantic_digest = str c.semantic_digest;
  kind = str c.kind;
  execution_mode = str c.execution_mode;
  q_rows = rows c.q_rows;
  kv_rows = rows c.kv_rows;
  sink_rows = rows c.sink_rows;
  prefix_k_range = k_range c.prefix_k_range;
  prefix_log_key_measure = float c.prefix_log_key_measure;
  map_digest = map_digest_of c.mapped;
  descriptor_digest = descriptor_digest_of c.mapped;
  mapped_policy = policy_of c.mapped;
  kernel_contract = optional_str c.kernel_contract;
  completed = bool true;
}

fields_valid-unpacked :
    (route : String) (c : Call)
    → completion_valid (str route) (unpacked c) ≡ true
    → fields_valid (str route) (completion_fields c) ≡ true
unfolding fields_valid completion_fields
fields_valid-unpacked route c h = h

completion_valid-parts :
    (route : String) (u : Completion)
    → header_valid u ≡ true
    → range_valid
        (str_eq route dense_route)
        u.sink_rows
        u.kv_rows
        u.prefix_log_key_measure
        u.prefix_k_range
      ≡ true
    → map_valid u ≡ true
    → route_valid (str route) u ≡ true
    → completion_valid (str route) u ≡ true
unfolding completion_valid py_eq
completion_valid-parts route u a b c d = and_intro (and_intro (and_intro a b) c) d

descriptor_fields :
    (o : Option String)
    → DigestIfAny o
    → (is_none (optional_str o) || digest (optional_str o)) ≡ true
unfolding digest
descriptor_fields none d = refl
descriptor_fields (some s) d = d

-- The map's part of the fields.
abbrev map_fields : Option Mapped → Bool
map_fields m =
    if is_none (map_digest_of m)
    then is_none (descriptor_digest_of m) && is_none (policy_of m)
    else digest (map_digest_of m)
      && equals (policy_of m) policy
      && (is_none (descriptor_digest_of m) || digest (descriptor_digest_of m))

map_fields-digests : (m : Option Mapped) → MappedDigests m → map_fields m ≡ true
unfolding digest py_eq
map_fields-digests none d = refl
map_fields-digests (some m) (d, e) =
    and_intro (and_intro d refl) (descriptor_fields m.descriptor_digest e)

map_valid-digests : (c : Call) → MappedDigests c.mapped → map_valid (unpacked c) ≡ true
unfolding map_valid
map_valid-digests c d = map_fields-digests c.mapped d

module _ {C : Type 0} (p : Plan C) (good : IsPlan p) (mode : String)
    (contract : Option String) where
  header_valid-plan : header_valid (unpacked (completion_of p mode contract)) ≡ true
  unfolding header_valid completion_of digest attention_kind counts_valid supported_kind py_eq
  header_valid-plan =
      and_intro
        (and_intro
          (and_intro (and_intro good.checked.digest good.checked.kind)
            (and_intro (and_intro good.checked.q_rows good.checked.kv_rows) good.checked.sink))
          good.measure)
        refl

  -- The fields are valid for a route if the range is and the rest that depends on the route is.
  pub fields_valid-plan :
      (route : String)
      → str_eq route dense_route ≡ is_dense p
      → route_valid (str route) (unpacked (completion_of p mode contract)) ≡ true
      → fields_valid (str route) (completion_fields (completion_of p mode contract)) ≡ true
  unfolding completion_of
  fields_valid-plan route same h = fields_valid-unpacked route (completion_of p mode contract) (
      completion_valid-parts route (unpacked (completion_of p mode contract)) header_valid-plan
        (subst
          (λ b.
            range_valid b (rows p.checked.sink) (rows (rows_in p.arguments.k))
              (float p.arguments.prefix_log_key_measure) (k_range p.prefix)
            ≡ true)
          (sym same) good.ranged)
        (map_valid-digests (completion_of p mode contract) good.mapping.digests) h)
