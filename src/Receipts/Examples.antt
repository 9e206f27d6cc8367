-- ===== src/Receipts/Examples.antt =====
-- A dense completion of a small request, published and put before the history policy.
use comfy_ui_sol_h.Receipts.Ledger.{
  Ledger, Forward, full_receipt, proof_of, holds_value, add_value, plain_receipt,
}
use comfy_ui_sol_h.Receipts.Publish.{
  Call, rows, publish, record_completion, completion_fields, receipt,
}
use comfy_ui_sol_h.Receipts.Runs.{Publication, record_all, accept_partitioned-published}
use comfy_ui_sol_h.Base.{none, some, [], ◌∷◌, String, ◌≡◌, true, refl, false}
use comfy_ui_sol_h.Py.{whole, Value, is_finite, py_eq, str}
use comfy_ui_sol_h.Receipts.Partitioned.{
  fields_valid, accept_partitioned, dense_route, is_partitioned_route,
}
use comfy_ui_sol_h.Py.Outcome.{ok}
use comfy_ui_sol_h.Receipts.Accepted.{record_completion-accepted}
use comfy_ui_sol_h.Py.Text.{digest}
use comfy_ui_sol_h.Py.{float_lt}
use comfy_ui_sol_h.Receipts.Routes.{accept_partitioned-route}
use comfy_ui_sol_h.Receipts.History.{accept_receipts}
use comfy_ui_sol_h.Routing.Local.{mapping_route}
use comfy_ui_sol_h.Receipts.Fallbacks.{accept_receipts-mapping}

abbrev some_digest : String
some_digest = "0123456789abcdef0123456789abcdef0123456789abcdef0123456789abcdef"

abbrev dense_call : Call
dense_call = record {
  semantic_digest = some_digest;
  kind = "global";
  execution_mode = "dense_warmup";
  q_rows = 64;
  kv_rows = 128;
  sink_rows = 16;
  prefix_k_range = some (16, 32);
  prefix_log_key_measure = whole 0;
  mapped = none;
  kernel_contract = none;
}

abbrev third_forward : Forward
third_forward = record { owner = 7; evaluation = 3; routes = [] }

-- The proof and the receipt are those of the second evaluation.
abbrev before : Ledger
before = record {
  identity = 7;
  forward = some third_forward;
  mapped_validated = [];
  partitioned_validated = proof_of (rows 4) (str "old") ∷ [];
  receipt_evaluation = some 2;
  partitioned_receipts = 1;
  sink = some [];
}

abbrev dense_fields : Value
dense_fields = completion_fields dense_call

abbrev after : Ledger
after = publish third_forward 5 dense_route dense_fields before

-- Nothing of the earlier evaluation is left.
after_proofs : after.partitioned_validated ≡ proof_of (rows 5) dense_fields ∷ []
unfolding publish receipt add_value holds_value
after_proofs = refl

dense_fields-valid : fields_valid (str dense_route) dense_fields ≡ true
unfolding fields_valid completion_fields py_eq digest is_finite float_lt
dense_fields-valid = refl

finite_measure : is_finite (whole 0) ≡ true
unfolding is_finite
finite_measure = refl

known : is_partitioned_route (str dense_route) ≡ true
unfolding py_eq
known = refl

published : record_completion 5 dense_route dense_fields before ≡ ok after
unfolding record_completion
published = refl

after_accepted : accept_partitioned (some after) (full_receipt 5 dense_route dense_fields) ≡ true
after_accepted =
    record_completion-accepted before after 5 dense_route dense_call finite_measure known
      dense_fields-valid published

record_completion-accepted_example :
    accept_partitioned (some after) (full_receipt 5 dense_route dense_fields) ≡ true
record_completion-accepted_example =
    record_completion-accepted before after 5 dense_route dense_call finite_measure known
      dense_fields-valid published

abbrev dense_publication : Publication
dense_publication = record { block = 5; route = dense_route; fields = dense_fields }

published_all : record_all (dense_publication ∷ []) before ≡ ok after
unfolding record_all record_completion
published_all = refl

accept_partitioned-published_example :
    holds_value (proof_of (rows 5) dense_fields) (proof_of (rows 5) dense_fields ∷ []) ≡ true
accept_partitioned-published_example =
    accept_partitioned-published (dense_publication ∷ []) 3 before after 5 dense_route dense_fields
      (third_forward, refl, refl) refl published_all after_accepted

accept_partitioned-route_example : dense_route ≡ dense_route
accept_partitioned-route_example =
    accept_partitioned-route (some after) (some after) 5 5 dense_route dense_route dense_fields
      after_accepted after_accepted

accept_receipts-mapping_example :
    accept_receipts none (
      plain_receipt 1 "sol" ∷ plain_receipt 2 (mapping_route "schema") ∷ plain_receipt 3 "sol" ∷ [])
    ≡ false
accept_receipts-mapping_example =
    accept_receipts-mapping none (plain_receipt 1 "sol" ∷ []) (plain_receipt 3 "sol" ∷ []) 2
      "schema"

-- Without that receipt it is.
plain_history : accept_receipts none (plain_receipt 1 "sol" ∷ plain_receipt 3 "sol" ∷ []) ≡ true
unfolding accept_receipts py_eq
plain_history = refl
