-- ===== src/Receipts/Accepted.antt =====
-- A completion that `_record_completion` of sol_h3/partitioned_request.py publishes, put before
-- `_accept_partitioned_receipt` of sol_h3/partitioned_history.py.
use comfy_ui_sol_h.Receipts.Ledger.{Ledger, Forward, proof_of, full_receipt, holds_value-add}
use comfy_ui_sol_h.Receipts.Partitioned.{
  owned, accept_partitioned, is_partitioned_route, fields_valid, owned_within,
}
use comfy_ui_sol_h.Receipts.Publish.{
  Call, Mapped, completion_fields, publish, rows, receipt, record_completion, optional_str,
  map_digest_of, descriptor_digest_of, policy_of, proofs_of, k_range, record_within,
}
use comfy_ui_sol_h.Py.{Value, is_plain, all_plain, is_finite, int, str, py_eq}
use comfy_ui_sol_h.Base.{
  ℕ, ◌≡◌, String, true, ◌==◌, some, and_intro, ==-refl, Option, refl, none, subst,
}
use comfy_ui_sol_h.Base.Int.{pos}
use comfy_ui_sol_h.Py.Outcome.{ok, >>=-eq-ok, assert, runtime_error, assert-true, ok-eq}
use mathlib.Core.Option.{none}

range-plain : (r : Option (ℕ × ℕ)) → is_plain (k_range r) ≡ true
unfolding is_plain all_plain
range-plain none = refl
range-plain (some p) = refl

optional_str-plain : (o : Option String) → is_plain (optional_str o) ≡ true
unfolding is_plain
optional_str-plain none = refl
optional_str-plain (some s) = refl

map_digest-plain : (m : Option Mapped) → is_plain (map_digest_of m) ≡ true
unfolding is_plain
map_digest-plain none = refl
map_digest-plain (some m) = refl

descriptor_digest-plain : (m : Option Mapped) → is_plain (descriptor_digest_of m) ≡ true
unfolding is_plain
descriptor_digest-plain none = refl
descriptor_digest-plain (some m) = optional_str-plain m.descriptor_digest

policy-plain : (m : Option Mapped) → is_plain (policy_of m) ≡ true
unfolding is_plain
policy-plain none = refl
policy-plain (some m) = refl

pub proof-plain :
    (block : ℕ) (fields : Value)
    → is_plain fields ≡ true
    → is_plain (proof_of (rows block) fields) ≡ true
unfolding is_plain all_plain
proof-plain block fields h = and_intro h refl

-- A completion is plain if its measure is finite.
completion_fields-plain :
    (c : Call) → is_finite c.prefix_log_key_measure ≡ true → is_plain (completion_fields c) ≡ true
unfolding completion_fields is_plain all_plain
completion_fields-plain c h = and_intro (range-plain c.prefix_k_range) (
    and_intro h (
      and_intro (map_digest-plain c.mapped) (
        and_intro (descriptor_digest-plain c.mapped) (
          and_intro (policy-plain c.mapped)
            (and_intro (optional_str-plain c.kernel_contract) refl)))))

published-owned :
    (f : Forward) (s : Ledger) (block : ℕ) (route : String) (fields : Value)
    → is_plain fields ≡ true
    → (f.owner == s.identity) ≡ true
    → owned (some (publish f block route fields s)) (int (pos block)) fields ≡ true
unfolding owned owned_within publish receipt
published-owned f s block route fields plain own =
    and_intro (and_intro own (==-refl f.evaluation)) (
      (holds_value-add (proof_of (rows block) fields) (proofs_of s f.evaluation)
        (proof-plain block fields plain)))

pub publish_of :
    (o : Option Forward) (s s' : Ledger) (block : ℕ) (route : String) (fields : Value)
    → record_within o block route fields s ≡ ok s'
    → (f : Forward) × (o ≡ some f)
      × ((f.owner == s.identity) ≡ true)
      × (publish f block route fields s ≡ s')
unfolding record_within
publish_of none s s' block route fields h = cc
publish_of (some f) s s' block route fields h =
    let (t, own, done) =
      >>=-eq-ok
        (assert (f.owner == s.identity)
          (runtime_error "partitioned Sol request ownership changed during an H3 block"))
        (λ _. ok (publish f block route fields s)) h in
    (f, refl, assert-true (f.owner == s.identity) _ own, ok-eq _ _ done)

accepted_of :
    (s : Ledger) (block : ℕ) (route : String) (fields : Value)
    → is_partitioned_route (str route) ≡ true
    → fields_valid (str route) fields ≡ true
    → owned (some s) (int (pos block)) fields ≡ true
    → accept_partitioned (some s) (full_receipt block route fields) ≡ true
unfolding accept_partitioned py_eq
accepted_of s block route fields known valid own = and_intro (and_intro known valid) own

-- A completion with a finite measure and valid fields, once published, is accepted, as long as the
-- forward that published it runs.
pub record_completion-accepted :
    (s s' : Ledger) (block : ℕ) (route : String) (c : Call)
    → is_finite c.prefix_log_key_measure ≡ true
    → is_partitioned_route (str route) ≡ true
    → fields_valid (str route) (completion_fields c) ≡ true
    → record_completion block route (completion_fields c) s ≡ ok s'
    → accept_partitioned (some s') (full_receipt block route (completion_fields c)) ≡ true
unfolding record_completion
record_completion-accepted s s' block route c finite_measure known valid done =
    let (f, active, own, eq) = publish_of s.forward s s' block route (completion_fields c) done in
    subst (λ t. accept_partitioned (some t) (full_receipt block route (completion_fields c)) ≡ true)
      eq
      (accepted_of (publish f block route (completion_fields c) s) block route (completion_fields c)
        known valid
        (published-owned f s block route (completion_fields c)
          (completion_fields-plain c finite_measure) own))
