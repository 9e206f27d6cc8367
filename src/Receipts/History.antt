-- ===== src/Receipts/History.antt =====
-- `HistoryPolicy.accept_receipts` of sol_h3/interop.py.
use comfy_ui_sol_h.Base.{
  List, String, Option, ℕ, Bool, ◌∷◌, if◌then◌else◌, true, [], false, not, some, str_eq, ◌==◌, ◌||◌,
  ◌&&◌, none, all,
}
use comfy_ui_sol_h.Py.{Value, Values, tuple, str, items, cons, is_natural, nil}
use comfy_ui_sol_h.Receipts.Ledger.{Ledger}
use comfy_ui_sol_h.Py.Text.{codes}
use comfy_ui_sol_h.Receipts.Partitioned.{equals, is_true}
use mathlib.Core.Option.{none}
use comfy_ui_sol_h.Receipts.Publish.{mapped_local_route}
use comfy_ui_sol_h.Receipts.Mapped.{nonempty_str, accept_mapped, positive_int}

-- `text.startswith(prefix)`
unfoldable pub starts_with : (prefix text : List ℕ) → Bool
starts_with [] text = true
starts_with (c ∷ prefix) [] = false
starts_with (c ∷ prefix) (d ∷ text) = c == d && starts_with prefix text

abbrev pub text_starts : (prefix text : String) → Bool
text_starts prefix text = starts_with (codes prefix) (codes text)

abbrev pub plain_routes : List String
plain_routes =
    "sol" ∷ "sol_streamed" ∷ "sol_external_mixed" ∷ "sol_external_mixed_measure" ∷ "dense_warmup"
    ∷ "dense_warmup_streamed" ∷ "vdn_local_sol" ∷ "vdn_dense_warmup" ∷ "vdn_local_native"
    ∷ "vdn_global_native" ∷ "vdn_anchor_native" ∷ "vdn_flex_masked_native"
    ∷ "external_sequence_native" ∷ []

-- `route in routes`
unfoldable pub one_of : String → List String → Bool
one_of route [] = false
one_of route (r ∷ rs) = str_eq route r || one_of route rs

unfoldable pub accept_plain : String → Bool
unfolding starts_with one_of
accept_plain route =
    not (text_starts "vdn_local_native_mapping:" route) && one_of route plain_routes

pub record WeightedFields : Type 0 where
  pub key : Value
  pub call_token : Value
  pub owner_generation : Value
  pub semantic_digest : Value
  pub implementation_profile : Value
  pub numerical_route : Value
  pub q_rows : Value
  pub kv_rows : Value
  pub exact_range_digest : Value
  pub preprocess_digest : Value
  pub completed : Value

unfoldable pub unpack_weighted : List Value → Option WeightedFields
unpack_weighted (a ∷ b ∷ c ∷ d ∷ e ∷ f ∷ g ∷ h ∷ i ∷ j ∷ k ∷ []) = some (record {
  key = a;
  call_token = b;
  owner_generation = c;
  semantic_digest = d;
  implementation_profile = e;
  numerical_route = f;
  q_rows = g;
  kv_rows = h;
  exact_range_digest = i;
  preprocess_digest = j;
  completed = k;
})
unpack_weighted _ = none

abbrev pub call_token_valid : Value → Bool
call_token_valid (tuple (cons name (cons n nil))) = equals name "sol_h3_evaluation" && is_natural n
call_token_valid _ = false

-- The profile and the numerical route of a weighted receipt.
abbrev pub sparse_profile : String × String
sparse_profile = ("weighted_exact_blocks_v1", "sol_h3_sm120_weighted_exact_blocks")

abbrev pub dense_profile : String × String
dense_profile = ("dense_exact_v1", "sol_h3_weighted_dense_exact")

abbrev pub measure_key : String
measure_key = "attention_measure_v1"

unfoldable pub weighted_valid : (profile route : String) → WeightedFields → Bool
weighted_valid profile route w =
    equals w.key measure_key
    && call_token_valid w.call_token
    && nonempty_str w.owner_generation
    && nonempty_str w.semantic_digest
    && equals w.implementation_profile profile
    && equals w.numerical_route route
    && positive_int w.q_rows
    && positive_int w.kv_rows
    && nonempty_str w.exact_range_digest
    && nonempty_str w.preprocess_digest
    && is_true w.completed

unfoldable pub expected_profile : String → Option (String × String)
unfolding starts_with
expected_profile route =
    if str_eq route "sol_external_mixed_weighted_measure"
    then some sparse_profile
    else (if str_eq route "dense_warmup" || text_starts "kernel_unavailable:" route
        then some dense_profile
        else none)

abbrev accept_unpacked : Option (String × String) → Option WeightedFields → Bool
accept_unpacked none w = false
accept_unpacked (some p) none = false
accept_unpacked (some (profile, route)) (some w) = weighted_valid profile route w

unfoldable pub accept_weighted : String → Value → Bool
unfolding expected_profile unpack_weighted weighted_valid
accept_weighted route (tuple xs) =
    accept_unpacked (expected_profile route) (unpack_weighted (items xs))
accept_weighted route _ = false

unfoldable pub accept_fields : (owned : List Value) (block : Value) (route : String) → Value → Bool
unfolding accept_weighted
accept_fields owned block route fields =
    if str_eq route mapped_local_route
    then accept_mapped owned block fields
    else accept_weighted route fields

-- A receipt of three or of four parts.
unfoldable pub accept_parts : (owned : List Value) (block route : Value) → Values → Bool
unfolding accept_plain accept_fields
accept_parts owned block (str route) nil = accept_plain route
accept_parts owned block (str route) (cons fields nil) = accept_fields owned block route fields
accept_parts owned block _ _ = false

unfoldable pub accept_item : (owned : List Value) → Value → Bool
unfolding accept_parts
accept_item owned (tuple (cons provider (cons block (cons route rest)))) =
    equals provider "sol_h3" && is_natural block && accept_parts owned block route rest
accept_item owned _ = false

-- With no request no mapped receipt is owned.
abbrev pub owned_mapped_of : Option Ledger → List Value
owned_mapped_of none = []
owned_mapped_of (some s) = s.mapped_validated

unfoldable pub accept_receipts : Option Ledger → List Value → Bool
unfolding accept_item
accept_receipts request [] = false
accept_receipts request (r ∷ rs) = all (accept_item (owned_mapped_of request)) (r ∷ rs)
