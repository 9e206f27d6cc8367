-- ===== src/MappedNeighbors/Types.antt =====
-- The data classes of sol_h3/mapped_neighbors.py, its constants and its one exception.
use comfy_ui_sol_h.Base.{ℕ, Bool, Option, none, some, List, String, ⊤, if◌then◌else◌}

-- The `reason` of a `MappingUnavailable`.
pub data Reason : Type 0 where
  missing schema_reason owner_reason domain fragmented interval_width backend : Reason
  metadata_budget : Reason

-- What a call returns or raises.
pub data Result {ℓ} (A : Type ℓ) : Type ℓ where
  ok : A → Result A
  unavailable : Reason → Result A

-- What follows a check runs if the check passes.
abbrev pub ◌>>=◌ {κ ℓ} :
    {Found : Type κ} {Next : Type ℓ} → Result Found → (next : Found → Result Next) → Result Next
unavailable reason >>= next = unavailable reason
ok found >>= next = next found

abbrev pub ◌>>◌ {ℓ} : {Next : Type ℓ} → Result ⊤ → Result Next → Result Next
checked >> next = checked >>= λ _. next

infixl 5 ◌>>=◌ ◌>>◌
-- `if not test: raise MappingUnavailable(reason)`
abbrev pub guard : Bool → Reason → Result ⊤
guard test reason = if test then ok tt else unavailable reason

abbrev pub require {ℓ} : {A : Type ℓ} → Option A → Reason → Result A
require (some a) e = ok a
require none e = unavailable e

-- One run of an affine map: the query rows from `q_begin` up to `q_end` stand at the key rows from
-- `kv_begin` on.
pub record Run : Type 0 where
  pub q_begin : ℕ
  pub q_end : ℕ
  pub kv_begin : ℕ

pub record ValidatedMap : Type 0 where
  pub owner_generation : String
  pub plan_digest : String
  pub group_index : ℕ
  pub q_rows : ℕ
  pub kv_rows : ℕ
  pub sink_rows : ℕ
  pub runs : List Run
  pub map_digest : String
  pub identity_aligned : Bool

-- A half-open interval of key blocks.
pub record Interval : Type 0 where
  pub start : ℕ
  pub stop : ℕ

pub record DescriptorPlan : Type 0 where
  pub validated : ValidatedMap
  pub intervals : List Interval
  pub descriptor_digest : String

abbrev pub wire_tag : String
wire_tag = "vdn_query_positions"

abbrev pub wire_schema : ℕ
wire_schema = 1

abbrev pub policy : String
policy = "k64-union-radius1-additive-interval4-v1"

abbrev pub receipt_tag : String
receipt_tag = "vdn_mapped_neighbor_v1"

abbrev pub max_interval_width : ℕ
max_interval_width = 4

abbrev pub block_size : ℕ
block_size = 64

abbrev pub max_cache_entries : ℕ
max_cache_entries = 64

abbrev pub max_device_cache_bytes : ℕ
max_device_cache_bytes = 4194304

abbrev pub int32_max : ℕ
int32_max = 2147483647
