-- ===== src/PartitionedRequest/Descriptors.antt =====
-- `_descriptor_for_wire` of sol_h3/partitioned_request.py.
use comfy_ui_sol_h.Base.{none, some, String, Option, List, Bool, false, true, ℕ, if◌then◌else◌}
use comfy_ui_sol_h.Caches.DeviceDescriptor.{Device, Given, device_descriptor}
use comfy_ui_sol_h.MappedNeighbors.Types.{Reason, Result, Interval, ValidatedMap, DescriptorPlan}
use comfy_ui_sol_h.PartitionedRequest.Engine.{Engine, Action, pure, lift, ◌>>=◌}
use comfy_ui_sol_h.Py.{Value, nothing}
use comfy_ui_sol_h.Py.Outcome.{Outcome, Exn, runtime_error, mapping_unavailable}
use Prim.Native.String.{◌++◌ as text_append}
use mathlib.Core.Bool.{false}
use comfy_ui_sol_h.MappedNeighbors.Wire.{validate_cold}
use comfy_ui_sol_h.Receipts.Publish.{rows}
use comfy_ui_sol_h.MappedNeighbors.Descriptor.{compile_cold}

abbrev pub reason_text : Reason → String
reason_text Reason.missing = "missing"
reason_text Reason.schema_reason = "schema"
reason_text Reason.owner_reason = "owner"
reason_text Reason.domain = "domain"
reason_text Reason.fragmented = "fragmented"
reason_text Reason.interval_width = "interval_width"
reason_text Reason.backend = "backend"
reason_text Reason.metadata_budget = "metadata_budget"

abbrev pub unavailable_error : String → Exn
unavailable_error reason =
    runtime_error (text_append "partitioned Sol mapped-neighbor contract is unavailable: " reason)

-- `except MappingUnavailable`, on the two ways in which the model raises one.
abbrev pub from_result : {A : Type 0} → Result A → Outcome A
from_result (Result.ok a) = Outcome.ok a
from_result (Result.unavailable reason) = Outcome.raise (unavailable_error (reason_text reason))

unfoldable pub translated : {A : Type 0} → Outcome A → Outcome A
translated (Outcome.ok a) = Outcome.ok a
translated (Outcome.raise (mapping_unavailable reason)) = Outcome.raise (unavailable_error reason)
translated (Outcome.raise exn) = Outcome.raise exn

-- The map, its descriptor unless it is the identity, and the tensor of the descriptor if asked for.
pub record Mapping : Type 0 where
  pub validated : Option ValidatedMap
  pub descriptor : Option DescriptorPlan
  pub intervals : Option (List Interval)

abbrev pub no_mapping : Mapping
no_mapping = record { validated = none; descriptor = none; intervals = none }

-- The tensor, and the cache of the request as the call leaves it.
abbrev pub kept_given : Outcome Given → Engine → Outcome (List Interval) × Engine
kept_given (Outcome.ok given) s = (Outcome.ok given.0, record s { descriptors = given.1 })
kept_given (Outcome.raise exn) s = (Outcome.raise exn, s)

unfoldable pub materialized : (capturing : Bool) → DescriptorPlan → Device → Action (List Interval)
unfolding translated
materialized capturing plan device s =
    kept_given (translated (device_descriptor capturing plan device s.descriptors)) s

unfoldable pub intervals_for :
    (capturing materialize : Bool)
    → Option DescriptorPlan
    → Device
    → Action (Option (List Interval))
unfolding materialized
intervals_for capturing materialize none device = pure none
intervals_for capturing false (some plan) device = pure none
intervals_for capturing true (some plan) device = do
  t ← materialized capturing plan device
  pure (some t)

abbrev pub no_wire : Value → Bool
no_wire nothing = true
no_wire _ = false

module _ (sha256_json : Value → String) where
  unfoldable pub mapping_of :
      (capturing materialize : Bool) (wire : Value) (q_rows kv_rows sink_rows : ℕ) (device : Device)
      → Action Mapping
  unfolding intervals_for
  mapping_of capturing materialize wire q_rows kv_rows sink_rows device = do
    v ←
        lift (
          from_result
            (validate_cold sha256_json wire (rows q_rows) (rows kv_rows) (rows sink_rows)))
    plan ← lift (from_result (compile_cold sha256_json v))
    is' ← intervals_for capturing materialize plan device
    pure (record { validated = some v; descriptor = plan; intervals = is' })

  unfoldable pub descriptor_for_wire :
      (capturing materialize : Bool) (wire : Value) (q_rows kv_rows sink_rows : ℕ) (device : Device)
      → Action Mapping
  unfolding mapping_of
  descriptor_for_wire capturing materialize wire q_rows kv_rows sink_rows device =
      if no_wire wire
      then pure no_mapping
      else mapping_of capturing materialize wire q_rows kv_rows sink_rows device
