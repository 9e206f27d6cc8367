-- ===== src/PartitionedRequest/Calls.antt =====
-- What `partitioned_request_attention` of sol_h3/partitioned_request.py derives from its arguments
-- before any kernel runs.
use comfy_ui_sol_h.Base.{Bool, Option, String, List, ℕ, ◌||◌, not}
use comfy_ui_sol_h.PartitionedRequest.Arguments.{
  Arguments, Checked, pair_of, range_allowed, exact_end_of,
}
use comfy_ui_sol_h.PartitionedRequest.Descriptors.{Mapping, descriptor_for_wire}
use comfy_ui_sol_h.PartitionedRequest.Engine.{Engine, Action, pure, lift, ◌>>=◌, ◌>>◌}
use comfy_ui_sol_h.PartitionedRequest.Kernels.{Kernels}
use comfy_ui_sol_h.PartitionedRequest.Tensors.{rows_in}
use comfy_ui_sol_h.Caches.Bias.{BiasCall, Biased, key_bias}
use comfy_ui_sol_h.Py.{Value, Float}
use comfy_ui_sol_h.Py.Outcome.{Outcome}

-- A call that may run.
pub record Plan (C : Type 0) : Type 0 where
  pub arguments : Arguments C
  pub checked : Checked
  pub warmup : Bool
  pub key_bias : Option (List Float)
  pub prefix : Option (ℕ × ℕ)
  pub exact_end : ℕ
  pub mapping : Mapping

module _ {C P : Type 0} (kernels : Kernels C P) where
  abbrev pub bias_call : Arguments C → Checked → BiasCall
  bias_call a c = record {
    kv_rows = rows_in a.k;
    prefix_range = a.prefix_k_range;
    log_measure = a.prefix_log_key_measure;
    device = a.q.device.name;
    semantic_digest = c.semantic_digest;
  }

  abbrev pub kept_bias : Outcome Biased → Engine → Outcome (Option (List Float)) × Engine
  kept_bias (Outcome.ok biased) s = (Outcome.ok biased.0, record s { bias = biased.1 })
  kept_bias (Outcome.raise exn) s = (Outcome.raise exn, s)

  unfoldable pub bias_for : Arguments C → Checked → Action (Option (List Float))
  bias_for a c s = kept_bias (key_bias kernels.float32 kernels.capturing (bias_call a c) s.bias) s

  module _ (sha256_json : Value → String) where
    unfoldable pub plan_call : Arguments C → Checked → (warmup : Bool) → Action (Plan C)
    unfolding bias_for pair_of range_allowed
    plan_call a c warmup = do
      let dense = a.force_dense || warmup
      bias ← bias_for a c
      let prefix = pair_of a.prefix_k_range
      lift (range_allowed dense c.sink prefix)
      m ←
          descriptor_for_wire sha256_json kernels.capturing (not dense) a.query_position_map
            (rows_in a.q) (rows_in a.k) c.sink a.q.device
      pure (record {
        arguments = a;
        checked = c;
        warmup = warmup;
        key_bias = bias;
        prefix = prefix;
        exact_end = exact_end_of c.sink prefix;
        mapping = m;
      })
