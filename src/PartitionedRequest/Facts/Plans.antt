-- ===== src/PartitionedRequest/Facts/Plans.antt =====
-- What `partitioned_request_attention` of sol_h3/partitioned_request.py knows of a call before it
-- runs a kernel.
use comfy_ui_sol_h.Base.{some, ◌≡◌, true, List, not, Bool, Option, subst, ap, ◌||◌, refl, String}
use comfy_ui_sol_h.PartitionedRequest.Calls.{Plan, kept_bias, plan_call, bias_for, bias_call}
use comfy_ui_sol_h.PartitionedRequest.Facts.Maps.{
  IsMapping, descriptor_for_wire-IsMapping, FromWire, mapped_of, descriptor_for_wire-FromWire,
}
use comfy_ui_sol_h.PartitionedRequest.Facts.Checked.{IsChecked}
use comfy_ui_sol_h.Py.{float, Float, float_lt, whole, Value, float_eq}
use comfy_ui_sol_h.Receipts.Partitioned.{measure_valid, range_valid}
use comfy_ui_sol_h.PartitionedRequest.Completions.{is_dense, is_some}
use comfy_ui_sol_h.Receipts.Publish.{rows, k_range}
use comfy_ui_sol_h.PartitionedRequest.Tensors.{rows_in}
use comfy_ui_sol_h.PartitionedRequest.Kernels.{Kernels}
use comfy_ui_sol_h.PartitionedRequest.Arguments.{range_allowed, pair_of, Arguments, Checked}
use comfy_ui_sol_h.Caches.Bias.{Biased, BiasState}
use comfy_ui_sol_h.Py.Outcome.{Outcome, ok, ok-eq}
use comfy_ui_sol_h.PartitionedRequest.Engine.{>>=-eq-ok, Engine, lift}
use comfy_ui_sol_h.Py.Text.{digest_text}
use comfy_ui_sol_h.PartitionedRequest.Descriptors.{descriptor_for_wire}
use comfy_ui_sol_h.PartitionedRequest.Facts.Weighed.{key_bias-IsWeighed}

pub outcome_eq :
    {A : Type 0} (r : Outcome A × Engine) (a : A) → r.0 ≡ Outcome.ok a → r ≡ (Outcome.ok a, r.1)
outcome_eq r a h = ap (λ o. (o, r.1)) h

-- The measure and its range are valid, a bias is there only for a range and a negative measure, and
-- the map is well described.
pub record IsPlan {C : Type 0} (p : Plan C) : Type 0 where
  pub checked : IsChecked p.arguments p.checked
  pub measure : measure_valid (float p.arguments.prefix_log_key_measure) ≡ true
  pub ranged :
      range_valid
        (is_dense p)
        (rows p.checked.sink)
        (rows (rows_in p.arguments.k))
        (float p.arguments.prefix_log_key_measure)
        (k_range p.prefix)
      ≡ true
  pub biased :
      (b : List Float)
      → p.key_bias ≡ some b
      → (is_some p.prefix ≡ true) × (float_lt p.arguments.prefix_log_key_measure (whole 0) ≡ true)
  pub present : is_some p.key_bias ≡ not (float_eq p.arguments.prefix_log_key_measure (whole 0))
  pub mapping : IsMapping (not (is_dense p)) p.mapping

-- The plan of the arguments, and of no others.
pub record IsPlanOf {C : Type 0} (sha256_json : Value → String) (a : Arguments C) (c : Checked)
    (warmup : Bool) (p : Plan C) : Type 0 where
  pub checked : p.checked ≡ c
  pub arguments : p.arguments ≡ a
  pub warm : p.warmup ≡ warmup
  pub prefix : p.prefix ≡ pair_of a.prefix_k_range
  pub wired :
      FromWire sha256_json a.query_position_map
        (rows_in a.q)
        (rows_in a.k)
        c.sink
        (mapped_of p.mapping)

kept_bias-ok :
    {C P : Type 0} (kernels : Kernels C P) (o : Outcome Biased) (s : Engine)
    (b : Option (List Float))
    → (kept_bias kernels o s).0 ≡ ok b
    → (t : BiasState) × (o ≡ ok (b, t))
kept_bias-ok kernels (Outcome.ok (b', t)) s b h = (t, ap (λ z. ok (z, t)) (ok-eq b' b h))
kept_bias-ok kernels (Outcome.raise e) s b h = cc

module _ {C P : Type 0} (kernels : Kernels C P) (sha256_json : Value → String)
    (hex : (v : Value) → digest_text (sha256_json v) ≡ true) where
  pub plan_call-IsPlan :
      (a : Arguments C) (c : Checked) (warmup : Bool) (s s' : Engine) (p : Plan C)
      → IsChecked a c
      → plan_call kernels sha256_json a c warmup s ≡ (Outcome.ok p, s')
      → IsPlan p × IsPlanOf sha256_json a c warmup p
  unfolding plan_call bias_for
  plan_call-IsPlan a c warmup s s' p good h =
      let dense = a.force_dense || warmup in
      let (bias, weighed, h1) = >>=-eq-ok (bias_for kernels a c) _ s p s' h in
      let (t, biased) = kept_bias-ok kernels _ s bias weighed in
      let (u, allowed, h2) =
        >>=-eq-ok (lift (range_allowed dense c.sink (pair_of a.prefix_k_range))) _ _ p s' h1 in
      let (m, mapped, h3) =
        >>=-eq-ok
          (descriptor_for_wire sha256_json kernels.capturing (not dense) a.query_position_map
            (rows_in a.q) (rows_in a.k) c.sink a.q.device)
          _ _ p s' h2 in
      let w =
        key_bias-IsWeighed kernels.float32 kernels.capturing (bias_call kernels a c) s.bias t bias
          dense c.sink u biased allowed in
      subst (λ z. IsPlan z × IsPlanOf sha256_json a c warmup z) (ok-eq _ p (ap (λ z. z.0) h3))
        (
          record {
            checked = good;
            measure = w.measure;
            ranged = w.ranged;
            biased = w.biased;
            present = w.present;
            mapping =
                descriptor_for_wire-IsMapping sha256_json hex kernels.capturing (not dense)
                  a.query_position_map (rows_in a.q) (rows_in a.k) c.sink a.q.device _ _ m
                  (outcome_eq _ m mapped);
          },
          record {
            checked = refl;
            arguments = refl;
            warm = refl;
            prefix = refl;
            wired =
                descriptor_for_wire-FromWire sha256_json kernels.capturing (not dense)
                  a.query_position_map (rows_in a.q) (rows_in a.k) c.sink a.q.device _ _ m
                  (outcome_eq _ m mapped);
          },
        )
