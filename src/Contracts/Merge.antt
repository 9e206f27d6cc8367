-- ===== src/Contracts/Merge.antt =====
-- Merging the configurations of two nodes on one model: `merge_config` of sol_h3/runtime.py.
use comfy_ui_sol_h.Contracts.Config.{
  Config, IsValid, merge_config, config_eq, inherit, sol, FromZeroToThree,
}
use comfy_ui_sol_h.Py.{float_eq, Float, finite, infinite, nan}
use comfy_ui_sol_h.Base.{◌≡◌, true, arith, ◌↔◌, ◌||◌, false}
use comfy_ui_sol_h.Py.Outcome.{ok}

float_eq_refl : (t : Float) → FromZeroToThree t → float_eq t t ≡ true
unfolding float_eq
float_eq_refl (finite false m e) h = ground arith
float_eq_refl (finite true m e) h = ground arith
float_eq_refl (infinite s) h = absurd h
float_eq_refl nan h = absurd h

config_eq_refl : (c : Config) → IsValid c → config_eq c c ≡ true
unfolding config_eq
config_eq_refl c v = ground (arith, float_eq_refl c.tau v.tau_fits)

-- Equal configurations differ in nothing but the sign of a zero `tau`.
config_eq-fields :
    (a b : Config)
    → config_eq a b ≡ true
    → (a.exact ≡ b.exact)
      × (a.backend ≡ b.backend)
      × (float_eq a.tau b.tau ≡ true)
      × (a.dense_evaluations ≡ b.dense_evaluations)
      × (a.dense_layers ≡ b.dense_layers)
      × (a.qkv_chunk_size ≡ b.qkv_chunk_size)
unfolding config_eq
config_eq-fields a b h = ground arith

-- Two SOL nodes have the same policy.
abbrev pub SamePolicy : Config → Config → Type 0
SamePolicy a b =
    (float_eq a.tau b.tau ≡ true)
    × (a.dense_evaluations ≡ b.dense_evaluations)
    × (a.dense_layers ≡ b.dense_layers)
    × (a.qkv_chunk_size ≡ b.qkv_chunk_size)

-- Two nodes that both ask for SOL merge exactly when their policies are the same.
pub merge_config-sol_iff :
    (old new : Config)
    → old.backend ≡ sol
    → new.backend ≡ sol
    → ((c : Config) × (merge_config old new ≡ ok c)) ↔ SamePolicy old new
unfolding merge_config config_eq
merge_config-sol_iff old new ho hn = (
  λ (c, h). (ground arith, ground arith, ground arith, ground arith),
  λ h. (record old { exact = old.exact || new.exact }, ground arith),
)

-- What a merge keeps.
pub merge_config-IsValid :
    (old new c : Config) → IsValid old → IsValid new → merge_config old new ≡ ok c → IsValid c
unfolding merge_config
merge_config-IsValid old new c v w h = record {
  tau_fits = ground arith;
  whole_tiles = ground arith;
}

-- The order of an exact-only node and a SOL node does not matter.
pub merge_config_comm :
    (e s : Config)
    → e.backend ≡ inherit
    → s.backend ≡ sol
    → (merge_config e s ≡ ok (record s { exact = e.exact || s.exact }))
      × (merge_config s e ≡ ok (record s { exact = e.exact || s.exact }))
unfolding merge_config
merge_config_comm e s he hs = (ground arith, ground arith)

-- Applying the same node once more changes nothing.
pub merge_config_absorbs :
    (old new c : Config) → IsValid new → merge_config old new ≡ ok c → merge_config c new ≡ ok c
unfolding merge_config config_eq
merge_config_absorbs old new c w h = ground (arith, float_eq_refl new.tau w.tau_fits)
