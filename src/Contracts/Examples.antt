-- ===== src/Contracts/Examples.antt =====
-- The theorems on configurations and layouts at concrete ones.
use comfy_ui_sol_h.Contracts.Config.{
  Config, default_config, post_init_iff, post_init, fields_of, IsValid, sol, merge_config,
}
use comfy_ui_sol_h.Contracts.Merge.{
  merge_config-sol_iff, merge_config_comm, merge_config_absorbs, SamePolicy,
}
use comfy_ui_sol_h.Contracts.Packed.{prefix_length_iff}
use comfy_ui_sol_h.Base.{false, ◌≡◌, ℕ, refl, true, String, ◌∷◌, ◌↔◌, [], arith}
use comfy_ui_sol_h.Contracts.Layout.{Layout, prefix_length, Segment, IsPacked}
use comfy_ui_sol_h.Py.Outcome.{ok}
use comfy_ui_sol_h.Py.{int}
use comfy_ui_sol_h.Base.Int.{pos}

abbrev sol_config : Config
sol_config = record default_config { exact = false; backend = sol }

default-IsValid : IsValid default_config
default-IsValid = record { tau_fits = omega arith; whole_tiles = refl }

sol-IsValid : IsValid sol_config
sol-IsValid = record { tau_fits = omega arith; whole_tiles = refl }

post_init_iff_example :
    (post_init (fields_of default_config) ≡ ok default_config)
    ↔ (IsValid default_config × (fields_of default_config ≡ fields_of default_config))
post_init_iff_example = post_init_iff (fields_of default_config) default_config

merge_config-sol_iff_example :
    ((c : Config) × (merge_config sol_config sol_config ≡ ok c)) ↔ SamePolicy sol_config sol_config
merge_config-sol_iff_example = merge_config-sol_iff sol_config sol_config refl refl

merge_config_comm_example :
    (merge_config default_config sol_config ≡ ok (record sol_config { exact = true }))
    × (merge_config sol_config default_config ≡ ok (record sol_config { exact = true }))
merge_config_comm_example = merge_config_comm default_config sol_config refl refl

merged : merge_config default_config sol_config ≡ ok (record sol_config { exact = true })
unfolding merge_config
merged = refl

merge_config_absorbs_example :
    merge_config (record sol_config { exact = true }) sol_config
    ≡ ok (record sol_config { exact = true })
merge_config_absorbs_example =
    merge_config_absorbs default_config sol_config (record sol_config { exact = true }) sol-IsValid
      merged

abbrev span : ℕ → ℕ → String → Segment
span a b kind = record { a = int (pos a); b = int (pos b); kind = kind }

abbrev packed : Layout
packed = record {
  segments = span 0 12 "text" ∷ span 12 20 "audio" ∷ span 20 80 "video" ∷ [];
  seq_len = int (pos 80);
}

prefix_length_iff_example : (prefix_length packed 80 ≡ ok 20) ↔ IsPacked packed 80 20
prefix_length_iff_example = prefix_length_iff packed 80 20
