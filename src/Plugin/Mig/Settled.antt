-- ===== src/Plugin/Mig/Settled.antt =====
-- GenerateMigTemplate on a configuration to which the template was applied before.
use volcano_vgpu_device_plug.Prelude.{ℕ, ◌≡◌, ◌≢◌, refl, false, List, [], ◌∷◌, arith, All}
use volcano_vgpu_device_plug.GoText.{Str, str_eq_iff, str_eq_refl}
use volcano_vgpu_device_plug.Kube.Dict.{Dict, lookup, insert, lookup-insert}
use volcano_vgpu_device_plug.Plugin.Mig.{MigConfigSpec}
use volcano_vgpu_device_plug.Plugin.Mig.Template.{
  MigTemplate, differs, needs_reset, counts, reset, apply_template,
}

-- No name stands twice in the template.
abbrev pub NamesApart : List MigTemplate → Type 0
NamesApart [] = Unit
NamesApart (t ∷ v) = All (λ u. u.name ≢ t.name) v × NamesApart v

lookup-counts :
    (k : Str) (v : List MigTemplate) (m : Dict ℕ)
    → All (λ u. u.name ≢ k) v
    → lookup k (counts v m) ≡ lookup k m
unfolding counts
lookup-counts k [] m h = refl
lookup-counts k (t ∷ v) m (apart, h) = ground (
  arith,
  lookup-counts k v (insert t.name t.count m) h,
  lookup-insert t.name k t.count m,
  str_eq_iff t.name k,
)

needs_reset-counts :
    (v : List MigTemplate) (m : Dict ℕ) → NamesApart v → needs_reset (counts v m) v ≡ false
unfolding counts needs_reset differs
needs_reset-counts [] m h = refl
needs_reset-counts (t ∷ v) m (apart, h) = ground (
  arith,
  lookup-counts t.name v (insert t.name t.count m) apart,
  lookup-insert t.name t.name t.count m,
  str_eq_refl t.name,
  needs_reset-counts v (insert t.name t.count m) h,
)

needs_reset-reset :
    (v : List MigTemplate) (config : MigConfigSpec)
    → NamesApart v
    → needs_reset (reset v config).mig_devices v ≡ false
unfolding reset
needs_reset-reset v config h = needs_reset-counts v [] h

reset-devices :
    (v : List MigTemplate) (config : MigConfigSpec) → (reset v config).devices ≡ config.devices
unfolding reset
reset-devices v config = refl

-- A template whose names are apart needs no second reset of the GPU it was applied to.
pub apply_template_again :
    (devindex : ℕ) (v : List MigTemplate) (configs : List MigConfigSpec)
    → NamesApart v
    → apply_template devindex v (apply_template devindex v configs).0
      ≡ ((apply_template devindex v configs).0, false)
unfolding apply_template
apply_template_again devindex v [] h = refl
apply_template_again devindex v (config ∷ configs) h = ground (
  arith,
  needs_reset-reset v config h,
  reset-devices v config,
  apply_template_again devindex v configs h,
)
