-- ===== src/Plugin/Mig.antt =====
-- pkg/plugin/server.go: the MIG geometry of the GPUs. The configuration that the plugin keeps under
-- "current" is a list of entries; a map is an association list. Counts and indices are numbers here.
pub mod Template
pub mod Settled
use volcano_vgpu_device_plug.Prelude.{
  ℕ, zero, suc, ◌+◌, ◌<◌, ◌≡◌, refl, ap, sym, ◌∙◌, inl, inr, Bool-cases, Bool, true, false, not,
  ◌&&◌, ◌||◌, Option, none, some, List, [], ◌∷◌, ◌++◌, map, arith, ◌==◌, ltb, if◌then◌else◌, ◌>>=◌,
  >>=-eq-some, some_eq, length, any, All, get_elem?,
}
use mathlib.Core.Path.{subst}
use volcano_vgpu_device_plug.GoText.{Str, codes, str_eq, contains}
use volcano_vgpu_device_plug.Kube.Dict.{Dict, lookup, insert}

-- config.MigConfigSpec; a nil list of devices is an empty one.
pub record MigConfigSpec : Type 0 where
  pub devices : List ℕ
  pub mig_enabled : Bool
  pub mig_devices : Dict ℕ

-- containsModel
unfoldable pub contains_model : Str → List Str → Bool
contains_model target models = any (contains target) models

-- containsDevice
unfoldable pub contains_device : ℕ → List ℕ → Bool
contains_device target devices = any (λ d. d == target) devices

-- `config.Devices = []int32{int32(i)}` on a deep copy
unfoldable pub for_device : ℕ → MigConfigSpec → MigConfigSpec
for_device i config = record config { devices = i ∷ [] }

-- The loop `for i := 0; i < deviceCount; i++` for a configuration of all devices.
unfoldable pub copies_from : MigConfigSpec → ℕ → ℕ → List MigConfigSpec
unfolding for_device
copies_from config i zero = []
copies_from config i (suc n) = for_device i config ∷ copies_from config (suc i) n

-- deviceToConfig[device]: a later entry takes the place of an earlier one.
unfoldable pub config_of : ℕ → List MigConfigSpec → Option MigConfigSpec
unfolding contains_device
config_of device [] = none
config_of device (config ∷ configs) = elim (config_of device configs) [
  | some later ↦ some later
  | none ↦ if contains_device device config.devices then some config else none
]

-- The same loop for configurations of single devices; `none` is the error about a device of none.
unfoldable pub configs_from : List MigConfigSpec → ℕ → ℕ → Option (List MigConfigSpec)
unfolding for_device config_of
configs_from current i zero = some []
configs_from current i (suc n) = do
  config ← config_of i current
  rest ← configs_from current (suc i) n
  some (for_device i config ∷ rest)

unfoldable pub transform_configs : List MigConfigSpec → ℕ → Option (List MigConfigSpec)
unfolding copies_from configs_from
transform_configs ((config) ∷ []) n =
    if length config.devices == 0
    then some (copies_from config 0 n)
    else configs_from (config ∷ []) 0 n
transform_configs [] n = configs_from [] 0 n
transform_configs (config ∷ config' ∷ configs) n = configs_from (config ∷ config' ∷ configs) 0 n

-- migConfigs["current"]
abbrev pub current_configs : Dict (List MigConfigSpec) → List MigConfigSpec
current_configs m = elim (lookup (codes "current") m) [ none ↦ [] | some configs ↦ configs ]

-- processMigConfigs: a nil map, and no devices, are errors.
unfoldable pub process_mig_configs :
    Option (Dict (List MigConfigSpec)) → ℕ → Option (List MigConfigSpec)
unfolding transform_configs
process_mig_configs none n = none
process_mig_configs (some m) zero = none
process_mig_configs (some m) (suc n) = transform_configs (current_configs m) (suc n)

-- Entry `i` of a list, counted from `start`, is about device `i`, and there is one for each of the
-- `n` devices.
abbrev pub Covers : ℕ → ℕ → List MigConfigSpec → Type 0
Covers start zero configs = configs ≡ []
Covers start (suc n) configs =
    (c : MigConfigSpec) × (rest : List MigConfigSpec) × (configs ≡ c ∷ rest)
    × (c.devices ≡ start ∷ [])
    × Covers (suc start) n rest

copies_from-Covers : (config : MigConfigSpec) (i n : ℕ) → Covers i n (copies_from config i n)
unfolding copies_from for_device
copies_from-Covers config i zero = refl
copies_from-Covers config i (suc n) = (
  for_device i config,
  copies_from config (suc i) n,
  refl,
  refl,
  copies_from-Covers config (suc i) n,
)

configs_from-Covers :
    (current : List MigConfigSpec) (i n : ℕ) (configs : List MigConfigSpec)
    → configs_from current i n ≡ some configs
    → Covers i n configs
unfolding configs_from for_device
configs_from-Covers current i zero configs h = sym (some_eq h)
configs_from-Covers current i (suc n) configs h =
    let (config, _, h1) =
      >>=-eq-some (config_of i current)
        (λ (config : MigConfigSpec).
          configs_from current (suc i) n
          >>= (λ (rest : List MigConfigSpec). some (for_device i config ∷ rest)))
        h in
    let (rest, h2, h3) =
      >>=-eq-some (configs_from current (suc i) n)
        (λ (rest : List MigConfigSpec). some (for_device i config ∷ rest)) h1 in
    (
      for_device i config,
      rest,
      sym (some_eq h3),
      refl,
      configs_from-Covers current (suc i) n rest h2,
    )

transform_configs-Covers :
    (current configs : List MigConfigSpec) (n : ℕ)
    → transform_configs current n ≡ some configs
    → Covers 0 n configs
unfolding transform_configs
transform_configs-Covers [] configs n h = configs_from-Covers [] 0 n configs h
transform_configs-Covers (config ∷ []) configs n h =
    elim (Bool-cases (length config.devices == 0)) [
      | inl e ↦ subst (Covers 0 n) (some_eq (sym (rw e refl) ∙ h)) (copies_from-Covers config 0 n)
      | inr e ↦ configs_from-Covers (config ∷ []) 0 n configs (sym (rw e refl) ∙ h)
    ]
transform_configs-Covers (config ∷ config' ∷ rest) configs n h =
    configs_from-Covers (config ∷ config' ∷ rest) 0 n configs h

-- When processMigConfigs returns no error, the configuration has one entry for each of the devices,
-- in their order, and entry `i` is about device `i` alone.
pub process_mig_configs-Covers :
    (mig_configs : Option (Dict (List MigConfigSpec))) (n : ℕ) (configs : List MigConfigSpec)
    → process_mig_configs mig_configs n ≡ some configs
    → Covers 0 n configs
unfolding process_mig_configs
process_mig_configs-Covers none n configs h = cc
process_mig_configs-Covers (some m) zero configs h = cc
process_mig_configs-Covers (some m) (suc n) configs h =
    transform_configs-Covers (current_configs m) configs (suc n) h
