-- ===== src/Rm/DeviceMap/Build.antt =====
-- pkg/rm/device_map.go: deviceMapBuilder. The visits of the device library, and whether one ends with
-- an error of its own, are arguments, with the driver's answers about what it visits; so are
-- the functions Matches of Spec/Resources and FilterDeviceToRegister of Config.
pub mod Entries
pub mod Listed
use volcano_vgpu_device_plug.Prelude.{
  ℕ, Bool, true, false, not, ◌&&◌, Option, none, some, List, [], ◌∷◌, ◌++◌, if◌then◌else◌, ◌==◌,
  length,
}
use volcano_vgpu_device_plug.GoText.{Str, codes, str_eq}
use volcano_vgpu_device_plug.GoNum.{format_uint}
use volcano_vgpu_device_plug.Spec.Replicas.{ReplicatedResources}
use volcano_vgpu_device_plug.Spec.Resources.{Resource, Resources}
use volcano_vgpu_device_plug.Rm.Devices.{DeviceInfo}
use volcano_vgpu_device_plug.Rm.DeviceMap.{
  DeviceMap, Result, ok, failed, panicked, and_then, set_entry, merge, is_empty,
  update_device_map_with_replicas,
}

-- What the driver answers about a GPU; `none` is an error. The MIG devices are counted only.
pub record Gpu : Type 0 where
  pub uuid : Option Str
  pub name : Option Str
  pub mig_enabled : Option Bool
  pub mig_devices : Option ℕ
  pub info : DeviceInfo

-- The attributes of a MIG device are numbers.
pub record Mig : Type 0 where
  pub profile : Option Str
  pub attributes : Option (List ℕ)
  pub info : DeviceInfo

-- What VisitDevices and VisitMigDevices visit, in order, with the positions.
pub record Visits : Type 0 where
  pub gpus : List (ℕ × Gpu)
  pub gpus_end : Bool
  pub migs : List (ℕ × ℕ × Mig)
  pub migs_end : Bool

-- The first error of the visitor ends the visit.
abbrev pub visit : {A B : Type 0} → (A → B → Result B) → Bool → List A → B → Result B
visit f ends [] b = if ends then ok b else failed
visit f ends (a ∷ l) b = and_then (f a b) (visit f ends l)

abbrev pub strategy_none : Str
strategy_none = codes "none"

abbrev pub strategy_single : Str
strategy_single = codes "single"

module _ (matches : Str → Str → Bool) where
  -- The loop over the resources, with `match`; an error of setEntry is dropped.
  unfoldable pub set_entries :
      List Resource → Str → Str → DeviceInfo → Bool → DeviceMap → Bool × DeviceMap
  set_entries [] name index info match devices = (match, devices)
  set_entries (r ∷ resources) name index info match devices =
      if matches r.pattern name
      then set_entries resources name index info match (elim (set_entry r.name index info devices) [
        | ok d ↦ d
        | failed ↦ devices
        | panicked ↦ devices
      ])
      else set_entries resources name index info false devices

  abbrev pub matched : Bool × DeviceMap → Result DeviceMap
  matched (true, devices) = ok devices
  matched (false, devices) = failed

  -- The visitor of buildGPUDeviceMap.
  unfoldable pub visit_gpu :
      (Str → ℕ → Bool) → Str → List Resource → ℕ × Gpu → DeviceMap → Result DeviceMap
  unfolding set_entries
  visit_gpu is_filtered strategy resources (i, gpu) devices = elim (gpu.uuid) [
    | none ↦ failed
    | some uuid ↦ if is_filtered uuid i then ok devices else elim (gpu.name) [
      | none ↦ failed
      | some name ↦ elim (gpu.mig_enabled) [
        | none ↦ failed
        | some mig_enabled ↦
            if mig_enabled && not (str_eq strategy strategy_none)
            then ok devices
            else matched (set_entries resources name (format_uint i) gpu.info true devices)
      ]
    ]
  ]

  -- The loop over the resources for a MIG device: the first one that matches.
  unfoldable pub set_first : List Resource → Str → Str → DeviceInfo → DeviceMap → Result DeviceMap
  set_first [] profile index info devices = failed
  set_first (r ∷ resources) profile index info devices =
      if matches r.pattern profile
      then set_entry r.name index info devices
      else set_first resources profile index info devices

  -- The visitor of buildMigDeviceMap.
  unfoldable pub visit_mig : List Resource → ℕ × ℕ × Mig → DeviceMap → Result DeviceMap
  unfolding set_first
  visit_mig resources (i, j, mig) devices = elim (mig.profile) [
    | none ↦ failed
    | some profile ↦
        set_first resources profile (format_uint i ++ (codes ":" ++ format_uint j)) mig.info devices
  ]

-- The first visitor of assertAllMigDevicesAreValid.
unfoldable pub assert_gpu : Bool → ℕ × Gpu → Unit {0} → Result (Unit {0})
assert_gpu uniform (i, gpu) u = elim (gpu.mig_enabled) [
  | none ↦ failed
  | some false ↦ ok tt
  | some true ↦ elim (gpu.mig_devices) [
    | none ↦ failed
    | some n ↦ if uniform && (n == 0) then failed else ok tt
  ]
]

-- The second one, with previousAttributes.
unfoldable pub assert_mig : ℕ × ℕ × Mig → Option (List ℕ) → Result (Option (List ℕ))
assert_mig (i, j, mig) previous = elim (mig.attributes) [
  | none ↦ failed
  | some attrs ↦ elim previous [
    | none ↦ ok (some attrs)
    | some before ↦ if str_eq attrs before then ok (some before) else failed
  ]
]

-- assertAllMigDevicesAreValid
unfoldable pub assert_all_mig_devices_are_valid : Visits → Bool → Result (Unit {0})
unfolding assert_gpu assert_mig
assert_all_mig_devices_are_valid v uniform =
    and_then (visit (assert_gpu uniform) v.gpus_end v.gpus tt) (λ u.
      if not uniform
      then ok tt
      else and_then (visit assert_mig v.migs_end v.migs none) (λ previous. ok tt))

module _ (matches : Str → Str → Bool) (is_filtered : Str → ℕ → Bool) (strategy : Str)
    (resources : Resources) (v : Visits) where
  -- buildGPUDeviceMap
  unfoldable pub build_gpu_device_map : Result DeviceMap
  unfolding visit_gpu
  build_gpu_device_map =
      visit (visit_gpu matches is_filtered strategy resources.gpus) v.gpus_end v.gpus []

  -- buildMigDeviceMap
  unfoldable pub build_mig_device_map : Result DeviceMap
  unfolding visit_mig
  build_mig_device_map = visit (visit_mig matches resources.migs) v.migs_end v.migs []

  -- buildDeviceMapFromConfigResources
  unfoldable pub build_device_map_from_config_resources : Result DeviceMap
  unfolding build_gpu_device_map build_mig_device_map assert_all_mig_devices_are_valid
  build_device_map_from_config_resources = and_then build_gpu_device_map (λ device_map.
      if str_eq strategy strategy_none
      then ok device_map
      else and_then build_mig_device_map (λ mig_device_map.
        let uniform = str_eq strategy strategy_single in
        and_then (assert_all_mig_devices_are_valid v uniform) (λ u.
          if uniform && not (is_empty device_map) && not (is_empty mig_device_map)
          then failed
          else ok (merge device_map mig_device_map))))

  -- build
  unfoldable pub build : (Str → Bool) → ReplicatedResources → Result DeviceMap
  unfolding build_device_map_from_config_resources
  build is_uuid_text replicated_resources =
      and_then build_device_map_from_config_resources
        (update_device_map_with_replicas is_uuid_text replicated_resources)
