-- ===== src/Spec/Replicas.antt =====
-- api/config/v1/replicas.go: resources to be replicated. uuid.Parse is a parameter: whether a text is
-- a UUID. The decoder refuses a negative number of devices or replicas.
use volcano_vgpu_device_plug.Prelude.{
  ℕ, ◌≡◌, refl, Bool, true, false, not, ◌&&◌, ◌||◌, none, some, List, [], ◌∷◌, map, arith,
  if◌then◌else◌, any, ltb, ◌++◌,
}
use volcano_vgpu_device_plug.GoText.{Str, codes, str_eq, str_eq_iff, has_prefix, trim_prefix, cut}
use volcano_vgpu_device_plug.GoNum.{parse_uint, max_uint64}

pub record ReplicatedDevices : Type 0 where
  pub all : Bool
  pub count : ℕ
  pub list : List Str

pub record ReplicatedResource : Type 0 where
  pub name : Str
  pub rename : Str
  pub devices : ReplicatedDevices
  pub replicas : ℕ

pub record ReplicatedResources : Type 0 where
  pub rename_by_default : Bool
  pub fail_requests_greater_than_one : Bool
  pub resources : List ReplicatedResource

-- DefaultSharedRename
unfoldable pub default_shared_rename : Str → Str
default_shared_rename name = name ++ codes ".shared"

abbrev pub all_devices : ReplicatedDevices
all_devices = record { all = true; count = 0; list = [] }

-- One round of disableResoureRenaming: what the rename becomes, by the two tests of the old one, and
-- what the devices become.
unfoldable pub plain_rename : Bool → ReplicatedResource → Str
unfolding default_shared_rename
plain_rename rename_by_default r =
    let cleared = if not rename_by_default && not (str_eq r.rename []) then [] else r.rename in
    if rename_by_default && not (str_eq r.rename (default_shared_rename r.name))
    then default_shared_rename r.name
    else cleared

unfoldable pub plain_devices : ReplicatedDevices → ReplicatedDevices
plain_devices d = if d.all then d else all_devices

unfoldable pub plain_resource : Bool → ReplicatedResource → ReplicatedResource
unfolding plain_rename plain_devices
plain_resource rename_by_default r = record r {
  rename = plain_rename rename_by_default r;
  devices = plain_devices r.devices;
}

-- disableResoureRenaming; its warnings are left out.
unfoldable pub disable_resoure_renaming : ReplicatedResources → ReplicatedResources
unfolding plain_resource
disable_resoure_renaming rrs = record rrs {
  resources = map (plain_resource rrs.rename_by_default) rrs.resources;
}

-- isReplicated
unfoldable pub is_replicated : ReplicatedResources → Bool
is_replicated rrs = any (λ (r : ReplicatedResource). ltb 1 r.replicas) rrs.resources

-- ParseUint without an error
unfoldable pub is_uint : Str → Bool
is_uint s = not (parse_uint max_uint64 s).1

-- IsGPUIndex
unfoldable pub is_gpu_index : Str → Bool
unfolding is_uint
is_gpu_index d = is_uint d

-- IsMigIndex
unfoldable pub is_mig_index : Str → Bool
unfolding is_uint
is_mig_index d = elim (cut (58 ∷ []) d) [
  | none ↦ false
  | some (gpu, mig) ↦ is_uint gpu && is_uint mig
]

module _ (is_uuid_text : Str → Bool) where
  -- IsGpuUUID
  unfoldable pub is_gpu_uuid : Str → Bool
  is_gpu_uuid d = has_prefix d (codes "GPU-") && is_uuid_text (trim_prefix d (codes "GPU-"))

  -- The form MIG-GPU-<uuid>/3/0
  unfoldable pub is_old_mig_uuid : Str → Bool
  unfolding is_gpu_uuid is_uint
  is_old_mig_uuid suffix = elim (cut (47 ∷ []) suffix) [
    | none ↦ false
    | some (gpu, rest) ↦ elim (cut (47 ∷ []) rest) [
      | none ↦ false
      | some (gi, ci) ↦ is_gpu_uuid gpu && is_uint gi && is_uint ci
    ]
  ]

  -- IsMigUUID
  unfoldable pub is_mig_uuid : Str → Bool
  unfolding is_old_mig_uuid
  is_mig_uuid d =
      let suffix = trim_prefix d (codes "MIG-") in
      has_prefix d (codes "MIG-") && (is_uuid_text suffix || is_old_mig_uuid suffix)

  -- IsUUID
  unfoldable pub is_uuid : Str → Bool
  unfolding is_gpu_uuid is_mig_uuid
  is_uuid d = is_gpu_uuid d || is_mig_uuid d

-- A resource before and behind: the name and the number of replicas stay, all devices are
-- replicated, and the new name is the default one or none.
unfoldable pub IsPlain : Bool → ReplicatedResource → ReplicatedResource → Type 0
IsPlain rename_by_default r r' =
    (r'.name ≡ r.name)
    × (r'.replicas ≡ r.replicas)
    × (r'.devices.all ≡ true)
    × (r'.rename ≡ (if rename_by_default then r.name ++ codes ".shared" else []))

-- Resource by resource.
abbrev pub ArePlain : Bool → List ReplicatedResource → List ReplicatedResource → Type 0
ArePlain rename_by_default [] [] = Unit
ArePlain rename_by_default (r ∷ rs) (r' ∷ rs') =
    IsPlain rename_by_default r r' × ArePlain rename_by_default rs rs'
ArePlain rename_by_default _ _ = ⊥

plain_rename-default :
    (rename_by_default : Bool) (r : ReplicatedResource)
    → plain_rename rename_by_default r
      ≡ (if rename_by_default then r.name ++ codes ".shared" else [])
unfolding plain_rename default_shared_rename
plain_rename-default true r = ground (arith, str_eq_iff r.rename (r.name ++ codes ".shared"))
plain_rename-default false r = ground (arith, str_eq_iff r.rename [])

plain_resource-IsPlain :
    (rename_by_default : Bool) (r : ReplicatedResource)
    → IsPlain rename_by_default r (plain_resource rename_by_default r)
unfolding IsPlain plain_resource plain_devices
plain_resource-IsPlain rename_by_default r =
    (refl, refl, ground arith, plain_rename-default rename_by_default r)

map-ArePlain :
    (rename_by_default : Bool) (rs : List ReplicatedResource)
    → ArePlain rename_by_default rs (map (plain_resource rename_by_default) rs)
map-ArePlain rename_by_default [] = tt
map-ArePlain rename_by_default (r ∷ rs) =
    (plain_resource-IsPlain rename_by_default r, map-ArePlain rename_by_default rs)

-- Whatever the old new names and devices were, behind disableResoureRenaming there are the same
-- resources with their numbers of replicas, each one replicates all of its devices, and its new name
-- is the default one, its name and .shared, if resources are renamed by default, and none otherwise.
pub disable_resoure_renaming-ArePlain :
    (rrs : ReplicatedResources)
    → ArePlain rrs.rename_by_default rrs.resources (disable_resoure_renaming rrs).resources
unfolding disable_resoure_renaming
disable_resoure_renaming-ArePlain rrs = map-ArePlain rrs.rename_by_default rrs.resources
