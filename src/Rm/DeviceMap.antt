-- ===== src/Rm/DeviceMap.antt =====
-- pkg/rm/device_map.go: the devices of each resource, and their replicas.
pub mod Others
pub mod Build
use volcano_vgpu_device_plug.Prelude.{
  ℕ, zero, suc, Bool, true, false, not, ◌&&◌, ◌||◌, Option, none, some, List, [], ◌∷◌, ◌++◌,
  if◌then◌else◌, ltb, length, take, any,
}
use volcano_vgpu_device_plug.Prelude.Int.{pos}
use volcano_vgpu_device_plug.GoText.{Str, str_eq}
use volcano_vgpu_device_plug.Kube.Dict.{Dict, lookup, insert}
use volcano_vgpu_device_plug.Spec.Replicas.{
  ReplicatedDevices, ReplicatedResource, ReplicatedResources, is_gpu_index, is_mig_index, is_uuid,
}
use volcano_vgpu_device_plug.Rm.AnnotatedId.{new_annotated_id}
use volcano_vgpu_device_plug.Rm.Devices.{
  Device, Devices, DeviceInfo, build_device, device_ids, get_by_id, get_by_index, subset,
  difference,
}

abbrev pub DeviceMap : Type 0
DeviceMap = Dict Devices

-- What a function returned: a value, an error, or nothing, since a nil pointer was followed.
pub data Result {ℓ} (A : Type ℓ) : Type ℓ where
  ok : A → Result A
  failed panicked : Result A

abbrev pub and_then : {A B : Type 0} → Result A → (A → Result B) → Result B
and_then (ok a) rest = rest a
and_then failed rest = failed
and_then panicked rest = panicked

-- d[name], the empty map if there is none
abbrev pub devices_of : Str → DeviceMap → Devices
devices_of name d = elim (lookup name d) [ none ↦ [] | some devices ↦ devices ]

-- insert
unfoldable pub insert_device : Str → Device → DeviceMap → DeviceMap
insert_device name dev d = insert name (insert dev.id dev (devices_of name d)) d

-- setEntry
unfoldable pub set_entry : Str → Str → DeviceInfo → DeviceMap → Result DeviceMap
unfolding insert_device
set_entry name index device d = elim (build_device index device) [
  | none ↦ failed
  | some dev ↦ ok (insert_device name dev d)
]

-- The loop `for _, device := range devices { d.insert(name, device) }`.
unfoldable pub insert_all : Str → Devices → DeviceMap → DeviceMap
unfolding insert_device
insert_all name [] d = d
insert_all name ((_, device) ∷ devices) d = insert_all name devices (insert_device name device d)

-- merge
unfoldable pub merge : DeviceMap → DeviceMap → DeviceMap
unfolding insert_all
merge d [] = d
merge d ((name, devices) ∷ o) = merge (insert_all name devices d) o

-- isEmpty
unfoldable pub is_empty : DeviceMap → Bool
is_empty [] = true
is_empty ((name, []) ∷ d) = is_empty d
is_empty ((name, _ ∷ _) ∷ d) = false

abbrev pub add_id : Option Device → Result (List Str) → Result (List Str)
add_id none ids = failed
add_id (some d) ids = and_then ids (λ ids. ok (d.id ∷ ids))

-- uuid.Parse is a parameter: whether a text is a UUID.
module _ (is_uuid_text : Str → Bool) where
  -- The loop over r.Devices.List; a reference of both forms adds two ids.
  unfoldable pub listed_ids : Devices → List Str → Result (List Str)
  listed_ids devices [] = ok []
  listed_ids devices (ref ∷ refs) =
      let rest = listed_ids devices refs in
      let by_index =
        if is_gpu_index ref || is_mig_index ref
        then add_id (get_by_index devices ref) rest
        else rest in
      if is_uuid is_uuid_text ref then add_id (get_by_id devices ref) by_index else by_index

  unfoldable pub ids_of : Devices → ReplicatedDevices → Result (List Str)
  unfolding listed_ids
  ids_of devices r =
      if r.all
      then ok (device_ids devices)
      else if ltb 0 r.count
      then (if ltb (length devices) r.count then failed else ok (take r.count (device_ids devices)))
      else if ltb 0 (length r.list)
      then listed_ids devices r.list
      else failed

  -- getIDsOfDevicesToReplicate
  unfoldable pub ids_of_devices_to_replicate : DeviceMap → ReplicatedResource → Result (List Str)
  unfolding ids_of
  ids_of_devices_to_replicate d r = elim (lookup r.name d) [
    | none ↦ ok []
    | some devices ↦ ids_of devices r.devices
  ]

-- The replica of a device with a number.
unfoldable pub replica : Str → ℕ → ℕ → Device → Device
replica id i replicas original = record original {
  id = new_annotated_id id (pos i);
  replicas = replicas;
}

abbrev pub new_name : ReplicatedResource → Str
new_name r = if str_eq r.rename [] then r.name else r.rename

-- The loop `for i := 0; i < r.Replicas; i++`, with the rounds that are left.
unfoldable pub add_replicas : Str → ℕ → ℕ → ReplicatedResource → Device → DeviceMap → DeviceMap
unfolding insert_device replica
add_replicas id i zero r original devices = devices
add_replicas id i (suc n) r original devices =
    add_replicas id (suc i) n r original
      (insert_device (new_name r) (replica id i r.replicas original) devices)

-- The loop over the ids; `original` is nil for an id that is no key.
unfoldable pub add_all_replicas :
    Devices → List Str → ReplicatedResource → DeviceMap → Result DeviceMap
unfolding add_replicas
add_all_replicas originals [] r devices = ok devices
add_all_replicas originals (id ∷ ids) r devices = elim (lookup id originals) [
  | none ↦ if ltb 0 r.replicas then panicked else add_all_replicas originals ids r devices
  | some original ↦
      add_all_replicas originals ids r (add_replicas id 0 r.replicas r original devices)
]

-- One round of the loop over the shared resources, behind the ids.
unfoldable pub replicate_ids :
    DeviceMap → ReplicatedResource → List Str → DeviceMap → Result DeviceMap
unfolding add_all_replicas insert_all
replicate_ids o_devices r [] devices = ok devices
replicate_ids o_devices r (id ∷ ids) devices =
    let originals = devices_of r.name o_devices in
    let kept = difference originals (subset originals (id ∷ ids)) in
    add_all_replicas originals (id ∷ ids) r (insert_all r.name kept devices)

abbrev pub is_named : List ReplicatedResource → Str → Bool
is_named resources name = any (λ (r : ReplicatedResource). str_eq r.name name) resources

-- Copy over all devices without a resource reference.
unfoldable pub copy_unnamed : List ReplicatedResource → DeviceMap → DeviceMap
copy_unnamed resources [] = []
copy_unnamed resources ((name, ds) ∷ o_devices) =
    let rest = copy_unnamed resources o_devices in
    if not (is_named resources name) then (name, ds) ∷ rest else rest

module _ (is_uuid_text : Str → Bool) where
  unfoldable pub replicate_loop : DeviceMap → List ReplicatedResource → DeviceMap → Result DeviceMap
  unfolding replicate_ids
  replicate_loop o_devices [] devices = ok devices
  replicate_loop o_devices (r ∷ resources) devices =
      and_then (ids_of_devices_to_replicate is_uuid_text o_devices r) (λ ids.
        and_then (replicate_ids o_devices r ids devices)
          (λ devices. replicate_loop o_devices resources devices))

  -- updateDeviceMapWithReplicas
  unfoldable pub update_device_map_with_replicas :
      ReplicatedResources → DeviceMap → Result DeviceMap
  unfolding replicate_loop copy_unnamed
  update_device_map_with_replicas replicated_resources o_devices =
      replicate_loop o_devices replicated_resources.resources
        (copy_unnamed replicated_resources.resources o_devices)
