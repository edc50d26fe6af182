-- ===== src/Tests/Devices.antt =====
-- pkg/rm: devices, their replicas, and requests for them.
use volcano_vgpu_device_plug.Prelude.{
  ℕ, ◌≡◌, ◌≢◌, ◌↔◌, refl, true, false, none, [], ◌∷◌, All, if◌then◌else◌, arith,
}
use volcano_vgpu_device_plug.Prelude.Int.{pos}
use volcano_vgpu_device_plug.GoText.{Str, codes, str_eq, str_eq_iff}
use volcano_vgpu_device_plug.GoNum.{itoa}
use volcano_vgpu_device_plug.Kube.Dict.{lookup, insert}
use volcano_vgpu_device_plug.Spec.Replicas.{
  ReplicatedResource, ReplicatedResources, all_devices, ArePlain, disable_resoure_renaming,
  disable_resoure_renaming-ArePlain,
}
use volcano_vgpu_device_plug.Rm.AnnotatedId.{new_annotated_id, split_id}
use volcano_vgpu_device_plug.Rm.AnnotatedId.Laws.{split-new}
use volcano_vgpu_device_plug.Rm.Devices.{
  Device, Devices, has, subset, subset_loop, add_found, difference, device_ids,
}
use volcano_vgpu_device_plug.Rm.Devices.Sets.{listed, lookup-subset, lookup-difference}
use volcano_vgpu_device_plug.Rm.Allocate.{time_slicing, valid, validate_request}
use volcano_vgpu_device_plug.Rm.Allocate.Validate.{IsKnown, FitsSharing, validate_request_iff}
use volcano_vgpu_device_plug.Rm.DeviceMap.{
  DeviceMap, ok, ids_of_devices_to_replicate, ids_of, insert_device, insert_all, replica,
  add_replicas, add_all_replicas, replicate_ids, copy_unnamed, replicate_loop,
  update_device_map_with_replicas,
}
use volcano_vgpu_device_plug.Rm.DeviceMap.Others.{IsOther, lookup-update_device_map}

abbrev device : Str → Device
device id = record {
  id = id;
  index = codes "0";
  paths = [];
  healthy = true;
  numa = none;
  total_memory = 1024;
  compute_capability = codes "8.0";
  replicas = 0;
}

abbrev devices : Devices
devices = (codes "GPU-a", device (codes "GPU-a")) ∷ (codes "GPU-b", device (codes "GPU-b")) ∷ []

split-new_example : split_id (new_annotated_id (codes "GPU-a") (pos 3)) ≡ (codes "GPU-a", pos 3)
split-new_example = split-new (codes "GPU-a") (pos 3) refl (ground arith)

subset_of_two :
    lookup (codes "GPU-b") (subset devices (codes "GPU-b" ∷ []))
    ≡ (if listed (codes "GPU-b") (codes "GPU-b" ∷ []) then lookup (codes "GPU-b") devices else none)
subset_of_two = lookup-subset devices (codes "GPU-b" ∷ []) (codes "GPU-b")

difference_itself :
    lookup (codes "GPU-b") (difference devices devices)
    ≡ (if has devices (codes "GPU-b") then none else lookup (codes "GPU-b") devices)
difference_itself = lookup-difference devices devices (codes "GPU-b")

validate_request_iff_example :
    (validate_request devices time_slicing true (codes "GPU-a" ∷ []) ≡ valid) ↔ (
      All (IsKnown devices) (codes "GPU-a" ∷ [])
      × FitsSharing time_slicing true (codes "GPU-a" ∷ []))
validate_request_iff_example = validate_request_iff devices time_slicing true (codes "GPU-a" ∷ [])

abbrev shared_gpu : ReplicatedResource
shared_gpu = record { name = codes "gpu"; rename = []; devices = all_devices; replicas = 2 }

abbrev shared : ReplicatedResources
shared = record {
  rename_by_default = false;
  fail_requests_greater_than_one = true;
  resources = shared_gpu ∷ [];
}

-- with a name and one device of its own
abbrev renamed : ReplicatedResources
renamed = record shared {
  resources =
      record shared_gpu {
        rename = codes "mine";
        devices = record { all = false; count = 1; list = [] };
      }
      ∷ [];
}

disable_resoure_renaming-ArePlain_example :
    ArePlain false renamed.resources (disable_resoure_renaming renamed).resources
disable_resoure_renaming-ArePlain_example = disable_resoure_renaming-ArePlain renamed

abbrev device_map : DeviceMap
device_map =
    (codes "gpu", (codes "A", device (codes "A")) ∷ [])
    ∷ (codes "mig", (codes "M", device (codes "M")) ∷ [])
    ∷ []

abbrev copy : ℕ → Device
copy i = record (device (codes "A")) { id = new_annotated_id (codes "A") (pos i); replicas = 2 }

replicated :
    update_device_map_with_replicas (λ s. false) shared device_map
    ≡ ok (
        (codes "mig", (codes "M", device (codes "M")) ∷ [])
        ∷ (
          codes "gpu",
          (new_annotated_id (codes "A") (pos 0), copy 0)
              ∷ (new_annotated_id (codes "A") (pos 1), copy 1)
              ∷ [],
        )
        ∷ [])
unfolding update_device_map_with_replicas replicate_loop copy_unnamed replicate_ids
    ids_of_devices_to_replicate ids_of device_ids add_all_replicas add_replicas replica insert_all
    insert_device difference subset subset_loop add_found has lookup insert str_eq new_annotated_id
    itoa
replicated = refl

gpu-ne-mig : codes "gpu" ≢ codes "mig"
unfolding str_eq
gpu-ne-mig e = let h : false ≡ true = (str_eq_iff (codes "gpu") (codes "mig")).1 e in cc

mig-IsOther : IsOther (codes "mig") shared.resources
unfolding str_eq
mig-IsOther = ((gpu-ne-mig, gpu-ne-mig), tt)

lookup-update_device_map_example :
    lookup (codes "mig") (
      (codes "mig", (codes "M", device (codes "M")) ∷ [])
      ∷ (
        codes "gpu",
        (new_annotated_id (codes "A") (pos 0), copy 0)
            ∷ (new_annotated_id (codes "A") (pos 1), copy 1)
            ∷ [],
      )
      ∷ [])
    ≡ lookup (codes "mig") device_map
lookup-update_device_map_example =
    lookup-update_device_map (λ s. false) (codes "mig") shared device_map
      ((codes "mig", (codes "M", device (codes "M")) ∷ [])
        ∷ (
          codes "gpu",
          (new_annotated_id (codes "A") (pos 0), copy 0)
              ∷ (new_annotated_id (codes "A") (pos 1), copy 1)
              ∷ [],
        )
        ∷ [])
      mig-IsOther replicated
