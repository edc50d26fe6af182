-- ===== src/Util/Pods.antt =====
-- pkg/util/util.go: the pending pod that an allocation serves, and its device requests. `none` is a
-- panic: a malformed annotation, or a request for a container that the pod does not have.
pub mod Oldest
pub mod Requests
use volcano_vgpu_device_plug.Prelude.{
  ℕ, zero, suc, Bool, true, false, ◌&&◌, not, Option, none, some, List, [], ◌∷◌, ltb, ◌==◌,
  if◌then◌else◌, ◌>>=◌, length, get_elem?, filter, any,
}
use volcano_vgpu_device_plug.GoText.{Str, str_eq}
use volcano_vgpu_device_plug.GoNum.{parse_uint, max_uint64}
use volcano_vgpu_device_plug.Kube.Dict.{lookup}
use volcano_vgpu_device_plug.Kube.Objects.{Container, Pod, annotation}
use volcano_vgpu_device_plug.Util.Types.{
  ContainerDevice, ContainerDevices, PodDevices, assigned_time_annotations,
  assigned_ids_to_allocate_annotations, assigned_node_annotations,
}
use volcano_vgpu_device_plug.Util.Codec.{decode_pod_devices, encode_pod_devices}
use volcano_vgpu_device_plug.Kube.Client.{Client}

abbrev pub pod_annotation_max_length : ℕ
pod_annotation_max_length = 1048576

-- getPredicateTimeFromPodAnnotation
unfoldable pub predicate_time : Pod → ℕ
predicate_time pod = elim (lookup assigned_time_annotations pod.annotations) [
  | none ↦ max_uint64
  | some assume_time ↦
      if ltb pod_annotation_max_length (length assume_time)
      then max_uint64
      else (let (time, failed) = parse_uint max_uint64 assume_time in
          if failed then max_uint64 else time)
]

-- The first loop of getOldestPod: the pods of the node with the requested number of devices.
unfoldable pub filter_pods : Str → ℕ → List Pod → Option (List Pod)
filter_pods nodename gpu_amount [] = some []
filter_pods nodename gpu_amount (pod ∷ pods) =
    let rest = filter_pods nodename gpu_amount pods in
    if str_eq (annotation assigned_node_annotations pod) nodename
    then (do
      (_, device_count) ← decode_pod_devices (annotation assigned_ids_to_allocate_annotations pod)
      filtered ← rest
      if device_count == gpu_amount then some (pod ∷ filtered) else some filtered)
    else rest

-- The test of the second loop: a pod with an earlier time takes the place of the oldest so far.
unfoldable pub earlier : Pod → Pod → Pod
earlier oldest pod = if ltb (predicate_time pod) (predicate_time oldest) then pod else oldest

unfoldable pub oldest_loop : Pod → List Pod → Pod
unfolding earlier
oldest_loop oldest [] = oldest
oldest_loop oldest (pod ∷ pods) = oldest_loop (earlier oldest pod) pods

abbrev pub last : Pod → List Pod → Pod
last p [] = p
last p (q ∷ ps) = last q ps

-- Behind the first loop `oldest` is the last filtered pod, if there is one.
unfoldable pub oldest_of : List Pod → Option Pod
unfolding oldest_loop
oldest_of [] = none
oldest_of (p ∷ ps) = some (oldest_loop (last p ps) (p ∷ ps))

unfoldable pub get_oldest_pod : List Pod → Str → ℕ → Option (Option Pod)
unfolding filter_pods oldest_of
get_oldest_pod pods nodename gpu_amount = do
  filtered ← filter_pods nodename gpu_amount pods
  some (oldest_of filtered)

abbrev pub has_type : Str → ContainerDevice → Bool
has_type dtype dev = str_eq dtype dev.type

-- The loop of GetNextDeviceRequest, from container `idx` on.
unfoldable pub next_request : Str → ℕ → PodDevices → Option (ℕ × ContainerDevices)
next_request dtype idx [] = none
next_request dtype idx (val ∷ pdevices) =
    if any (has_type dtype) val
    then some (idx, filter (has_type dtype) val)
    else next_request dtype (suc idx) pdevices

-- GetNextDeviceRequest: the inner `none` is the error "device request not found".
unfoldable pub get_next_device_request : Str → Pod → Option (Option (Container × ContainerDevices))
unfolding next_request
get_next_device_request dtype p = do
  (pdevices, _) ← decode_pod_devices (annotation assigned_ids_to_allocate_annotations p)
  elim (next_request dtype 0 pdevices) [
    | none ↦ some none
    | some (idx, res) ↦ do ctr ← get_elem? p.containers idx; some (some (ctr, res))
  ]

-- The loop of EraseNextDeviceTypeFromAnnotation: once found, the rest is copied.
unfoldable pub erase_next : Str → PodDevices → PodDevices
erase_next dtype [] = []
erase_next dtype (val ∷ pdevices) =
    if any (has_type dtype) val
    then filter (λ dev. not (has_type dtype dev)) val ∷ pdevices
    else val ∷ erase_next dtype pdevices

-- GetPendingPod: the outer `none` is a panic, the inner one an error of the list call or no pod.
unfoldable pub get_pending_pod : {W : Type 0} → Client W → Str → ℕ → W → Option (Option Pod) × W
unfolding get_oldest_pod
get_pending_pod api node gpu_amount w =
    let (listed, w') = api.list_pods w in
    elim listed [ none ↦ (some none, w') | some pods ↦ (get_oldest_pod pods node gpu_amount, w') ]

-- EraseNextDeviceTypeFromAnnotation: `none` is a panic, and else whether the patch was accepted.
unfoldable pub erase_next_device_type : {W : Type 0} → Client W → Str → Pod → W → Option Bool × W
unfolding erase_next
erase_next_device_type api dtype p w =
    elim (decode_pod_devices (annotation assigned_ids_to_allocate_annotations p)) [
      | none ↦ (none, w)
      | some (pdevices, _) ↦
          let (patched, w') =
            api.patch_pod p
              ((
                assigned_ids_to_allocate_annotations,
                encode_pod_devices (erase_next dtype pdevices),
              )
                ∷ [])
              w in
          (some patched, w')
    ]
