-- ===== src/Util/Allocation.antt =====
-- pkg/util/util.go: the end of an allocation, PodAllocationTrySuccess, PodAllocationSuccess and
-- PodAllocationFailed. Errors of the patch and of the release are only logged; the outcome of the
-- release is kept here beside the world. A pod that the server does not return has no annotations.
pub mod Released
use volcano_vgpu_device_plug.Prelude.{
  Bool, true, false, Option, none, some, List, [], ◌∷◌, any, if◌then◌else◌,
}
use volcano_vgpu_device_plug.GoText.{Str, contains}
use volcano_vgpu_device_plug.GoNum.{format_uint, max_uint64}
use volcano_vgpu_device_plug.Kube.Dict.{Dict}
use volcano_vgpu_device_plug.Kube.Objects.{Pod, annotation}
use volcano_vgpu_device_plug.Kube.Client.{Client}
use volcano_vgpu_device_plug.NodeLock.{Clock, Outcome, release_node_lock}
use volcano_vgpu_device_plug.Util.Types.{
  device_bind_phase, device_bind_success, device_bind_failed, assigned_time_annotations,
  assigned_ids_to_allocate_annotations, nvidia_gpu_common_word, vgpu_device_name,
}

-- DevicesToHandle, as init leaves it.
abbrev pub devices_to_handle : List Str
devices_to_handle = nvidia_gpu_common_word ∷ []

abbrev pub new_annos : Str → Dict Str
new_annos phase =
    (device_bind_phase, phase) ∷ (assigned_time_annotations, format_uint max_uint64) ∷ []

-- refreshed.Annotations[AssignedIDsToAllocateAnnotations]
abbrev pub left_to_allocate : Option Pod → Str
left_to_allocate none = []
left_to_allocate (some p) = annotation assigned_ids_to_allocate_annotations p

module _ {W : Type 0} (api : Client W) (clock : Clock W) where
  -- The phase is patched, whether or not the server takes it, and the lock is released.
  unfoldable pub end_allocation : Str → Str → Pod → W → Outcome × W
  end_allocation phase node_name pod w =
      release_node_lock api clock node_name vgpu_device_name
        (api.patch_pod pod (new_annos phase) w).1

  unfoldable pub pod_allocation_success : Str → Pod → W → Outcome × W
  unfolding end_allocation
  pod_allocation_success node_name pod w = end_allocation device_bind_success node_name pod w

  unfoldable pub pod_allocation_failed : Str → Pod → W → Outcome × W
  unfolding end_allocation
  pod_allocation_failed node_name pod w = end_allocation device_bind_failed node_name pod w

  -- `none` if a device is left, and then nothing is released.
  unfoldable pub pod_allocation_try_success : Str → Pod → W → Option Outcome × W
  unfolding pod_allocation_success
  pod_allocation_try_success node_name pod w =
      let (refreshed, w') = api.get_pod pod w in
      let (outcome, w'') = pod_allocation_success node_name pod w' in
      if any (contains (left_to_allocate refreshed)) devices_to_handle
      then (none, w')
      else (some outcome, w'')
