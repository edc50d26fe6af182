-- ===== src/Plugin/Allocate.antt =====
-- pkg/plugin/server.go: Allocate. Each request of the kubelet is the list of its device ids.
pub mod Freeing
pub mod Release
pub mod Envs
mod Yields
pub mod Limits
pub mod Keeping
pub mod Prepared
pub mod Held
use volcano_vgpu_device_plug.Prelude.{
  ℕ, zero, suc, Bool, true, false, not, ◌&&◌, Option, none, some, List, [], ◌∷◌, ◌++◌, map, ltb,
  length, ◌==◌, any, if◌then◌else◌,
}
use volcano_vgpu_device_plug.Prelude.Int.{ℤ, pos, to_int32, mul_ℤ}
use volcano_vgpu_device_plug.GoText.{Str, codes, str_eq, contains}
use volcano_vgpu_device_plug.GoNum.{itoa, format_uint}
use volcano_vgpu_device_plug.Kube.Dict.{Dict}
use volcano_vgpu_device_plug.Kube.Objects.{Container, Pod}
use volcano_vgpu_device_plug.Kube.Client.{Client}
use volcano_vgpu_device_plug.NodeLock.{Clock, Outcome, release_node_lock}
use volcano_vgpu_device_plug.Spec.Strategy.{any_cdi_enabled}
use volcano_vgpu_device_plug.Util.Types.{
  ContainerDevice, ContainerDevices, assigned_ids_to_allocate_annotations, nvidia_gpu_device,
  vgpu_device_name,
}
use volcano_vgpu_device_plug.Util.Pods.{
  get_pending_pod, get_next_device_request, erase_next_device_type,
}
use volcano_vgpu_device_plug.Util.Allocation.{pod_allocation_failed, pod_allocation_try_success}
use volcano_vgpu_device_plug.Rm.AnnotatedId.{any_has_annotations}
use volcano_vgpu_device_plug.Rm.Devices.{Devices, has}
use volcano_vgpu_device_plug.Plugin.Entries.{DeviceIdStrategy, unique_device_ids}
use volcano_vgpu_device_plug.Plugin.Mig.Template.{AllowedMigGeometries}
use volcano_vgpu_device_plug.Plugin.Response.{
  Mount, Response, Plugin, Outside, empty_response, set_env, set_env_if, get_allocate_response,
}
use volcano_vgpu_device_plug.Plugin.Action.{
  AllocateError, multiple_requests, no_pending_pod, too_large, unknown_device, mig_response_failed,
  no_request, number_mismatch, response_failed, erase_failed, State, Action, pure, raise, crash,
  or_crash, on_world, ◌>>=◌, ◌>>◌,
}
use volcano_vgpu_device_plug.Plugin.Prepare.{Host, container_device_strs}

-- What Allocate reads of the plugin, its resource manager and the process. Whether the scaling of
-- cores, a float, is above 1 is a flag.
pub record Setting : Type 0 where
  pub node_name : Str
  pub hook_path : Str
  pub resource : Str
  pub resource_name : Str
  pub devices : Devices
  pub id_strategy : DeviceIdStrategy
  pub fail_requests_greater_than_one : Bool
  pub mode : Str
  pub gpu_memory_factor : ℕ
  pub cores_oversubscribed : Bool
  pub disable_core_limit : Bool
  pub geometries : List AllowedMigGeometries
  pub plugin : Plugin

-- CUDA_DEVICE_MEMORY_LIMIT_i
unfoldable pub limit_key : ℕ → Str
limit_key i = codes "CUDA_DEVICE_MEMORY_LIMIT_" ++ format_uint i

-- dev.Usedmem*int32(config.GPUMemoryFactor) and the unit
unfoldable pub limit_value : ℕ → ContainerDevice → Str
limit_value factor dev = itoa (to_int32 (mul_ℤ dev.usedmem (to_int32 (pos factor)))) ++ codes "m"

-- The loop over the devices that sets their limits, from device `i` on.
unfoldable pub set_limits : ℕ → ℕ → ContainerDevices → Response → Response
unfolding limit_key limit_value
set_limits factor i [] r = r
set_limits factor i (dev ∷ devreq) r =
    set_limits factor (suc i) devreq (set_env (limit_key i) (limit_value factor dev) r)

abbrev pub cache_file : Str → Str
cache_file uuid = codes "/tmp/vgpu/" ++ (uuid ++ codes ".cache")

-- cacheFileHostDirectory
abbrev cache_directory : Setting → Pod → Container → Str
cache_directory c pod ctr =
    c.hook_path ++ (codes "/vgpu/containers/" ++ (pod.uid ++ (codes "_" ++ ctr.name)))

-- The mounts behind the environment; the last one unless the container disables the control.
unfoldable pub vgpu_mounts : Setting → Str → Container → List Mount
vgpu_mounts c directory ctr =
    record {
      container_path = codes "/usr/local/vgpu/libvgpu.so";
      host_path = c.hook_path ++ codes "/libvgpu.so";
      read_only = true;
    }
    ∷ record { container_path = codes "/tmp/vgpu"; host_path = directory; read_only = false }
    ∷ record {
      container_path = codes "/tmp/vgpulock";
      host_path = codes "/tmp/vgpulock";
      read_only = false;
    }
    ∷ (if any (str_eq (codes "CUDA_DISABLE_CONTROL")) ctr.env
        then []
        else record {
          container_path = codes "/etc/ld.so.preload";
          host_path = c.hook_path ++ codes "/ld.so.preload";
          read_only = true;
        }
          ∷ [])

-- The environment of a share of a GPU, at the first device and the id of the cache.
unfoldable pub vgpu_envs : Setting → ContainerDevice → Str → Response → Response
vgpu_envs c dev uuid r =
    set_env_if c.disable_core_limit (codes "GPU_CORE_UTILIZATION_POLICY") (codes "disable") (
      set_env_if c.cores_oversubscribed (codes "CUDA_OVERSUBSCRIBE") (codes "true") (
        set_env (codes "CUDA_DEVICE_MEMORY_SHARED_CACHE") (cache_file uuid)
          (set_env (codes "CUDA_DEVICE_SM_LIMIT") (itoa dev.usedcores) r)))

module _ {W : Type 0} (api : Client W) (clock : Clock W) (host : Host W) (outside : Outside)
    (c : Setting) where
  -- The response id is a new UUID, if a strategy uses CDI; `none` is an error.
  unfoldable pub response_for : List Str → Action W (Option Response)
  response_for ids = do
    response_id ← if any_cdi_enabled c.plugin.strategies then on_world host.new_uuid else pure []
    pure (
        get_allocate_response outside c.plugin response_id ids
          (unique_device_ids c.id_strategy c.devices ids))

  -- PodAllocationFailed and the return of an error.
  unfoldable pub fail_allocation : {A : Type 0} → Pod → AllocateError → Action W A
  fail_allocation current e =
      on_world (pod_allocation_failed api clock c.node_name current) >> raise e

  -- The loop over the ids of a request for MIG devices.
  unfoldable pub check_known : Pod → List Str → Action W (Unit {0})
  unfolding fail_allocation
  check_known current [] = pure tt
  check_known current (id ∷ ids) =
      if has c.devices id then check_known current ids else fail_allocation current unknown_device

  unfoldable pub allocate_mig : Pod → List Str → Action W Response
  unfolding response_for check_known
  allocate_mig current ids = do
    (if c.fail_requests_greater_than_one && any_has_annotations ids && ltb 1 (length ids)
        then fail_allocation current too_large
        else pure tt)
    check_known current ids
    response ← response_for ids
    elim response [ none ↦ fail_allocation current mig_response_failed | some r ↦ pure r ]

  -- The changes of a response for shares of GPUs.
  unfoldable pub share_gpus : Pod → Container → ContainerDevices → Response → Action W Response
  unfolding set_limits vgpu_envs vgpu_mounts
  share_gpus current ctr [] r = crash
  share_gpus current ctr (dev ∷ devreq) r = do
    uuid ← on_world host.new_uuid
    on_world (host.make_cache (cache_directory c current ctr))
    (let r' = vgpu_envs c dev uuid (set_limits c.gpu_memory_factor 0 (dev ∷ devreq) r) in
        pure
          (record r' { mounts = r'.mounts ++ vgpu_mounts c (cache_directory c current ctr) ctr }))

  -- The branch for requests that are not for MIG devices, behind the request of the annotation.
  unfoldable pub allocate_request :
      Pod → List Str → Container × ContainerDevices → Action W Response
  unfolding response_for share_gpus
  allocate_request current ids (ctr, devreq) = do
    (if length devreq == length ids then pure tt else fail_allocation current number_mismatch)
    strs ← container_device_strs host c.geometries c.plugin.strategies devreq
    response ← response_for strs
    r ← elim response [ none ↦ raise response_failed | some r ↦ pure r ]
    erased ← on_world (erase_next_device_type api nvidia_gpu_device current)
    elim erased [
      | none ↦ crash
      | some false ↦ fail_allocation current erase_failed
      | some true ↦ if str_eq c.mode (codes "mig") then pure r else share_gpus current ctr devreq r
    ]

  unfoldable pub allocate_vgpu : Pod → List Str → Action W Response
  unfolding allocate_request
  allocate_vgpu current ids = do
    request ← or_crash (get_next_device_request nvidia_gpu_device current)
    elim request [
      | none ↦ fail_allocation current no_request
      | some request ↦ allocate_request current ids request
    ]

  -- One round of the loop over the requests; req.DevicesIds[0] of no ids is a panic.
  unfoldable pub allocate_one : Pod → List Str → Action W Response
  unfolding allocate_mig allocate_vgpu
  allocate_one current [] = crash
  allocate_one current (id ∷ ids) =
      if contains id (codes "MIG")
      then allocate_mig current (id ∷ ids)
      else allocate_vgpu current (id ∷ ids)

  -- ReleaseNodeLock and the return of an error, if there is no pod.
  unfoldable pub current_pod : ℕ → Action W Pod
  current_pod gpu_amount = do
    pending ← on_world (get_pending_pod api c.node_name gpu_amount)
    elim pending [
      | none ↦ crash
      | some none ↦
          on_world (release_node_lock api clock c.node_name vgpu_device_name)
          >> raise no_pending_pod
      | some (some pod) ↦ pure pod
    ]

  -- Allocate at the one request that there may be; reqs.ContainerRequests[0] of none is a panic.
  unfoldable pub allocate_single : List Str → Action W (List Response)
  unfolding current_pod allocate_one
  allocate_single ids = do
    current ← current_pod (length ids)
    response ← allocate_one current ids
    on_world (pod_allocation_try_success api clock c.node_name current)
    pure (response ∷ [])

  -- Allocate
  unfoldable pub allocate : List (List Str) → Action W (List Response)
  unfolding allocate_single
  allocate (ids ∷ ids' ∷ reqs) = raise multiple_requests
  allocate (ids ∷ []) =
      if str_eq c.resource c.resource_name then allocate_single ids else pure (empty_response ∷ [])
  allocate [] = if str_eq c.resource c.resource_name then crash else pure []
