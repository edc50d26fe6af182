-- ===== src/Tests/Allocate.antt =====
-- pkg/plugin/server.go: Allocate on a node that is locked.
use volcano_vgpu_device_plug.Plugin.Allocate.Keeping.{IsQuiet}
use volcano_vgpu_device_plug.Plugin.Allocate.Held.{allocate-Held}
use volcano_vgpu_device_plug.Rm.AnnotatedId.{get_ids}
use volcano_vgpu_device_plug.Util.Codec.{
  decode_pod_devices, decode_pods, decode_container_devices, decode_loop, decode_fields,
  encode_pod_devices, encode_container_devices, encode_container_device,
}
use volcano_vgpu_device_plug.Plugin.Allocate.Limits.{SharesOne, allocate-limits}
use volcano_vgpu_device_plug.Util.Allocation.{
  pod_allocation_try_success, pod_allocation_success, end_allocation,
}
use volcano_vgpu_device_plug.Prelude.{◌≡◌, refl, true, false, none, some, [], ◌∷◌, ◌++◌, arith}
use volcano_vgpu_device_plug.Prelude.Int.{to_int32, mul_ℤ}
use volcano_vgpu_device_plug.GoText.{cut, join, split, has_prefix, codes, str_eq, contains}
use volcano_vgpu_device_plug.GoNum.{
  decimal_fuel, parse_int, scan, scan_all, parse_uint, format_uint, itoa,
}
use volcano_vgpu_device_plug.Kube.Dict.{lookup, insert, remove}
use volcano_vgpu_device_plug.Kube.Objects.{Pod, node_annotation, annotation}
use volcano_vgpu_device_plug.Kube.Client.{Client}
use volcano_vgpu_device_plug.NodeLock.{
  done, failed, without_lock, update_with, retry, write_node, release_tested, release_read,
  release_node_lock,
}
use volcano_vgpu_device_plug.NodeLock.Server.{Holds}
use volcano_vgpu_device_plug.NodeLock.Release.{IsFree}
use volcano_vgpu_device_plug.Util.Types.{vgpu_device_name}
use volcano_vgpu_device_plug.Util.Smi.{no_gpu}
use volcano_vgpu_device_plug.Util.Pods.{
  next_request, get_next_device_request, erase_next, erase_next_device_type, predicate_time,
  earlier, oldest_loop, oldest_of, filter_pods, get_pending_pod, get_oldest_pod,
}
use volcano_vgpu_device_plug.Spec.Strategy.{
  cdi_annotations, all_cdi_enabled, any_cdi_enabled, includes, envvar,
}
use volcano_vgpu_device_plug.Plugin.Response.{
  update_response_for_imex, update_response_for_device_list, update_response_for_mps,
  update_for_cdi, update_for_device_specs, update_for_volume_mounts, update_for_env_var,
  update_for_flags, finish_response, get_allocate_response, Plugin, Outside, Response,
}
use volcano_vgpu_device_plug.Plugin.Entries.{unique_device_ids, uuid}
use volcano_vgpu_device_plug.Plugin.Action.{no_pending_pod, response_failed, ok, failed}
use volcano_vgpu_device_plug.Plugin.Prepare.{container_device_strs, Host}
use volcano_vgpu_device_plug.Plugin.Allocate.{
  limit_value, limit_key, set_limits, vgpu_mounts, vgpu_envs, share_gpus, response_for,
  allocate_request, allocate_vgpu, allocate_one, Setting, current_pod, allocate_single, allocate,
}
use volcano_vgpu_device_plug.Plugin.Allocate.Release.{allocate-IsReleased}
use volcano_vgpu_device_plug.Tests.Lock.{
  locked_node, World, server, clock, node_of, server-IsServer, free_node, world, locked,
}

abbrev host : Host World
host = record {
  type_and_index = λ id w. some (codes "A100", 0);
  mig_answer = λ id position w. no_gpu;
  apply_mig = λ current w. (true, w);
  create_spec = λ w. (tt, w);
  read_spec = λ w. none;
  sleep = λ w. (tt, w);
  new_uuid = λ w. (codes "r1", w);
  make_cache = λ directory w. (tt, w);
}

abbrev outside : Outside
outside = record {
  qualified_name = λ class id. class ++ id;
  additional_devices = [];
  default_cdi_annotation_prefix = codes "cdi.k8s.io/";
  update_annotations = λ id devices. none;
  join_path = λ parts. [];
  file_exists = λ path. false;
  device_paths = λ ids. [];
}

abbrev plugin : Plugin
plugin = record {
  strategies = (envvar, true) ∷ [];
  cdi_annotation_prefix = codes "cdi.k8s.io/";
  imex_channels = [];
  mps = record {
    enabled = false;
    pipe_dir = [];
    shm_dir = [];
    host_pipe_dir = [];
    host_shm_dir = [];
  };
  gdrcopy_enabled = false;
  gds_enabled = false;
  mofed_enabled = false;
  pass_device_specs = false;
  nvidia_dev_root = [];
}

abbrev setting : Setting
setting = record {
  node_name = codes "n1";
  hook_path = codes "/h";
  resource = codes "volcano.sh/vgpu-number";
  resource_name = codes "volcano.sh/vgpu-number";
  devices = [];
  id_strategy = uuid;
  fail_requests_greater_than_one = false;
  mode = codes "hami-core";
  gpu_memory_factor = 1;
  cores_oversubscribed = false;
  disable_core_limit = true;
  geometries = [];
  plugin = plugin;
}

-- The server of these pods does not list any.
no_pod :
    allocate server clock host outside setting
      ((codes "g1" ∷ []) ∷ [])
      (record { current = []; world = locked })
    ≡ (failed no_pending_pod, record { current = []; world = world free_node [] 2 })
unfolding allocate allocate_single current_pod get_pending_pod release_node_lock release_read
    release_tested write_node update_with retry without_lock node_annotation lookup remove str_eq
no_pod = refl

allocate-IsReleased_example :
    (w₀ : World) × ((release_node_lock server clock (codes "n1") vgpu_device_name w₀).1
      ≡ world free_node [] 2)
    × ((release_node_lock server clock (codes "n1") vgpu_device_name w₀).0 ≡ done
        → Holds node_of (IsFree vgpu_device_name) (codes "n1") (world free_node [] 2))
allocate-IsReleased_example =
    allocate-IsReleased server clock node_of (λ w. w.sent) server-IsServer host outside setting
      ((codes "g1" ∷ []) ∷ []) (record { current = []; world = locked })
      (record { current = []; world = world free_node [] 2 }) no_pending_pod no_pod
      (λ h. ground arith) (λ h. ground arith)

-- A device of type NVIDIA for the first container of a pod on the node.
abbrev pod : Pod
pod = record {
  name = codes "p1";
  uid = codes "u1";
  annotations =
      (codes "volcano.sh/vgpu-node", codes "n1")
      ∷ (codes "volcano.sh/devices-to-allocate", codes "g1,NVIDIA,1000,30:;")
      ∷ [];
  containers = record { name = codes "c1"; env = [] } ∷ [];
}

abbrev one_pod : Client World
one_pod = record {
  list_pods = λ w. (some (pod ∷ []), w);
  get_pod = λ p w. (none, w);
  patch_pod = λ p annotations w. (true, w);
  get_node = server.get_node;
  update_node = server.update_node;
  patch_node = server.patch_node;
}

abbrev answer : Response
answer = record {
  envs =
      (codes "NVIDIA_VISIBLE_DEVICES", codes "g1")
      ∷ (codes "CUDA_DEVICE_MEMORY_LIMIT_0", codes "1000m")
      ∷ (codes "CUDA_DEVICE_SM_LIMIT", codes "30")
      ∷ (codes "CUDA_DEVICE_MEMORY_SHARED_CACHE", codes "/tmp/vgpu/r1.cache")
      ∷ (codes "GPU_CORE_UTILIZATION_POLICY", codes "disable")
      ∷ [];
  mounts =
      record {
        container_path = codes "/usr/local/vgpu/libvgpu.so";
        host_path = codes "/h/libvgpu.so";
        read_only = true;
      }
      ∷ record {
        container_path = codes "/tmp/vgpu";
        host_path = codes "/h/vgpu/containers/u1_c1";
        read_only = false;
      }
      ∷ record {
        container_path = codes "/tmp/vgpulock";
        host_path = codes "/tmp/vgpulock";
        read_only = false;
      }
      ∷ record {
        container_path = codes "/etc/ld.so.preload";
        host_path = codes "/h/ld.so.preload";
        read_only = true;
      }
      ∷ [];
  annotations = [];
  cdi_devices = [];
  devices = [];
}

shared :
    allocate one_pod clock host outside setting
      ((codes "g1-0" ∷ []) ∷ [])
      (record { current = []; world = locked })
    ≡ (ok (answer ∷ []), record { current = []; world = world free_node [] 2 })
unfolding allocate allocate_single current_pod get_pending_pod get_oldest_pod filter_pods oldest_of
    oldest_loop earlier predicate_time parse_uint scan_all scan parse_int split contains has_prefix
    join format_uint decimal_fuel itoa annotation node_annotation lookup insert remove str_eq
    decode_pod_devices decode_pods decode_container_devices decode_loop decode_fields
    encode_pod_devices encode_container_devices encode_container_device erase_next_device_type
    erase_next get_next_device_request next_request allocate_one allocate_vgpu allocate_request
    container_device_strs response_for unique_device_ids get_allocate_response finish_response
    update_for_flags update_for_env_var update_for_volume_mounts update_for_device_specs
    update_for_cdi share_gpus vgpu_envs vgpu_mounts set_limits limit_key limit_value
    pod_allocation_try_success pod_allocation_success end_allocation release_node_lock release_read
    release_tested write_node update_with retry without_lock update_response_for_mps
    update_response_for_device_list update_response_for_imex includes any_cdi_enabled
    all_cdi_enabled get_ids to_int32 cut mul_ℤ
shared = refl

allocate-limits_example : SharesOne one_pod setting locked (codes "g1-0" ∷ []) (answer ∷ [])
unfolding str_eq contains has_prefix
allocate-limits_example =
    allocate-limits one_pod clock host outside setting (codes "g1-0") []
      (record { current = []; world = locked })
      (record { current = []; world = world free_node [] 2 }) (answer ∷ []) refl refl refl shared

-- The CDI library refuses the devices.
abbrev setting_cdi : Setting
setting_cdi = record setting {
  plugin = record plugin { strategies = (cdi_annotations, true) ∷ [] };
}

refused :
    allocate one_pod clock host outside setting_cdi
      ((codes "g1-0" ∷ []) ∷ [])
      (record { current = []; world = locked })
    ≡ (failed response_failed, record { current = []; world = locked })
unfolding allocate allocate_single current_pod get_pending_pod get_oldest_pod filter_pods oldest_of
    oldest_loop earlier predicate_time parse_uint scan_all scan parse_int split contains has_prefix
    join format_uint decimal_fuel itoa annotation node_annotation lookup insert remove str_eq
    decode_pod_devices decode_pods decode_container_devices decode_loop decode_fields
    encode_pod_devices encode_container_devices encode_container_device erase_next_device_type
    erase_next get_next_device_request next_request allocate_one allocate_vgpu allocate_request
    container_device_strs response_for unique_device_ids get_allocate_response finish_response
    update_for_flags update_for_env_var update_for_volume_mounts update_for_device_specs
    update_for_cdi share_gpus vgpu_envs vgpu_mounts set_limits limit_key limit_value
    pod_allocation_try_success pod_allocation_success end_allocation release_node_lock release_read
    release_tested write_node update_with retry without_lock update_response_for_mps
    update_response_for_device_list update_response_for_imex includes any_cdi_enabled
    all_cdi_enabled get_ids to_int32 cut mul_ℤ
refused = refl

one_pod-IsQuiet :
    IsQuiet one_pod host (λ w. node_of w (codes "n1") ≡ some (locked_node (format_uint 1000)))
one_pod-IsQuiet = record {
  list_pods = λ w p. p;
  apply_mig = λ current w p. p;
  create_spec = λ w p. p;
  sleep = λ w p. p;
  new_uuid = λ w p. p;
}

locked_held : node_of locked (codes "n1") ≡ some (locked_node (format_uint 1000))
unfolding str_eq
locked_held = refl

allocate-Held_example : node_of locked (codes "n1") ≡ some (locked_node (format_uint 1000))
allocate-Held_example =
    allocate-Held one_pod clock node_of host outside setting_cdi (locked_node (format_uint 1000))
      ((codes "g1-0" ∷ []) ∷ []) (record { current = []; world = locked })
      (record { current = []; world = locked }) one_pod-IsQuiet refused locked_held
