-- ===== src/Rm/NvmlDevice.antt =====
-- pkg/rm/nvml_devices.go: what a device is to the device map, from the answers of NVML. The file of
-- the NUMA node and the paths of the MIG capabilities are arguments.
pub mod Numa
use volcano_vgpu_device_plug.Prelude.{
  ℕ, Bool, true, false, Option, none, some, List, [], ◌∷◌, ◌++◌, if◌then◌else◌, ◌>>=◌,
}
use volcano_vgpu_device_plug.Prelude.Int.{ℤ, pos, negsuc}
use volcano_vgpu_device_plug.GoText.{Str, codes, trim_prefix, trim_space, to_lower}
use volcano_vgpu_device_plug.GoNum.{format_uint, parse_int, half64}
use volcano_vgpu_device_plug.Kube.Dict.{Dict, lookup}
use volcano_vgpu_device_plug.Rm.Devices.{DeviceInfo}

-- What NVML answers about a GPU; `none` is an error.
pub record Handle : Type 0 where
  pub uuid : Option Str
  pub minor : Option ℕ
  pub compute : Option (ℕ × ℕ)
  pub bus_id : Option Str
  pub memory : Option ℕ

-- The same about a MIG device, with its instances and its parent.
pub record MigHandle : Type 0 where
  pub uuid : Option Str
  pub gi : Option ℕ
  pub ci : Option ℕ
  pub parent : Option Handle
  pub memory : Option ℕ

-- GetPaths of a GPU
unfoldable pub get_paths : Handle → Option (List Str)
get_paths d = do minor ← d.minor; some ((codes "/dev/nvidia" ++ format_uint minor) ∷ [])

-- GetComputeCapability of a GPU
unfoldable pub get_compute_capability : Handle → Option Str
get_compute_capability d = do
  (major, minor) ← d.compute
  some (format_uint major ++ (codes "." ++ format_uint minor))

-- GetComputeCapability of a MIG device
unfoldable pub get_mig_compute_capability : MigHandle → Option Str
unfolding get_compute_capability
get_mig_compute_capability d = do parent ← d.parent; get_compute_capability parent

-- The directory of an instance below the capabilities.
abbrev pub gi_path : ℕ → ℕ → Str
gi_path minor gi =
    codes "/proc/driver/nvidia/capabilities/gpu"
    ++ (format_uint minor ++ (codes "/mig/gi" ++ format_uint gi))

-- GetPaths of a MIG device
unfoldable pub get_mig_paths : Option (Dict Str) → MigHandle → Option (List Str)
get_mig_paths capabilities d = do
  paths ← capabilities
  gi ← d.gi
  ci ← d.ci
  parent ← d.parent
  minor ← parent.minor
  gi_cap ← lookup (gi_path minor gi ++ codes "/access") paths
  ci_cap ← lookup (gi_path minor gi ++ (codes "/ci" ++ (format_uint ci ++ codes "/access"))) paths
  some ((codes "/dev/nvidia" ++ format_uint minor) ∷ gi_cap ∷ ci_cap ∷ [])

-- The node of the file's text; below zero there is none.
abbrev pub node_of : ℤ × Bool → Option (Option ℕ)
node_of (node, true) = none
node_of (negsuc n, false) = some none
node_of (pos n, false) = some (some n)

abbrev pub numa_of_file : Option Str → Option (Option ℕ)
numa_of_file none = some none
numa_of_file (some b) = node_of (parse_int half64 (trim_space b))

-- GetNumaNode of a GPU: the file is that of the id of its bus, without leading zeros.
unfoldable pub get_numa_node : (Str → Option Str) → Handle → Option (Option ℕ)
get_numa_node file d = do
  bus_id ← d.bus_id
  numa_of_file (file (to_lower (trim_prefix bus_id (codes "0000"))))

-- GetNumaNode of a MIG device
unfoldable pub get_mig_numa_node : (Str → Option Str) → MigHandle → Option (Option ℕ)
unfolding get_numa_node
get_mig_numa_node file d = do parent ← d.parent; get_numa_node file parent

-- newNvmlGPUDevice
unfoldable pub nvml_device : (Str → Option Str) → Handle → DeviceInfo
unfolding get_paths get_numa_node get_compute_capability
nvml_device file d = record {
  uuid = d.uuid;
  paths = get_paths d;
  numa_node = get_numa_node file d;
  total_memory = d.memory;
  compute_capability = get_compute_capability d;
}

-- newMigDevice
unfoldable pub nvml_mig_device : Option (Dict Str) → (Str → Option Str) → MigHandle → DeviceInfo
unfolding get_mig_paths get_mig_numa_node get_mig_compute_capability
nvml_mig_device capabilities file d = record {
  uuid = d.uuid;
  paths = get_mig_paths capabilities d;
  numa_node = get_mig_numa_node file d;
  total_memory = d.memory;
  compute_capability = get_mig_compute_capability d;
}
