-- ===== src/Plugin/Register.antt =====
-- pkg/plugin/register.go, and WatchAndRegister of pkg/plugin/server.go: the devices in an annotation
-- of the node. The driver's answers about a GPU and sort.Slice are parameters.
pub mod Order
pub mod Again
use volcano_vgpu_device_plug.Prelude.{
  ℕ, ◌/◌, ◌≡◌, Bool, true, false, Option, none, some, List, [], ◌∷◌, ◌++◌, if◌then◌else◌, ◌>>=◌,
  length, ◌==◌,
}
use volcano_vgpu_device_plug.Prelude.Int.{ℤ, pos, negsuc, to_int32, quot_ℤ, eq_ℤ}
use volcano_vgpu_device_plug.GoText.{Str, codes, str_eq}
use volcano_vgpu_device_plug.Kube.Objects.{Node, node_annotation}
use volcano_vgpu_device_plug.Kube.Client.{Client}
use volcano_vgpu_device_plug.Rm.Devices.{Device, Devices, plugin_devices}
use volcano_vgpu_device_plug.Util.Types.{DeviceInfo, node_nvidia_device_registered}
use volcano_vgpu_device_plug.Util.Codec.{encode_node_devices}

-- What the driver answers about a GPU; the minor number may fail.
pub record Gpu : Type 0 where
  pub memory : ℕ
  pub model : Str
  pub minor : Option ℕ

-- nodeName and what the package config holds.
pub record Registering : Type 0 where
  pub node_name : Str
  pub mode : Str
  pub gpu_memory_factor : ℕ
  pub device_split_count : ℕ

-- int32(memory.Total/(1024*1024)) / int32(config.GPUMemoryFactor); a divisor of 0 is a panic.
unfoldable pub registered_mem : ℕ → ℕ → Option ℤ
registered_mem memory factor =
    let divisor = to_int32 (pos factor) in
    if eq_ℤ divisor (pos 0)
    then none
    else some (to_int32 (quot_ℤ (to_int32 (pos (memory / 1048576))) divisor))

abbrev minor_of : Option ℕ → ℤ
minor_of none = negsuc 0
minor_of (some n) = to_int32 (pos n)

-- One round of the loop in ConvertDeviceInfo.
unfoldable pub device_info : Registering → (Str → Option Gpu) → Device → Option DeviceInfo
unfolding registered_mem
device_info config driver dev = do
  gpu ← driver dev.id
  devmem ← registered_mem gpu.memory config.gpu_memory_factor
  some (record {
    id = dev.id;
    count = to_int32 (pos config.device_split_count);
    devmem = devmem;
    type = codes "NVIDIA-" ++ gpu.model;
    health = dev.healthy;
    mode = config.mode;
    minor = minor_of gpu.minor;
  })

unfoldable pub device_infos :
    Registering → (Str → Option Gpu) → List Device → Option (List DeviceInfo)
unfolding device_info
device_infos config driver [] = some []
device_infos config driver (dev ∷ devs) = do
  info ← device_info config driver dev
  rest ← device_infos config driver devs
  some (info ∷ rest)

module _ (sort : List DeviceInfo → List DeviceInfo) (config : Registering)
    (driver : Str → Option Gpu) where
  -- ConvertDeviceInfo
  unfoldable pub convert_device_info : List Device → Option (List DeviceInfo)
  unfolding device_infos
  convert_device_info devs = do res ← device_infos config driver devs; some (sort res)

  module _ {W : Type 0} (api : Client W) where
    -- RegisterInAnnotation behind GetNode.
    unfoldable pub report_devices : Node → Str → W → Bool × W
    report_devices node encoded w = elim (node_annotation node_nvidia_device_registered node) [
      | some existing ↦
          if str_eq existing encoded
          then (true, w)
          else api.patch_node node ((node_nvidia_device_registered, encoded) ∷ []) w
      | none ↦ api.patch_node node ((node_nvidia_device_registered, encoded) ∷ []) w
    ]

    abbrev pub report_read : Option Node → Str → W → Bool × W
    report_read none encoded w = (false, w)
    report_read (some node) encoded w = report_devices node encoded w

    -- RegisterInAnnotation: `none` is a panic, and else whether there was no error.
    unfoldable pub register_in_annotation : List Device → W → Option (Bool × W)
    unfolding convert_device_info report_devices
    register_in_annotation devs w = do
      devices ← convert_device_info devs
      some (
          let (node, w') = api.get_node config.node_name w in
          report_read node (encode_node_devices devices) w')

    -- One round of WatchAndRegister: the seconds to sleep.
    unfoldable pub watch_and_register : Devices → W → Option (ℕ × W)
    unfolding register_in_annotation
    watch_and_register devices w = if length config.mode == 0 then some (2, w) else (do
      (registered, w') ← register_in_annotation (plugin_devices devices) w
      some (if registered then 30 else 5, w'))
