-- ===== src/Util/Types.antt =====
-- pkg/util/types.go: the records of the annotations.
use volcano_vgpu_device_plug.Prelude.{Bool, List}
use volcano_vgpu_device_plug.Prelude.Int.{ℤ}
use volcano_vgpu_device_plug.GoText.{Str, codes}

-- The two int32 fields hold values of that range; `WellFormed` of the codec says so.
pub record ContainerDevice : Type 0 where
  pub uuid : Str
  pub type : Str
  pub usedmem : ℤ
  pub usedcores : ℤ

abbrev pub ContainerDevices : Type 0
ContainerDevices = List ContainerDevice

abbrev pub PodDevices : Type 0
PodDevices = List ContainerDevices

-- The fields that the node annotation and the registration use.
pub record DeviceInfo : Type 0 where
  pub id : Str
  pub count : ℤ
  pub devmem : ℤ
  pub type : Str
  pub health : Bool
  pub mode : Str
  pub minor : ℤ

abbrev pub assigned_time_annotations : Str
assigned_time_annotations = codes "volcano.sh/vgpu-time"

abbrev pub assigned_ids_to_allocate_annotations : Str
assigned_ids_to_allocate_annotations = codes "volcano.sh/devices-to-allocate"

abbrev pub assigned_node_annotations : Str
assigned_node_annotations = codes "volcano.sh/vgpu-node"

abbrev pub device_bind_phase : Str
device_bind_phase = codes "volcano.sh/bind-phase"

abbrev pub device_bind_failed : Str
device_bind_failed = codes "failed"

abbrev pub device_bind_success : Str
device_bind_success = codes "success"

abbrev pub nvidia_gpu_device : Str
nvidia_gpu_device = codes "NVIDIA"

abbrev pub nvidia_gpu_common_word : Str
nvidia_gpu_common_word = codes "GPU"

abbrev pub vgpu_device_name : Str
vgpu_device_name = codes "hamivgpu"

abbrev pub node_nvidia_device_registered : Str
node_nvidia_device_registered = codes "volcano.sh/node-vgpu-register"
