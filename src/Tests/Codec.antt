-- ===== src/Tests/Codec.antt =====
-- pkg/util/util.go: annotations of a pod and of a node.
use volcano_vgpu_device_plug.Prelude.{◌≡◌, true, some, [], ◌∷◌, map, any, is_none, arith, All}
use volcano_vgpu_device_plug.Prelude.Int.{pos, negsuc}
use volcano_vgpu_device_plug.GoText.{codes, split}
use volcano_vgpu_device_plug.Util.Types.{ContainerDevice, PodDevices, DeviceInfo}
use volcano_vgpu_device_plug.Util.Codec.{
  colon, encode_pod_devices, decode_pod_devices, decode_container_devices, encode_node_devices,
  decode_node_devices,
}
use volcano_vgpu_device_plug.Util.Codec.RoundTrip.{WellFormed, decode-encode, total}
use volcano_vgpu_device_plug.Util.Codec.Malformed.{is_short, decode_container_devices-panics}
use volcano_vgpu_device_plug.Util.Codec.Node.{annotated, decode_node-encode_node}
use volcano_vgpu_device_plug.Util.Pods.{erase_next}
use volcano_vgpu_device_plug.Util.Pods.Requests.{queue, tail, decode-erase_next}

abbrev gpu_request : ContainerDevice
gpu_request = record {
  uuid = codes "GPU-1";
  type = codes "NVIDIA";
  usedmem = pos 3000;
  usedcores = pos 25;
}

abbrev other_request : ContainerDevice
other_request = record {
  uuid = codes "DCU-7";
  type = codes "DCU";
  usedmem = pos 512;
  usedcores = pos 0;
}

abbrev two_containers : PodDevices
two_containers = (gpu_request ∷ other_request ∷ []) ∷ (gpu_request ∷ []) ∷ []

gpu_request-WellFormed : WellFormed gpu_request
gpu_request-WellFormed = record {
  uuid = ground arith;
  type = ground arith;
  usedmem = ground arith;
  usedcores = ground arith;
}

other_request-WellFormed : WellFormed other_request
other_request-WellFormed = record {
  uuid = ground arith;
  type = ground arith;
  usedmem = ground arith;
  usedcores = ground arith;
}

two_containers-WellFormed : All (All WellFormed) two_containers
two_containers-WellFormed =
    ((gpu_request-WellFormed, (other_request-WellFormed, tt)), ((gpu_request-WellFormed, tt), tt))

decode-encode_example :
    decode_pod_devices (encode_pod_devices two_containers)
    ≡ some (two_containers, total two_containers)
decode-encode_example = decode-encode two_containers two_containers-WellFormed (λ e. cc)

decode-erase_next_example :
    (pd' : PodDevices) × (decode_pod_devices
        (encode_pod_devices (erase_next (codes "NVIDIA") two_containers))
      ≡ some (pd', total (erase_next (codes "NVIDIA") two_containers)))
    × (queue (codes "NVIDIA") 0 pd' ≡ tail (queue (codes "NVIDIA") 0 two_containers))
    × (queue (codes "DCU") 0 pd' ≡ queue (codes "DCU") 0 two_containers)
decode-erase_next_example =
    decode-erase_next (codes "NVIDIA") (codes "DCU") two_containers (λ e. cc)
      two_containers-WellFormed

decode_container_devices-panics_example :
    is_none (decode_container_devices (codes "GPU-1,NVIDIA:"))
    ≡ any is_short (split colon (codes "GPU-1,NVIDIA:"))
decode_container_devices-panics_example = decode_container_devices-panics (codes "GPU-1,NVIDIA:")

abbrev node_gpu : DeviceInfo
node_gpu = record {
  id = codes "GPU-1";
  count = pos 10;
  devmem = pos 32768;
  type = codes "NVIDIA-V100";
  health = true;
  mode = codes "hami-core";
  minor = negsuc 0;
}

decode_node-encode_node_example :
    decode_node_devices (encode_node_devices (node_gpu ∷ [])) ≡ some (map annotated (node_gpu ∷ []))
decode_node-encode_node_example = decode_node-encode_node (node_gpu ∷ []) (
  record {
    id = ground arith;
    count = ground arith;
    devmem = ground arith;
    type = ground arith;
    mode = ground arith;
  },
  tt,
)
