-- ===== src/Tests/Pods.antt =====
-- pkg/util/util.go: the oldest pending pod of a node.
use volcano_vgpu_device_plug.Prelude.{◌≡◌, refl, some, List, [], ◌∷◌}
use volcano_vgpu_device_plug.GoText.{Str, codes, str_eq, split, contains, has_prefix}
use volcano_vgpu_device_plug.GoNum.{parse_uint, parse_int, scan_all, scan}
use volcano_vgpu_device_plug.Kube.Dict.{lookup}
use volcano_vgpu_device_plug.Kube.Objects.{Pod, annotation}
use volcano_vgpu_device_plug.Util.Types.{
  assigned_time_annotations, assigned_ids_to_allocate_annotations, assigned_node_annotations,
}
use volcano_vgpu_device_plug.Util.Codec.{
  decode_pod_devices, decode_pods, decode_container_devices, decode_loop, decode_fields,
}
use volcano_vgpu_device_plug.Util.Pods.{
  predicate_time, filter_pods, earlier, oldest_loop, oldest_of, get_oldest_pod,
}
use volcano_vgpu_device_plug.Util.Pods.Oldest.{IsOldest, get_oldest_pod-IsOldest}

abbrev pod : Str → Str → Str → Pod
pod name node time = record {
  name = name;
  uid = name;
  annotations =
      (assigned_node_annotations, node)
      ∷ (assigned_time_annotations, time)
      ∷ (assigned_ids_to_allocate_annotations, codes "G,N,1,2:")
      ∷ [];
  containers = [];
}

abbrev pods : List Pod
pods =
    pod (codes "a") (codes "n1") (codes "9")
    ∷ pod (codes "b") (codes "n1") (codes "7")
    ∷ pod (codes "c") (codes "n2") (codes "1")
    ∷ []

oldest_found :
    get_oldest_pod pods (codes "n1") 1 ≡ some (some (pod (codes "b") (codes "n1") (codes "7")))
unfolding get_oldest_pod filter_pods oldest_of oldest_loop earlier predicate_time parse_uint
    scan_all scan annotation lookup str_eq decode_pod_devices decode_pods decode_container_devices
    decode_loop decode_fields split contains has_prefix parse_int
oldest_found = refl

get_oldest_pod-IsOldest_example :
    IsOldest pods (codes "n1") 1 (some (pod (codes "b") (codes "n1") (codes "7")))
get_oldest_pod-IsOldest_example = get_oldest_pod-IsOldest pods (codes "n1") 1 oldest_found
