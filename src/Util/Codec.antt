-- ===== src/Util/Codec.antt =====
-- pkg/util/util.go: the text forms of device lists in annotations. A slice index out of range is a
-- Go panic, `none` here.
pub mod RoundTrip
pub mod Malformed
pub mod Node
use volcano_vgpu_device_plug.Prelude.{
  ℕ, suc, ◌+◌, Option, none, some, List, [], ◌∷◌, ◌++◌, map, if◌then◌else◌, ◌>>=◌, not,
}
use volcano_vgpu_device_plug.Prelude.Int.{pos, to_int32}
use volcano_vgpu_device_plug.GoText.{Str, codes, split, join, contains}
use volcano_vgpu_device_plug.GoNum.{itoa, parse_int, parse_bool, format_bool, half32, half64}
use volcano_vgpu_device_plug.Util.Types.{ContainerDevice, ContainerDevices, PodDevices, DeviceInfo}

-- the bytes , : ;
abbrev pub comma : ℕ
comma = 44

abbrev pub colon : ℕ
colon = 58

abbrev pub semicolon : ℕ
semicolon = 59

-- One round of the loop in EncodeContainerDevices: the fields with a comma between them, and a colon.
unfoldable pub encode_container_device : ContainerDevice → Str
encode_container_device val =
    join (comma ∷ []) (val.uuid ∷ val.type ∷ itoa val.usedmem ∷ itoa val.usedcores ∷ [])
    ++ colon ∷ []

unfoldable pub encode_container_devices : ContainerDevices → Str
unfolding encode_container_device
encode_container_devices [] = []
encode_container_devices (val ∷ cd) = encode_container_device val ++ encode_container_devices cd

unfoldable pub encode_pod_devices : PodDevices → Str
unfolding encode_container_devices
encode_pod_devices pd = join (semicolon ∷ []) (map encode_container_devices pd)

-- tmpstr[0] to tmpstr[3]: fewer parts are a panic, more are ignored.
unfoldable pub decode_fields : List Str → Option ContainerDevice
decode_fields (uuid ∷ type ∷ mem ∷ cores ∷ _) = some (record {
  uuid = uuid;
  type = type;
  usedmem = to_int32 (parse_int half32 mem).0;
  usedcores = to_int32 (parse_int half32 cores).0;
})
decode_fields _ = none

-- The loop of DecodeContainerDevices: the devices, and how many were counted.
unfoldable pub decode_loop : List Str → Option (ContainerDevices × ℕ)
unfolding decode_fields contains
decode_loop [] = some ([], 0)
decode_loop (val ∷ cd) =
    let rest = decode_loop cd in
    if contains val (comma ∷ [])
    then (do
      dev ← decode_fields (split comma val)
      (contdev, count) ← rest
      some (dev ∷ contdev, suc count))
    else rest

unfoldable pub decode_container_devices : Str → Option (ContainerDevices × ℕ)
unfolding decode_loop
decode_container_devices [] = some ([], 0)
decode_container_devices (c ∷ str) = decode_loop (split colon (c ∷ str))

-- The loop of DecodePodDevices.
unfoldable pub decode_pods : List Str → Option (PodDevices × ℕ)
unfolding decode_container_devices
decode_pods [] = some ([], 0)
decode_pods (s ∷ ss) = do
  (cd, count) ← decode_container_devices s
  (pd, length) ← decode_pods ss
  some (cd ∷ pd, count + length)

unfoldable pub decode_pod_devices : Str → Option (PodDevices × ℕ)
unfolding decode_pods
decode_pod_devices [] = some ([], 0)
decode_pod_devices (c ∷ str) = decode_pods (split semicolon (c ∷ str))

-- One round of the loop in EncodeNodeDevices.
unfoldable pub encode_node_device : DeviceInfo → Str
encode_node_device val =
    join (comma ∷ []) (
      val.id ∷ itoa val.count ∷ itoa val.devmem ∷ val.type ∷ format_bool val.health ∷ val.mode ∷ [])
    ++ colon ∷ []

unfoldable pub encode_node_devices : List DeviceInfo → Str
unfolding encode_node_device
encode_node_devices [] = []
encode_node_devices (val ∷ dlist) = encode_node_device val ++ encode_node_devices dlist

-- items[0] to items[4]; the mode, items[5], is not read back.
unfoldable pub decode_items : List Str → Option DeviceInfo
decode_items (id ∷ count ∷ devmem ∷ type ∷ health ∷ _) = some (record {
  id = id;
  count = to_int32 (parse_int half64 count).0;
  devmem = to_int32 (parse_int half64 devmem).0;
  type = type;
  health = parse_bool health;
  mode = [];
  minor = pos 0;
})
decode_items _ = none

unfoldable pub decode_node_loop : List Str → Option (List DeviceInfo)
unfolding decode_items contains
decode_node_loop [] = some []
decode_node_loop (val ∷ tmp) =
    let rest = decode_node_loop tmp in
    if contains val (comma ∷ [])
    then (do i ← decode_items (split comma val); retval ← rest; some (i ∷ retval))
    else rest

unfoldable pub decode_node_devices : Str → Option (List DeviceInfo)
unfolding decode_node_loop
decode_node_devices str =
    if not (contains str (colon ∷ [])) then some [] else decode_node_loop (split colon str)
