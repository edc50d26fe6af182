-- ===== src/Util/Codec/Node.antt =====
-- EncodeNodeDevices and DecodeNodeDevices together.
use volcano_vgpu_device_plug.Prelude.{
  ◌≡◌, refl, Bool, true, false, some, List, [], ◌∷◌, ◌++◌, map, arith, All, append_assoc,
}
use volcano_vgpu_device_plug.Prelude.Int.{ℤ, pos, negsuc, to_int32_self, InRange}
use volcano_vgpu_device_plug.GoText.{Str, Lacks, split, join, contains}
use volcano_vgpu_device_plug.GoText.Split.{split-append, split-join, join-Lacks, contains-append}
use volcano_vgpu_device_plug.GoNum.{itoa, parse_bool, format_bool, half32, half64}
use volcano_vgpu_device_plug.GoNum.Decimal.{itoa-Lacks, parse_int-itoa}
use volcano_vgpu_device_plug.Util.Types.{DeviceInfo}
use volcano_vgpu_device_plug.Util.Codec.{
  comma, colon, encode_node_device, encode_node_devices, decode_items, decode_node_loop,
  decode_node_devices,
}

-- A text without the two separators of the node annotation.
abbrev pub IsItem : Str → Type 0
IsItem s = Lacks comma s × Lacks colon s

pub record IsNodeDevice (d : DeviceInfo) : Type 0 where
  pub id : IsItem d.id
  pub count : InRange half32 d.count
  pub devmem : InRange half32 d.devmem
  pub type : IsItem d.type
  pub mode : IsItem d.mode

-- What the annotation keeps of a device.
abbrev pub annotated : DeviceInfo → DeviceInfo
annotated d = record d { mode = []; minor = pos 0 }

abbrev items : DeviceInfo → List Str
items d = d.id ∷ itoa d.count ∷ itoa d.devmem ∷ d.type ∷ format_bool d.health ∷ d.mode ∷ []

abbrev body : DeviceInfo → Str
body d = join (comma ∷ []) (items d)

itoa-IsItem : (z : ℤ) → IsItem (itoa z)
itoa-IsItem z =
    (itoa-Lacks comma z (omega arith) (omega arith), itoa-Lacks colon z (omega arith) (omega arith))

format_bool-IsItem : (b : Bool) → IsItem (format_bool b)
format_bool-IsItem true = omega arith
format_bool-IsItem false = omega arith

parse_bool-format_bool : (b : Bool) → parse_bool (format_bool b) ≡ b
unfolding parse_bool
parse_bool-format_bool true = refl
parse_bool-format_bool false = refl

InRange-widen : (z : ℤ) → InRange half32 z → InRange half64 z
InRange-widen (pos n) h = omega arith
InRange-widen (negsuc n) h = omega arith

module _ (d : DeviceInfo) (w : IsNodeDevice d) where
  split-body : split comma (body d) ≡ items d
  split-body = split-join comma d.id _ (
    w.id.0,
    (
      (itoa-IsItem d.count).0,
      ((itoa-IsItem d.devmem).0, (w.type.0, ((format_bool-IsItem d.health).0, (w.mode.0, tt)))),
    ),
  )

  body-Lacks : Lacks colon (body d)
  body-Lacks = join-Lacks colon comma (items d) (omega arith) (
    w.id.1,
    (
      (itoa-IsItem d.count).1,
      ((itoa-IsItem d.devmem).1, (w.type.1, ((format_bool-IsItem d.health).1, (w.mode.1, tt)))),
    ),
  )

  contains-body : contains (body d) (comma ∷ []) ≡ true
  contains-body = unfold join in contains-append comma d.id _

  decode_items-items : decode_items (items d) ≡ some (annotated d)
  unfolding decode_items
  decode_items-items = ground (
    arith,
    parse_int-itoa half64 d.count (InRange-widen d.count w.count),
    parse_int-itoa half64 d.devmem (InRange-widen d.devmem w.devmem),
    to_int32_self d.count w.count,
    to_int32_self d.devmem w.devmem,
    parse_bool-format_bool d.health,
  )

  decode_node_loop-body :
      (tmp : List Str) (rest : List DeviceInfo)
      → decode_node_loop tmp ≡ some rest
      → decode_node_loop (body d ∷ tmp) ≡ some (annotated d ∷ rest)
  unfolding decode_node_loop
  decode_node_loop-body tmp rest h =
      ground (arith, contains-body, split-body, decode_items-items, h)

split-encode :
    (ds : List DeviceInfo)
    → All IsNodeDevice ds
    → split colon (encode_node_devices ds) ≡ map body ds ++ [] ∷ []
unfolding encode_node_devices
split-encode [] h = unfold split in refl
split-encode (d ∷ ds) (w, h) = rw (
  append_assoc (body d) (colon ∷ []) (encode_node_devices ds),
  split-append colon (body d) (encode_node_devices ds) (body-Lacks d w),
  split-encode ds h,
)

decode_node_loop-bodies :
    (ds : List DeviceInfo)
    → All IsNodeDevice ds
    → decode_node_loop (map body ds ++ [] ∷ []) ≡ some (map annotated ds)
decode_node_loop-bodies [] h = unfold decode_node_loop in refl
decode_node_loop-bodies (d ∷ ds) (w, h) =
    decode_node_loop-body d w _ (map annotated ds) (decode_node_loop-bodies ds h)

contains-encode :
    (d : DeviceInfo) (ds : List DeviceInfo)
    → contains (encode_node_devices (d ∷ ds)) (colon ∷ []) ≡ true
unfolding encode_node_devices encode_node_device
contains-encode d ds =
    rw (append_assoc (body d) (colon ∷ []) (encode_node_devices ds))
      (contains-append colon (body d) (encode_node_devices ds))

-- The devices of a node come back from its annotation in order, with their id, count, memory, type
-- and health; the mode and the minor number do not come back.
pub decode_node-encode_node :
    (ds : List DeviceInfo)
    → All IsNodeDevice ds
    → decode_node_devices (encode_node_devices ds) ≡ some (map annotated ds)
decode_node-encode_node [] h = unfold decode_node_devices encode_node_devices contains in refl
decode_node-encode_node (d ∷ ds) h =
    unfold decode_node_devices in
    ground
      (arith, contains-encode d ds, split-encode (d ∷ ds) h, decode_node_loop-bodies (d ∷ ds) h)
