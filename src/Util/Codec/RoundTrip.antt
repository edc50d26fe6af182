-- ===== src/Util/Codec/RoundTrip.antt =====
-- EncodePodDevices and DecodePodDevices together.
use mathlib.Core.Logic.{◌≢◌}
use volcano_vgpu_device_plug.Prelude.{
  ℕ, suc, ◌+◌, ◌≡◌, refl, true, some, List, [], ◌∷◌, ◌++◌, map, arith, All, All-append, length,
  append_assoc, append-cons-ne-nil, append-append-ne-nil,
}
use volcano_vgpu_device_plug.Prelude.Int.{ℤ, to_int32_self, InRange}
use volcano_vgpu_device_plug.GoText.{Str, Lacks, split, join, contains}
use volcano_vgpu_device_plug.GoText.Split.{split-append, split-join, join-Lacks, contains-append}
use volcano_vgpu_device_plug.GoNum.{itoa, half32}
use volcano_vgpu_device_plug.GoNum.Decimal.{itoa-Lacks, parse_int-itoa}
use volcano_vgpu_device_plug.Util.Types.{ContainerDevice, ContainerDevices, PodDevices}
use volcano_vgpu_device_plug.Util.Codec.{
  comma, colon, semicolon, encode_container_device, encode_container_devices, encode_pod_devices,
  decode_fields, decode_loop, decode_container_devices, decode_pods, decode_pod_devices,
}

-- A text that holds no separator of the format.
abbrev pub IsField : Str → Type 0
IsField s = Lacks comma s × Lacks colon s × Lacks semicolon s

-- A device whose texts hold no separator and whose numbers are int32 values.
pub record WellFormed (d : ContainerDevice) : Type 0 where
  pub uuid : IsField d.uuid
  pub type : IsField d.type
  pub usedmem : InRange half32 d.usedmem
  pub usedcores : InRange half32 d.usedcores

itoa-IsField : (z : ℤ) → IsField (itoa z)
itoa-IsField z = (
  itoa-Lacks comma z (omega arith) (omega arith),
  itoa-Lacks colon z (omega arith) (omega arith),
  itoa-Lacks semicolon z (omega arith) (omega arith),
)

abbrev fields : ContainerDevice → List Str
fields d = d.uuid ∷ d.type ∷ itoa d.usedmem ∷ itoa d.usedcores ∷ []

-- The text of a device without its colon.
abbrev body : ContainerDevice → Str
body d = join (comma ∷ []) (fields d)

module _ (d : ContainerDevice) (w : WellFormed d) where
  split-body : split comma (body d) ≡ fields d
  split-body =
      split-join comma d.uuid _
        (w.uuid.0, (w.type.0, ((itoa-IsField d.usedmem).0, ((itoa-IsField d.usedcores).0, tt))))

  body-Lacks-colon : Lacks colon (body d)
  body-Lacks-colon =
      join-Lacks colon comma (fields d) (omega arith)
        (w.uuid.1, (w.type.1, ((itoa-IsField d.usedmem).1, ((itoa-IsField d.usedcores).1, tt))))

  body-Lacks-semicolon : Lacks semicolon (body d)
  body-Lacks-semicolon =
      join-Lacks semicolon comma (fields d) (omega arith)
        (w.uuid.2, (w.type.2, ((itoa-IsField d.usedmem).2, ((itoa-IsField d.usedcores).2, tt))))

  contains-body : contains (body d) (comma ∷ []) ≡ true
  contains-body = unfold join in contains-append comma d.uuid _

  decode_fields-fields : decode_fields (fields d) ≡ some d
  unfolding decode_fields
  decode_fields-fields = ground (
    arith,
    parse_int-itoa half32 d.usedmem w.usedmem,
    parse_int-itoa half32 d.usedcores w.usedcores,
    to_int32_self d.usedmem w.usedmem,
    to_int32_self d.usedcores w.usedcores,
  )

  decode_loop-body :
      (cd : List Str) (rest : ContainerDevices) (count : ℕ)
      → decode_loop cd ≡ some (rest, count)
      → decode_loop (body d ∷ cd) ≡ some (d ∷ rest, suc count)
  unfolding decode_loop
  decode_loop-body cd rest count h =
      ground (arith, contains-body, split-body, decode_fields-fields, h)

-- The parts between the colons are the bodies, and an empty text behind the last colon.
split-encode :
    (cd : ContainerDevices)
    → All WellFormed cd
    → split colon (encode_container_devices cd) ≡ map body cd ++ [] ∷ []
unfolding encode_container_devices
split-encode [] h = unfold split in refl
split-encode (d ∷ cd) (w, h) = rw (
  append_assoc (body d) (colon ∷ []) (encode_container_devices cd),
  split-append colon (body d) (encode_container_devices cd) (body-Lacks-colon d w),
  split-encode cd h,
)

decode_loop-bodies :
    (cd : ContainerDevices)
    → All WellFormed cd
    → decode_loop (map body cd ++ [] ∷ []) ≡ some (cd, length cd)
decode_loop-bodies [] h = unfold decode_loop in refl
decode_loop-bodies (d ∷ cd) (w, h) = decode_loop-body d w _ cd (length cd) (decode_loop-bodies cd h)

pub decode_container_devices_lem :
    (s : Str) → decode_container_devices s ≡ decode_loop (split colon s)
unfolding decode_container_devices
decode_container_devices_lem [] = unfold split in refl
decode_container_devices_lem (c ∷ s) = refl

-- The devices of one container come back in order, with their number.
pub decode-encode_container :
    (cd : ContainerDevices)
    → All WellFormed cd
    → decode_container_devices (encode_container_devices cd) ≡ some (cd, length cd)
decode-encode_container cd h =
    rw (decode_container_devices_lem (encode_container_devices cd), split-encode cd h)
      (decode_loop-bodies cd h)

encode-Lacks-semicolon :
    (cd : ContainerDevices) → All WellFormed cd → Lacks semicolon (encode_container_devices cd)
unfolding encode_container_devices
encode-Lacks-semicolon [] h = tt
encode-Lacks-semicolon (d ∷ cd) (w, h) =
    All-append (λ c. c ≢ semicolon) (body d ++ colon ∷ []) _
      (All-append (λ c. c ≢ semicolon) (body d) _ (body-Lacks-semicolon d w) (omega arith))
      (encode-Lacks-semicolon cd h)

encodes-Lacks :
    (pd : PodDevices)
    → All (All WellFormed) pd
    → All (Lacks semicolon) (map encode_container_devices pd)
encodes-Lacks [] h = tt
encodes-Lacks (cd ∷ pd) (w, h) = (encode-Lacks-semicolon cd w, encodes-Lacks pd h)

-- The number of devices in all containers.
abbrev pub total : PodDevices → ℕ
total [] = 0
total (cd ∷ pd) = length cd + total pd

decode_pods-encodes :
    (pd : PodDevices)
    → All (All WellFormed) pd
    → decode_pods (map encode_container_devices pd) ≡ some (pd, total pd)
unfolding decode_pods
decode_pods-encodes [] h = refl
decode_pods-encodes (cd ∷ pd) (w, h) = rw (decode-encode_container cd w, decode_pods-encodes pd h)

decode_pod_devices_lem : (s : Str) → s ≢ [] → decode_pod_devices s ≡ decode_pods (split semicolon s)
unfolding decode_pod_devices
decode_pod_devices_lem [] h = absurd (h refl)
decode_pod_devices_lem (c ∷ s) h = refl

-- A pod's list is written as no text only if it is empty or one empty container.
encode-ne-nil : (pd : PodDevices) → pd ≢ [] → pd ≢ [] ∷ [] → encode_pod_devices pd ≢ []
unfolding encode_pod_devices join
encode-ne-nil [] h k = absurd (h refl)
encode-ne-nil ([] ∷ []) h k = absurd (k refl)
encode-ne-nil ((d ∷ cd) ∷ []) h k =
    unfold encode_container_devices encode_container_device in
    append-append-ne-nil (body d) colon (encode_container_devices cd)
encode-ne-nil (cd ∷ cd' ∷ pd) h k = append-cons-ne-nil (encode_container_devices cd) semicolon _

-- A pod's device list that the scheduler wrote is read back as it was written, with the number of
-- its devices, unless it is one container with no device.
pub decode-encode :
    (pd : PodDevices)
    → All (All WellFormed) pd
    → pd ≢ [] ∷ []
    → decode_pod_devices (encode_pod_devices pd) ≡ some (pd, total pd)
decode-encode [] h k = unfold decode_pod_devices encode_pod_devices join in refl
decode-encode (cd ∷ pd) h k = rw (decode_pod_devices_lem _ (encode-ne-nil (cd ∷ pd) (λ e. cc) k)) (
    unfold encode_pod_devices in
    rw
      (split-join semicolon (encode_container_devices cd) (map encode_container_devices pd)
        (encodes-Lacks (cd ∷ pd) h))
      (decode_pods-encodes (cd ∷ pd) h))
