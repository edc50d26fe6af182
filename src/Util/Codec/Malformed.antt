-- ===== src/Util/Codec/Malformed.antt =====
-- DecodeContainerDevices on annotations that no encoder wrote.
use volcano_vgpu_device_plug.Prelude.{
  ◌<◌, ◌≡◌, inl, inr, refl, Bool, false, none, List, [], ◌∷◌, arith, length, any, Bool-cases, ltb,
  is_none, ◌==◌, ◌&&◌,
}
use volcano_vgpu_device_plug.GoText.{Str, split, contains}
use volcano_vgpu_device_plug.GoText.Split.{length-split, occurrences, contains_one}
use volcano_vgpu_device_plug.Util.Codec.{
  comma, colon, decode_fields, decode_loop, decode_container_devices,
}
use volcano_vgpu_device_plug.Util.Codec.RoundTrip.{decode_container_devices_lem}

-- A part with a comma and fewer than three.
abbrev pub is_short : Str → Bool
is_short val = ltb 0 (occurrences comma val) && ltb (occurrences comma val) 3

contains-comma : (val : Str) → contains val (comma ∷ []) ≡ ltb 0 (occurrences comma val)
contains-comma [] = unfold contains in refl
contains-comma (c ∷ s) = elim (Bool-cases (c == comma)) [
  | inl e ↦ rw (contains_one c s comma, e) (ground arith)
  | inr e ↦ rw (contains_one c s comma, e) (contains-comma s)
]

decode_fields-short : (ps : List Str) → length ps < 4 → decode_fields ps ≡ none
unfolding decode_fields
decode_fields-short [] h = refl
decode_fields-short (a ∷ []) h = refl
decode_fields-short (a ∷ b ∷ []) h = refl
decode_fields-short (a ∷ b ∷ c ∷ []) h = refl
decode_fields-short (a ∷ b ∷ c ∷ d ∷ _) h = absurd (omega arith)

is_none-decode_fields : (ps : List Str) → 3 < length ps → is_none (decode_fields ps) ≡ false
unfolding decode_fields
is_none-decode_fields [] h = absurd (omega arith)
is_none-decode_fields (a ∷ []) h = absurd (omega arith)
is_none-decode_fields (a ∷ b ∷ []) h = absurd (omega arith)
is_none-decode_fields (a ∷ b ∷ c ∷ []) h = absurd (omega arith)
is_none-decode_fields (a ∷ b ∷ c ∷ d ∷ _) h = refl

decode_loop-panics : (cd : List Str) → is_none (decode_loop cd) ≡ any is_short cd
unfolding decode_loop
decode_loop-panics [] = refl
decode_loop-panics (val ∷ cd) = ground (
  arith,
  contains-comma val,
  length-split comma val,
  decode_fields-short (split comma val),
  is_none-decode_fields (split comma val),
  decode_loop-panics cd,
)

-- Decoding the devices of a container panics exactly when some part of the text between colons has
-- one or two commas; a text with none or at least three in each part is decoded.
pub decode_container_devices-panics :
    (str : Str) → is_none (decode_container_devices str) ≡ any is_short (split colon str)
decode_container_devices-panics str =
    rw decode_container_devices_lem (decode_loop-panics (split colon str))
