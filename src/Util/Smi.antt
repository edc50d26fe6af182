-- ===== src/Util/Smi.antt =====
-- pkg/util/util.go: the UUID of a MIG instance, from the driver or from the output of nvidia-smi -L.
-- `none` is an index out of range or klog.Fatal, both the end of the process.
use volcano_vgpu_device_plug.Prelude.{
  Bool, false, ◌&&◌, Option, none, some, List, [], ◌∷◌, if◌then◌else◌, get_elem?, ◌==◌,
}
use volcano_vgpu_device_plug.Prelude.Int.{ℤ, eq_ℤ}
use volcano_vgpu_device_plug.GoText.{Str, codes, contains, cut, split, trim_space, trim_right}
use volcano_vgpu_device_plug.GoNum.{parse_int, half64}

-- strings.Split(s, sep)[0]
unfoldable pub part_before : Str → Str → Str
part_before sep s = elim (cut sep s) [ none ↦ s | some (p, _) ↦ p ]

-- strings.Split(s, sep)[1]
unfoldable pub part_after : Str → Str → Option Str
unfolding part_before
part_after sep s = elim (cut sep s) [ none ↦ none | some (_, rest) ↦ some (part_before sep rest) ]

-- The number between "Device" and the colon; the inner `none` is a text that Atoi refuses.
unfoldable pub device_index : Str → Option ℤ
unfolding part_after part_before
device_index val = elim (part_after (codes "Device") val) [
  | none ↦ none
  | some num ↦
      let (index, bad) = parse_int half64 (trim_space (part_before (58 ∷ []) num)) in
      if bad then none else some index
]

-- The text behind the second colon, without the space around it and the brackets at its end.
unfoldable pub device_uuid : Str → Option Str
device_uuid val = elim (get_elem? (split 58 val) 2) [
  | none ↦ none
  | some text ↦ some (trim_right (λ c. c == 41) (trim_space text))
]

-- A line of an instance below the GPU: what it returns, if it is the one.
unfoldable pub instance_line : ℤ → Str → Option Str → Option Str
unfolding device_index device_uuid
instance_line idx val rest = elim (device_index val) [
  | none ↦ none
  | some index ↦ if eq_ℤ index idx then device_uuid val else rest
]

-- The loop of GetMigUUIDFromSmiOutput: `migmode` says that the last line of a GPU was the one.
unfoldable pub smi_loop : Str → ℤ → Bool → List Str → Option Str
unfolding instance_line
smi_loop uuid idx migmode [] = some []
smi_loop uuid idx migmode (val ∷ lines) =
    let is_instance = contains val (codes "MIG") in
    let mode = if is_instance then migmode else contains val uuid in
    let rest = smi_loop uuid idx mode lines in
    if is_instance && migmode then instance_line idx val rest else rest

-- GetMigUUIDFromSmiOutput
unfoldable pub mig_uuid_from_smi_output : Str → Str → ℤ → Option Str
unfolding smi_loop
mig_uuid_from_smi_output output uuid idx = smi_loop uuid idx false (split 10 output)

-- What the driver answers about the instance of a GPU with an index. Without a handle of the
-- instance, nvidia-smi answers with its output, or fails.
pub data MigAnswer : Type 0 where
  no_gpu no_uuid smi_failed : MigAnswer
  instance_uuid : Str → MigAnswer
  smi_output : Str → MigAnswer

-- originuuid
unfoldable pub origin_uuid : Str → Str
unfolding part_before
origin_uuid uuid = part_before (91 ∷ []) uuid

-- GetMigUUIDFromIndex, with the answer for the GPU of the id.
unfoldable pub mig_uuid_from_index : (Str → ℤ → MigAnswer) → Str → ℤ → Option Str
unfolding origin_uuid mig_uuid_from_smi_output
mig_uuid_from_index answer uuid idx = elim (answer (origin_uuid uuid) idx) [
  | no_gpu ↦ none
  | no_uuid ↦ none
  | smi_failed ↦ none
  | instance_uuid res ↦ some res
  | smi_output output ↦ mig_uuid_from_smi_output output (origin_uuid uuid) idx
]
