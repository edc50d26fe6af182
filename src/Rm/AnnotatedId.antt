-- ===== src/Rm/AnnotatedId.antt =====
-- pkg/rm/devices.go: the id of a replica is the device's id, two colons and the replica's number.
pub mod Laws
use volcano_vgpu_device_plug.Prelude.{
  ℕ, Bool, true, false, Option, none, some, List, [], ◌∷◌, ◌++◌, map, any,
}
use volcano_vgpu_device_plug.Prelude.Int.{ℤ, pos}
use volcano_vgpu_device_plug.GoText.{Str, codes, cut}
use volcano_vgpu_device_plug.GoNum.{itoa, parse_int, half64}

abbrev pub double_colon : Str
double_colon = 58 ∷ 58 ∷ []

unfoldable pub new_annotated_id : Str → ℤ → Str
new_annotated_id id replica = id ++ (double_colon ++ itoa replica)

unfoldable pub has_annotations : Str → Bool
has_annotations r = elim (cut double_colon r) [ none ↦ false | some _ ↦ true ]

-- AnnotatedID.Split; the error of ParseInt is dropped.
unfoldable pub split_id : Str → Str × ℤ
split_id r = elim (cut double_colon r) [
  | none ↦ (r, pos 0)
  | some (id, replica) ↦ (id, (parse_int half64 replica).0)
]

unfoldable pub get_id : Str → Str
unfolding split_id
get_id r = (split_id r).0

unfoldable pub any_has_annotations : List Str → Bool
unfolding has_annotations
any_has_annotations rs = any has_annotations rs

unfoldable pub get_ids : List Str → List Str
unfolding get_id
get_ids rs = map get_id rs
