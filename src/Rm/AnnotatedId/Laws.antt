-- ===== src/Rm/AnnotatedId/Laws.antt =====
-- The parts of a replica's id.
use volcano_vgpu_device_plug.Prelude.{
  ◌≡◌, refl, Bool, true, false, ◌&&◌, none, some, [], ◌∷◌, ◌++◌, arith, ◌==◌, if◌then◌else◌,
}
use volcano_vgpu_device_plug.Prelude.Int.{ℤ, InRange}
use volcano_vgpu_device_plug.GoText.{Str, cut, has_prefix}
use volcano_vgpu_device_plug.GoNum.{itoa, half64}
use volcano_vgpu_device_plug.GoNum.Decimal.{parse_int-itoa}
use volcano_vgpu_device_plug.Rm.AnnotatedId.{
  double_colon, new_annotated_id, has_annotations, split_id, get_id,
}

-- No two colons stand together in the text, and it does not end in a colon.
abbrev pub is_plain : Str → Bool
is_plain [] = true
is_plain (c ∷ []) = if c == 58 then false else true
is_plain (c ∷ d ∷ s) = if (c == 58) && (d == 58) then false else is_plain (d ∷ s)

cut-append :
    (id rest : Str)
    → is_plain id ≡ true
    → cut double_colon (id ++ (double_colon ++ rest)) ≡ some (id, rest)
unfolding cut
cut-append [] rest h = unfold has_prefix in refl
cut-append (c ∷ []) rest h = unfold has_prefix in ground arith
cut-append (c ∷ d ∷ s) rest h = unfold has_prefix in ground (arith, cut-append (d ∷ s) rest)

-- Splitting the id of a replica gives the device's id and the replica's number, if the device's id
-- has no two colons together and no colon at its end.
pub split-new :
    (id : Str) (replica : ℤ)
    → is_plain id ≡ true
    → InRange half64 replica
    → split_id (new_annotated_id id replica) ≡ (id, replica)
unfolding split_id new_annotated_id
split-new id replica h r =
    ground (arith, cut-append id (itoa replica) h, parse_int-itoa half64 replica r)

pub get_id-new :
    (id : Str) (replica : ℤ) → is_plain id ≡ true → get_id (new_annotated_id id replica) ≡ id
unfolding get_id new_annotated_id
get_id-new id replica h = ground (arith, cut-append id (itoa replica) h)

pub has_annotations-new :
    (id : Str) (replica : ℤ)
    → is_plain id ≡ true
    → has_annotations (new_annotated_id id replica) ≡ true
unfolding has_annotations new_annotated_id
has_annotations-new id replica h = ground (arith, cut-append id (itoa replica) h)

cut_plain : (s : Str) → is_plain s ≡ true → cut double_colon s ≡ none
unfolding cut has_prefix
cut_plain [] h = refl
cut_plain (c ∷ []) h = ground arith
cut_plain (c ∷ d ∷ s) h = ground (arith, cut_plain (d ∷ s))

-- A plain id is its own id and has no annotation.
pub get_id_plain : (id : Str) → is_plain id ≡ true → (get_id id ≡ id) × (has_annotations id ≡ false)
unfolding get_id has_annotations
get_id_plain id h = ground (arith, cut_plain id h)
