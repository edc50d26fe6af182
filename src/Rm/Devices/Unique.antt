-- ===== src/Rm/Devices/Unique.antt =====
-- The loop that keeps the first of each id.
use volcano_vgpu_device_plug.Prelude.{
  ◌≡◌, refl, ap, Bool, true, List, [], ◌∷◌, arith, any, not, ◌&&◌,
}
use volcano_vgpu_device_plug.GoText.{Str, str_eq, str_eq_iff}
use volcano_vgpu_device_plug.Rm.Devices.{unique_loop}

-- Whether a text is in a list.
abbrev pub listed : Str → List Str → Bool
listed id ids = any (str_eq id) ids

-- Whether no text stands twice in a list.
abbrev pub distinct : List Str → Bool
distinct [] = true
distinct (id ∷ ids) = not (listed id ids) && distinct ids

pub listed-unique_loop :
    (seen ids : List Str) (id : Str)
    → listed id (unique_loop seen ids) ≡ (listed id ids && not (listed id seen))
unfolding unique_loop
listed-unique_loop seen [] id = refl
listed-unique_loop seen (id' ∷ ids) id = ground (
  arith,
  str_eq_iff id id',
  listed-unique_loop (id' ∷ seen) ids id,
  listed-unique_loop seen ids id,
  ap (λ (x : Str). listed x seen),
)

pub distinct-unique_loop : (seen ids : List Str) → distinct (unique_loop seen ids) ≡ true
unfolding unique_loop
distinct-unique_loop seen [] = refl
distinct-unique_loop seen (id ∷ ids) = ground (
  arith,
  listed-unique_loop (id ∷ seen) ids id,
  str_eq_iff id id,
  distinct-unique_loop (id ∷ seen) ids,
  distinct-unique_loop seen ids,
)
