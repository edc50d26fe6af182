-- ===== src/Rm/Devices/Sets.antt =====
-- Subset and Difference as set operations on ids.
use volcano_vgpu_device_plug.Prelude.{
  ◌≡◌, refl, Bool, true, false, not, ◌&&◌, Option, none, some, List, [], ◌∷◌, arith, if◌then◌else◌,
  any, is_none, inl, inr, Bool-cases, ◌∙◌,
}
use volcano_vgpu_device_plug.GoText.{Str, str_eq, str_eq_iff, str_eq_refl}
use volcano_vgpu_device_plug.Kube.Dict.{lookup, lookup-insert}
use volcano_vgpu_device_plug.Rm.Devices.{
  Device, Devices, has, add_found, subset_loop, subset, difference,
}

abbrev pub listed : Str → List Str → Bool
listed id ids = any (λ x. str_eq x id) ids

lookup-add_found :
    (ds res : Devices) (x id : Str)
    → lookup id (add_found x (lookup x ds) res)
      ≡ (if str_eq x id && not (is_none (lookup id ds)) then lookup id ds else lookup id res)
unfolding add_found
lookup-add_found ds res x id = elim (Bool-cases (str_eq x id)) [
  | inl e ↦ rw (← (str_eq_iff x id).0 e, str_eq_refl x) (found (lookup x ds))
  | inr e ↦ rw e (other e (lookup x ds))
]
  where
    found :
        (o : Option Device)
        → lookup x (add_found x o res) ≡ (if not (is_none o) then o else lookup x res)
    found none = refl
    found (some d) = ground (arith, lookup-insert x x d res, str_eq_refl x)

    other :
        str_eq x id ≡ false → (o : Option Device) → lookup id (add_found x o res) ≡ lookup id res
    other e none = refl
    other e (some d) = ground (arith, lookup-insert x id d res, e)

lookup-subset_loop :
    (ds : Devices) (ids : List Str) (res : Devices) (id : Str)
    → lookup id (subset_loop ds ids res)
      ≡ (if listed id ids && not (is_none (lookup id ds)) then lookup id ds else lookup id res)
unfolding subset_loop
lookup-subset_loop ds [] res id = refl
lookup-subset_loop ds (x ∷ ids) res id = ground (
  arith,
  lookup-subset_loop ds ids (add_found x (lookup x ds) res) id,
  lookup-add_found ds res x id,
)

-- Subset keeps exactly the listed ids that the map has, with their devices.
pub lookup-subset :
    (ds : Devices) (ids : List Str) (id : Str)
    → lookup id (subset ds ids) ≡ (if listed id ids then lookup id ds else none)
unfolding subset
lookup-subset ds ids id = lookup-subset_loop ds ids [] id ∙ missing (listed id ids) (lookup id ds)
  where
    missing :
        (b : Bool) (o : Option Device)
        → (if b && not (is_none o) then o else lookup id []) ≡ (if b then o else none)
    missing true none = unfold lookup in refl
    missing true (some d) = refl
    missing false o = unfold lookup in refl

-- Difference keeps exactly the ids that the other map does not have.
pub lookup-difference :
    (ds ods : Devices) (id : Str)
    → lookup id (difference ds ods) ≡ (if has ods id then none else lookup id ds)
unfolding difference lookup has
lookup-difference [] ods id = ground arith
lookup-difference ((x, d) ∷ ds) ods id =
    ground (arith, lookup-difference ds ods id, str_eq_iff x id)
