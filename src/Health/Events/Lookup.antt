-- ===== src/Health/Events/Lookup.antt =====
-- The map from parents to devices that checkHealth fills, and what an event finds in it.
use volcano_vgpu_device_plug.Prelude.{
  ◌≡◌, refl, ◌∙◌, ap, Option, none, some, List, [], ◌∷◌, if◌then◌else◌,
}
use volcano_vgpu_device_plug.GoText.{Str, str_eq}
use volcano_vgpu_device_plug.Kube.Dict.{lookup, lookup-insert}
use volcano_vgpu_device_plug.Rm.Devices.{Device}
use volcano_vgpu_device_plug.Health.Events.{
  Placement, Registration, Watch, register_placed, register_device, register_all,
}

module _ (placement : Device → Option Placement) (register : Device → Registration) where
  -- The last of the devices with that parent, if any has it.
  abbrev pub last_on : Str → List Device → Option Device → Option Device
  last_on parent [] found = found
  last_on parent (d ∷ ds) found = last_on parent ds (elim (placement d) [
    | none ↦ found
    | some p ↦ if str_eq p.uuid parent then some d else found
  ])

  lookup-register :
      (d : Device) (w : Watch) (parent : Str)
      → lookup parent (register_device placement register d w).parents ≡ elim (placement d) [
        | none ↦ lookup parent w.parents
        | some p ↦ if str_eq p.uuid parent then some d else lookup parent w.parents
      ]
  unfolding register_device
  lookup-register d w parent = go (placement d)
    where
      go :
          (o : Option Placement)
          → lookup parent (register_placed placement register o d w).parents ≡ elim o [
            | none ↦ lookup parent w.parents
            | some p ↦ if str_eq p.uuid parent then some d else lookup parent w.parents
          ]
      go none = refl
      go (some p) = lookup-insert p.uuid parent d w.parents

  -- Behind the registration a parent maps to the last of its devices only.
  pub lookup-register_all :
      (ds : List Device) (w : Watch) (parent : Str)
      → lookup parent (register_all placement register ds w).parents
        ≡ last_on parent ds (lookup parent w.parents)
  unfolding register_all
  lookup-register_all [] w parent = refl
  lookup-register_all (d ∷ ds) w parent =
      lookup-register_all ds (register_device placement register d w) parent
      ∙ ap (last_on parent ds) (lookup-register d w parent)
