-- ===== src/Health/Events/Placed.antt =====
-- The maps that checkHealth fills, and the placements of the devices in them.
use volcano_vgpu_device_plug.Prelude.{
  ◌≡◌, refl, sym, ◌∙◌, Option, none, some, List, [], ◌∷◌, arith, Member, Bool-cases, inl, inr,
}
use mathlib.Core.Path.{subst}
use volcano_vgpu_device_plug.GoText.{Str, str_eq, str_eq_iff}
use volcano_vgpu_device_plug.Kube.Dict.{lookup, lookup-insert}
use volcano_vgpu_device_plug.Rm.Devices.{Device}
use volcano_vgpu_device_plug.Health.Events.{
  Placement, Registration, Watch, register_placed, register_device, register_all, number,
  empty_watch,
}

module _ (placement : Device → Option Placement) (register : Device → Registration) where
  -- Two of the devices with one id are at one place.
  abbrev pub ArePlacedById : List Device → Type 0
  ArePlacedById ds =
      (d d' : Device) → Member d ds → Member d' ds → d.id ≡ d'.id → placement d ≡ placement d'

  -- The instances of a device in the maps are those of its placement.
  abbrev pub IsPlaced : Watch → Device → Type 0
  IsPlaced w d =
      (p : Placement) × (placement d ≡ some p)
      × (number d.id w.gis ≡ p.gi)
      × (number d.id w.cis ≡ p.ci)

  -- Every device that a parent maps to is one of the list, and in the maps as it is placed.
  abbrev pub AreKnown : List Device → Watch → Type 0
  AreKnown ds w =
      (parent : Str) (d : Device) → lookup parent w.parents ≡ some d → Member d ds × IsPlaced w d

  pub AreKnown-empty : (ds : List Device) → AreKnown ds empty_watch
  unfolding lookup
  AreKnown-empty ds parent d h = cc

  -- The device that is registered.
  IsPlaced-new :
      (p : Placement) (d : Device) (w : Watch)
      → placement d ≡ some p
      → IsPlaced (register_placed placement register (some p) d w) d
  unfolding register_placed
  IsPlaced-new p d w e = (
    p,
    e,
    ground (arith, lookup-insert d.id d.id p.gi w.gis, str_eq_iff d.id d.id),
    ground (arith, lookup-insert d.id d.id p.ci w.cis, str_eq_iff d.id d.id),
  )

  -- Another device, which may have the same id.
  IsPlaced-old :
      (p : Placement) (d d' : Device) (w : Watch)
      → placement d ≡ some p
      → (d.id ≡ d'.id → placement d ≡ placement d')
      → IsPlaced w d'
      → IsPlaced (register_placed placement register (some p) d w) d'
  unfolding register_placed
  IsPlaced-old p d d' w e same (q, f, g, c) = elim (Bool-cases (str_eq d.id d'.id)) [
    | inl b ↦
        let k = same ((str_eq_iff d.id d'.id).0 b) in
        (
          p,
          sym k ∙ e,
          ground (arith, lookup-insert d.id d'.id p.gi w.gis),
          ground (arith, lookup-insert d.id d'.id p.ci w.cis),
        )
    | inr b ↦ (
      q,
      f,
      ground (arith, lookup-insert d.id d'.id p.gi w.gis),
      ground (arith, lookup-insert d.id d'.id p.ci w.cis),
    )
  ]

  AreKnown-register_placed :
      (all : List Device) (o : Option Placement) (d : Device) (w : Watch)
      → ArePlacedById all
      → Member d all
      → placement d ≡ o
      → AreKnown all w
      → AreKnown all (register_placed placement register o d w)
  unfolding register_placed
  AreKnown-register_placed all none d w by_id m e known = λ parent d' h. known parent d' h
  AreKnown-register_placed all (some p) d w by_id m e known = λ parent d' h.
      elim (Bool-cases (str_eq p.uuid parent)) [
        | inl b ↦
            let same : d ≡ d' = ground (arith, lookup-insert p.uuid parent d w.parents) in
            subst (λ x. Member x all × IsPlaced (register_placed placement register (some p) d w) x)
              same (m, IsPlaced-new p d w e)
        | inr b ↦
            let (m', placed) =
              known parent d' (ground (arith, lookup-insert p.uuid parent d w.parents)) in
            (m', IsPlaced-old p d d' w e (by_id d d' m m') placed)
      ]

  pub AreKnown-register_all :
      (all ds : List Device) (w : Watch)
      → ArePlacedById all
      → ((d : Device) → Member d ds → Member d all)
      → AreKnown all w
      → AreKnown all (register_all placement register ds w)
  unfolding register_all register_device
  AreKnown-register_all all [] w by_id part known = known
  AreKnown-register_all all (d ∷ ds) w by_id part known =
      AreKnown-register_all all ds (register_placed placement register (placement d) d w) by_id
        (λ x m. part x (inr m))
        (AreKnown-register_placed all (placement d) d w by_id (part d (inl refl)) refl known)
