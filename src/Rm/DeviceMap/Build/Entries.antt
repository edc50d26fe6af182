-- ===== src/Rm/DeviceMap/Build/Entries.antt =====
-- The entries that a GPU adds to a map of devices.
use volcano_vgpu_device_plug.Prelude.{
  ◌≡◌, refl, sym, ap, ◌∙◌, Bool, true, false, Option, none, some, List, [], ◌∷◌, All, if◌then◌else◌,
  arith, some_eq, Bool-cases, inl, inr,
}
use mathlib.Core.Path.{subst}
use volcano_vgpu_device_plug.GoText.{Str, str_eq_iff, str_eq_refl}
use volcano_vgpu_device_plug.Kube.Dict.{insert, lookup-insert}
use volcano_vgpu_device_plug.Rm.Devices.{Device, DeviceInfo, build_device, has}
use volcano_vgpu_device_plug.Rm.DeviceMap.{
  DeviceMap, Result, ok, failed, panicked, devices_of, insert_device, set_entry,
}
use volcano_vgpu_device_plug.Spec.Resources.{Resource}
use volcano_vgpu_device_plug.Rm.DeviceMap.Build.{set_entries}

-- The resource lists a device of that id.
abbrev pub Lists : DeviceMap → Str → Str → Type 0
Lists d name id = has (devices_of name d) id ≡ true

abbrev pub Grows : DeviceMap → DeviceMap → Type 0
Grows d d' = (name id : Str) → Lists d name id → Lists d' name id

Lists-insert_device :
    (name : Str) (dev : Device) (d : DeviceMap) → Lists (insert_device name dev d) name dev.id
unfolding insert_device has
Lists-insert_device name dev d =
    let inner = lookup-insert dev.id dev.id dev (devices_of name d) in
    let outer = lookup-insert name name (insert dev.id dev (devices_of name d)) d in
    ground (arith, str_eq_refl name, str_eq_refl dev.id)

Grows-insert_device :
    (name : Str) (dev : Device) (d : DeviceMap) → Grows d (insert_device name dev d)
unfolding insert_device has
Grows-insert_device name dev d m k h =
    let inner = lookup-insert dev.id k dev (devices_of name d) in
    let outer = lookup-insert name m (insert dev.id dev (devices_of name d)) d in
    ground (arith, str_eq_iff name m)

module _ (matches : Str → Str → Bool) where
  -- The name of a GPU has every pattern, and each resource lists the device of the GPU, if the driver
  -- answers about it.
  abbrev pub InAll : List Resource → Str → Str → DeviceInfo → DeviceMap → Type 0
  InAll resources name index info d =
      All
        (λ (r : Resource).
          (matches r.pattern name ≡ true)
          × ((dev : Device) → build_device index info ≡ some dev → Lists d r.name dev.id))
        resources

  pub InAll-Grows :
      (resources : List Resource) (name index : Str) (info : DeviceInfo) (d d' : DeviceMap)
      → Grows d d'
      → InAll resources name index info d
      → InAll resources name index info d'
  InAll-Grows [] name index info d d' g h = tt
  InAll-Grows (r ∷ resources) name index info d d' g ((m, h), hs) =
      ((m, λ dev e. g r.name dev.id (h dev e)), InAll-Grows resources name index info d d' g hs)

  entered : Str → Option Device → DeviceMap → DeviceMap
  entered name o d = elim o [ none ↦ d | some dev ↦ insert_device name dev d ]

  entered-set_entry :
      (name index : Str) (info : DeviceInfo) (d : DeviceMap)
      → (elim (set_entry name index info d) [ ok d' ↦ d' | failed ↦ d | panicked ↦ d ])
        ≡ entered name (build_device index info) d
  unfolding set_entry entered
  entered-set_entry name index info d = either (build_device index info)
    where
      either :
          (o : Option Device)
          → (elim (elim o as (λ x. Result DeviceMap) [
            | none ↦ failed
            | some dev ↦ ok (insert_device name dev d)
          ]) [ ok d' ↦ d' | failed ↦ d | panicked ↦ d ])
            ≡ (elim o [ none ↦ d | some dev ↦ insert_device name dev d ])
      either none = refl
      either (some dev) = refl

  Grows-entered : (name : Str) (o : Option Device) (d : DeviceMap) → Grows d (entered name o d)
  unfolding entered
  Grows-entered name none d = λ m k h. h
  Grows-entered name (some dev) d = Grows-insert_device name dev d

  Lists-entered :
      (name : Str) (o : Option Device) (d : DeviceMap) (dev : Device)
      → o ≡ some dev
      → Lists (entered name o d) name dev.id
  unfolding entered
  Lists-entered name none d dev e = absurd (ground arith)
  Lists-entered name (some dev') d dev e =
      subst (λ x. Lists (insert_device name dev' d) name x.id) (some_eq e)
        (Lists-insert_device name dev' d)

  pub false-ne-true : false ≡ true → ⊥
  false-ne-true h = ground arith

  pub set_entries-InAll :
      (resources : List Resource) (name index : Str) (info : DeviceInfo) (match : Bool)
      (d d' : DeviceMap)
      → set_entries matches resources name index info match d ≡ (true, d')
      → (match ≡ true) × Grows d d' × InAll resources name index info d'
  unfolding set_entries
  set_entries-InAll [] name index info match d d' h = (
    ap (λ (x : Bool × DeviceMap). x.0) h,
    subst (Grows d) (ap (λ (x : Bool × DeviceMap). x.1) h) (λ m k l. l),
    tt,
  )
  set_entries-InAll (r ∷ resources) name index info match d d' h =
      let IH = set_entries-InAll resources name index info in
      elim (Bool-cases (matches r.pattern name)) [
        | inl e ↦
            let d₁ = entered r.name (build_device index info) d in
            let there : set_entries matches resources name index info match d₁ ≡ (true, d') =
              ap (λ x. set_entries matches resources name index info match x)
                (sym (entered-set_entry r.name index info d))
              ∙ (ap
                    (λ b.
                      if b
                      then set_entries matches resources name index info match
                          (elim (set_entry r.name index info d) [
                            | ok d₂ ↦ d₂
                            | failed ↦ d
                            | panicked ↦ d
                          ])
                      else set_entries matches resources name index info false d)
                    (sym e)
                  ∙ h) in
            let (m, g, rest) = IH match d₁ d' there in
            (
              m,
              λ n k l. g n k (Grows-entered r.name (build_device index info) d n k l),
              (
                (
                  e,
                  λ dev b. g r.name dev.id (Lists-entered r.name (build_device index info) d dev b),
                ),
                rest,
              ),
            )
        | inr e ↦
            let no = IH false d d' (
              ap
                (λ b.
                  if b
                  then set_entries matches resources name index info match
                      (elim (set_entry r.name index info d) [
                        | ok d₂ ↦ d₂
                        | failed ↦ d
                        | panicked ↦ d
                      ])
                  else set_entries matches resources name index info false d)
                (sym e)
              ∙ h) in
            absurd (false-ne-true no.0)
      ]
