-- ===== src/Rm/DeviceMap/Build/Listed.antt =====
-- Which GPUs a map of devices lists.
use volcano_vgpu_device_plug.Prelude.{
  ℕ, ◌≡◌, refl, sym, ap, ◌∙◌, Bool, true, false, not, ◌&&◌, Option, none, some, List, [], ◌∷◌, All,
  if◌then◌else◌, some_eq,
}
use mathlib.Core.Path.{subst}
use volcano_vgpu_device_plug.GoText.{Str, str_eq}
use volcano_vgpu_device_plug.GoNum.{format_uint}
use volcano_vgpu_device_plug.Rm.Devices.{DeviceInfo}
use volcano_vgpu_device_plug.Rm.DeviceMap.{DeviceMap, Result, ok, failed, panicked, and_then}
use volcano_vgpu_device_plug.Spec.Resources.{Resource, Resources}
use volcano_vgpu_device_plug.Rm.DeviceMap.Build.{
  Gpu, Visits, visit, strategy_none, set_entries, matched, visit_gpu, build_gpu_device_map,
}
use volcano_vgpu_device_plug.Rm.DeviceMap.Build.Entries.{
  Grows, InAll, InAll-Grows, set_entries-InAll, false-ne-true,
}

module _ (matches : Str → Str → Bool) (is_filtered : Str → ℕ → Bool) (strategy : Str)
    (resources : List Resource) where
  -- If the GPU is not filtered, and is not left to the MIG devices, every resource has it.
  abbrev pub IsRegistered : DeviceMap → ℕ × Gpu → Type 0
  IsRegistered d (i, gpu) =
      (uuid name : Str) (mig_enabled : Bool)
      → gpu.uuid ≡ some uuid
      → is_filtered uuid i ≡ false
      → gpu.name ≡ some name
      → gpu.mig_enabled ≡ some mig_enabled
      → (mig_enabled && not (str_eq strategy strategy_none)) ≡ false
      → InAll matches resources name (format_uint i) gpu.info d

  ok_eq : {d d' : DeviceMap} → ok d ≡ ok d' → d ≡ d'
  ok_eq h = cc

  matched-ok : (p : Bool × DeviceMap) (d : DeviceMap) → matched matches p ≡ ok d → p ≡ (true, d)
  matched-ok (true, d') d h = ap (λ x. (true, x)) (ok_eq h)
  matched-ok (false, d') d h = cc

  entries-IsRegistered :
      (b : Bool) (name index : Str) (info : DeviceInfo) (d d' : DeviceMap)
      → (if b then ok d else matched matches (set_entries matches resources name index info true d))
        ≡ ok d'
      → Grows d d' × (b ≡ false → InAll matches resources name index info d')
  entries-IsRegistered true name index info d d' h =
      (subst (Grows d) (ok_eq h) (λ m k l. l), λ e. absurd (false-ne-true matches (sym e)))
  entries-IsRegistered false name index info d d' h =
      let (m, g, all) =
        set_entries-InAll matches resources name index info true d d' (matched-ok _ d' h) in
      (g, λ e. all)

  failed_not_ok : {d : DeviceMap} {A : Type 0} → failed ≡ ok d → A
  failed_not_ok h = absurd (not_ok h)
    where
      not_ok : {d : DeviceMap} → failed ≡ ok d → ⊥
      not_ok k = cc

  -- Behind the test of the filter.
  named-IsRegistered :
      (i : ℕ) (n : Option Str) (m : Option Bool) (info : DeviceInfo) (d d' : DeviceMap)
      → (elim n as (λ x. Result DeviceMap) [
        | none ↦ failed
        | some name ↦ elim m as (λ x. Result DeviceMap) [
          | none ↦ failed
          | some mig_enabled ↦
              if mig_enabled && not (str_eq strategy strategy_none)
              then ok d
              else matched matches (set_entries matches resources name (format_uint i) info true d)
        ]
      ])
        ≡ ok d'
      → Grows d d'
        × ((name : Str) (mig_enabled : Bool)
            → n ≡ some name
            → m ≡ some mig_enabled
            → (mig_enabled && not (str_eq strategy strategy_none)) ≡ false
            → InAll matches resources name (format_uint i) info d')
  named-IsRegistered i none m info d d' h = failed_not_ok h
  named-IsRegistered i (some name) none info d d' h = failed_not_ok h
  named-IsRegistered i (some name) (some mig) info d d' h =
      let (g, all) =
        entries-IsRegistered (mig && not (str_eq strategy strategy_none)) name (format_uint i) info
          d d' h in
      (
        g,
        λ name' mig' e f k.
            subst (λ x. InAll matches resources x (format_uint i) info d') (some_eq e)
              (all (ap (λ x. x && not (str_eq strategy strategy_none)) (some_eq f) ∙ k)),
      )

  filtered-IsRegistered :
      (i : ℕ) (gpu : Gpu) (uuid : Str) (b : Bool) (d d' : DeviceMap) (rest : Result DeviceMap)
      → gpu.uuid ≡ some uuid
      → is_filtered uuid i ≡ b
      → (rest ≡ ok d'
          → Grows d d'
            × ((name : Str) (mig_enabled : Bool)
                → gpu.name ≡ some name
                → gpu.mig_enabled ≡ some mig_enabled
                → (mig_enabled && not (str_eq strategy strategy_none)) ≡ false
                → InAll matches resources name (format_uint i) gpu.info d'))
      → (if b then ok d else rest) ≡ ok d'
      → Grows d d' × IsRegistered d' (i, gpu)
  filtered-IsRegistered i gpu uuid true d d' rest u f all h = (
    subst (Grows d) (ok_eq h) (λ m k l. l),
    λ uuid' name mig e g.
        absurd
          (false-ne-true matches (sym g ∙ ap (λ x. is_filtered x i) (some_eq (sym e ∙ u)) ∙ f)),
  )
  filtered-IsRegistered i gpu uuid false d d' rest u f all h =
      ((all h).0, λ uuid' name mig e g. (all h).1 name mig)

  visit_gpu-IsRegistered :
      (i : ℕ) (gpu : Gpu) (d d' : DeviceMap)
      → visit_gpu matches is_filtered strategy resources (i, gpu) d ≡ ok d'
      → Grows d d' × IsRegistered d' (i, gpu)
  unfolding visit_gpu
  visit_gpu-IsRegistered i gpu d d' h = either (gpu.uuid) refl h
    where
      either :
          (o : Option Str)
          → gpu.uuid ≡ o
          → (elim o as (λ x. Result DeviceMap) [
            | none ↦ failed
            | some uuid ↦ if is_filtered uuid i then ok d else elim (gpu.name) [
              | none ↦ failed
              | some name ↦ elim (gpu.mig_enabled) [
                | none ↦ failed
                | some mig_enabled ↦
                    if mig_enabled && not (str_eq strategy strategy_none)
                    then ok d
                    else matched matches
                        (set_entries matches resources name (format_uint i) gpu.info true d)
              ]
            ]
          ])
            ≡ ok d'
          → Grows d d' × IsRegistered d' (i, gpu)
      either none e k = failed_not_ok k
      either (some uuid) e k =
          filtered-IsRegistered i gpu uuid (is_filtered uuid i) d d' _ e refl
            (named-IsRegistered i (gpu.name) (gpu.mig_enabled) gpu.info d d') k

  IsRegistered-Grows :
      (d d' : DeviceMap) (x : ℕ × Gpu) → Grows d d' → IsRegistered d x → IsRegistered d' x
  IsRegistered-Grows d d' (i, gpu) g h uuid name mig a b c e f =
      InAll-Grows matches resources name (format_uint i) gpu.info d d' g (h uuid name mig a b c e f)

  and_then-ok :
      (m : Result DeviceMap) (f : DeviceMap → Result DeviceMap) (d' : DeviceMap)
      → and_then m f ≡ ok d'
      → (d : DeviceMap) × (m ≡ ok d) × (f d ≡ ok d')
  and_then-ok (ok d) f d' h = (d, refl, h)
  and_then-ok failed f d' h = failed_not_ok h
  and_then-ok panicked f d' h = absurd (panicked_not_ok h)
    where
      panicked_not_ok : {d : DeviceMap} → panicked ≡ ok d → ⊥
      panicked_not_ok k = cc

  visit-IsRegistered :
      (ends : Bool) (gpus : List (ℕ × Gpu)) (d d' : DeviceMap)
      → visit (visit_gpu matches is_filtered strategy resources) ends gpus d ≡ ok d'
      → Grows d d' × All (IsRegistered d') gpus
  visit-IsRegistered true [] d d' h = (subst (Grows d) (ok_eq h) (λ m k l. l), tt)
  visit-IsRegistered false [] d d' h = failed_not_ok h
  visit-IsRegistered ends ((i, gpu) ∷ gpus) d d' h =
      let (d₁, first, rest) =
        and_then-ok (visit_gpu matches is_filtered strategy resources (i, gpu) d) _ d' h in
      let (g, here) = visit_gpu-IsRegistered i gpu d d₁ first in
      let (g', later) = visit-IsRegistered ends gpus d₁ d' rest in
      (λ m k l. g' m k (g m k l), (IsRegistered-Grows d₁ d' (i, gpu) g' here, later))

-- When buildGPUDeviceMap returns a map, then the name of each GPU that it visited, other than the
-- filtered ones and those left to their MIG devices, has the patterns of all resources, and every
-- resource lists the device of the GPU, if the driver's answers make one.
pub build_gpu_device_map-IsRegistered :
    (matches : Str → Str → Bool) (is_filtered : Str → ℕ → Bool) (strategy : Str)
    (resources : Resources) (v : Visits) (d : DeviceMap)
    → build_gpu_device_map matches is_filtered strategy resources v ≡ ok d
    → All (IsRegistered matches is_filtered strategy resources.gpus d) v.gpus
unfolding build_gpu_device_map
build_gpu_device_map-IsRegistered matches is_filtered strategy resources v d h =
    (visit-IsRegistered matches is_filtered strategy resources.gpus v.gpus_end v.gpus [] d h).1
