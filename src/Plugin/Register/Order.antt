-- ===== src/Plugin/Register/Order.antt =====
-- ConvertDeviceInfo and the order in which the devices come.
use mathlib.Core.Logic.Or
use mathlib.Core.List.{Mem, Perm, mem-cons, not-mem-nil, mem-cons_self, mem-cons_of_mem}
use mathlib.Core.List.Perm
use volcano_vgpu_device_plug.Prelude.{
  ◌≡◌, ◌≢◌, refl, sym, ap, ◌∙◌, false, Option, none, some, List, [], ◌∷◌, map, ◌>>=◌, >>=-eq-some,
  some_eq, arith,
}
use mathlib.Core.Path.{subst}
use volcano_vgpu_device_plug.Prelude.Int.{pos}
use volcano_vgpu_device_plug.Prelude.Sorted.{IsAscending, IsKeyed, ascending_unique}
use volcano_vgpu_device_plug.GoText.{Str}
use volcano_vgpu_device_plug.Rm.Devices.{Device}
use volcano_vgpu_device_plug.Util.Types.{DeviceInfo}
use volcano_vgpu_device_plug.Plugin.Register.{
  Gpu, Registering, device_info, device_infos, convert_device_info,
}

-- sort.Slice by the minor number: some permutation that is in order.
pub record IsSliceSort (sort : List DeviceInfo → List DeviceInfo) : Type 0 where
  pub perm : (l : List DeviceInfo) → Perm (sort l) l
  pub ascending : (l : List DeviceInfo) → IsAscending (λ (d : DeviceInfo). d.minor) (sort l)

-- Two lists of devices in different orders, with the driver's answers, come to the same devices.
info_or : Registering → (Str → Option Gpu) → DeviceInfo → Device → DeviceInfo
info_or config driver other dev = elim (device_info config driver dev) [
  | none ↦ other
  | some info ↦ info
]

device_infos-map :
    (config : Registering) (driver : Str → Option Gpu) (other : DeviceInfo) (devs : List Device)
    (r : List DeviceInfo)
    → device_infos config driver devs ≡ some r
    → map (info_or config driver other) devs ≡ r
unfolding device_infos info_or
device_infos-map config driver other [] r h = some_eq h
device_infos-map config driver other (dev ∷ devs) r h =
    let (info, hi, h₁) = >>=-eq-some (device_info config driver dev) _ h in
    let (rest, hr, h₂) = >>=-eq-some (device_infos config driver devs) _ h₁ in
    let ih = device_infos-map config driver other devs rest hr in
    ap (λ o. (elim o [ none ↦ other | some info ↦ info ]) ∷ map (info_or config driver other) devs)
      hi
    ∙ ap (λ x. info ∷ x) ih
    ∙ some_eq h₂

-- The driver answers for the devices of a list exactly if it does for those of any other order.
device_infos-answered :
    (config : Registering) (driver : Str → Option Gpu) (devs : List Device) (q : List DeviceInfo)
    → device_infos config driver devs ≡ some q
    → (d : Device) → Mem d devs
    → device_info config driver d ≢ none
unfolding device_infos
device_infos-answered config driver [] q h d m = absurd (not-mem-nil m)
device_infos-answered config driver (dev ∷ devs) q h d m =
    let (info, hi, h₁) = >>=-eq-some (device_info config driver dev) _ h in
    let (rest, hr, h₂) = >>=-eq-some (device_infos config driver devs) _ h₁ in
    λ e.
      Or.elim (λ x y. absurd x) (mem-cons.0 m)
        (λ same. absurd (clash (sym hi ∙ ap (device_info config driver) (sym same) ∙ e)))
        (λ later. device_infos-answered config driver devs rest hr d later e)
  where
    clash : {i : DeviceInfo} → some i ≡ none → ⊥
    clash k = ground arith

answered_device_infos :
    (config : Registering) (driver : Str → Option Gpu) (devs : List Device)
    → ((d : Device) → Mem d devs → device_info config driver d ≢ none)
    → (q : List DeviceInfo) × (device_infos config driver devs ≡ some q)
unfolding device_infos
answered_device_infos config driver [] h = ([], refl)
answered_device_infos config driver (dev ∷ devs) h =
    let (q, e) = answered_device_infos config driver devs (λ d m. h d (mem-cons_of_mem dev m)) in
    let (info, ei) = there (device_info config driver dev) (h dev mem-cons_self) in
    (
      info ∷ q,
      ap (λ o. o >>= λ i. device_infos config driver devs >>= λ rest. some (i ∷ rest)) ei
          ∙ ap (λ o. o >>= λ rest. some (info ∷ rest)) e,
    )
  where
    there : (o : Option DeviceInfo) → o ≢ none → (i : DeviceInfo) × (o ≡ some i)
    there none k = absurd (k refl)
    there (some i) k = (i, refl)

no_info : DeviceInfo
no_info = record {
  id = [];
  count = pos 0;
  devmem = pos 0;
  type = [];
  health = false;
  mode = [];
  minor = pos 0;
}

module _ (sort : List DeviceInfo → List DeviceInfo) (slice_sort : IsSliceSort sort)
    (config : Registering) (driver : Str → Option Gpu) where
  -- However the devices of the map come, ConvertDeviceInfo returns the same list, if no two devices
  -- share a minor number.
  pub convert_device_info-order :
      (devs devs' : List Device) (r r' : List DeviceInfo)
      → Perm devs devs'
      → convert_device_info sort config driver devs ≡ some r
      → convert_device_info sort config driver devs' ≡ some r'
      → IsKeyed (λ (d : DeviceInfo). d.minor) r
      → r ≡ r'
  unfolding convert_device_info
  convert_device_info-order devs devs' r r' p h h' k =
      let (q, hq, e) = >>=-eq-some (device_infos config driver devs) _ h in
      let (q', hq', e') = >>=-eq-some (device_infos config driver devs') _ h' in
      let m = device_infos-map config driver no_info devs q hq in
      let m' = device_infos-map config driver no_info devs' q' hq' in
      let same : Perm q q' =
        subst (λ x. Perm x q') m
          (subst (Perm (map (info_or config driver no_info) devs)) m'
            (Perm.map (info_or config driver no_info) p)) in
      let sorted : Perm (sort q) (sort q') =
        Perm.trans (slice_sort.perm q) (Perm.trans same (Perm.symm (slice_sort.perm q'))) in
      sym (some_eq e)
      ∙ ascending_unique (λ (d : DeviceInfo). d.minor) (sort q) (sort q') (slice_sort.ascending q)
          (slice_sort.ascending q')
          (subst (IsKeyed (λ (d : DeviceInfo). d.minor)) (sym (some_eq e)) k) sorted
      ∙ some_eq e'

pub convert_device_info-answers :
    (sort : List DeviceInfo → List DeviceInfo) (config : Registering) (driver : Str → Option Gpu)
    (devs devs' : List Device) (r : List DeviceInfo)
    → Perm devs devs'
    → convert_device_info sort config driver devs ≡ some r
    → (r' : List DeviceInfo) × (convert_device_info sort config driver devs' ≡ some r')
unfolding convert_device_info
convert_device_info-answers sort config driver devs devs' r p h =
    let (q, hq, e) = >>=-eq-some (device_infos config driver devs) _ h in
    let (q', hq') =
      answered_device_infos config driver devs'
        (λ d m. device_infos-answered config driver devs q hq d ((Perm.mem_iff {a = d} p).1 m)) in
    (sort q', ap (λ o. o >>= λ res. some (sort res)) hq')
