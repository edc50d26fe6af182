-- ===== src/Util/CdiSpec.antt =====
-- pkg/util/util.go: the test of a CDI specification.
use volcano_vgpu_device_plug.Prelude.{
  ◌≡◌, ◌↔◌, ◌⊎◌, refl, Bool, true, false, ◌&&◌, List, [], ◌∷◌, arith, any, if◌then◌else◌, All,
  length, ◌==◌,
}
use volcano_vgpu_device_plug.GoText.{Str, codes, str_eq, str_eq_iff, has_prefix, contains}

-- A device of the specification, with the paths of its device nodes.
pub record CdiDevice : Type 0 where
  pub name : Str
  pub device_nodes : List Str

pub record CdiSpec : Type 0 where
  pub kind : Str
  pub devices : List CdiDevice

-- The test of one device: one of a MIG instance needs a node for a capability.
unfoldable pub has_capability : CdiDevice → Bool
has_capability d =
    if has_prefix d.name (codes "MIG")
    then (if length d.device_nodes == 0
        then false
        else any (λ path. contains path (codes "nvidia-cap")) d.device_nodes)
    else true

unfoldable pub check_devices : List CdiDevice → Bool
unfolding has_capability
check_devices [] = true
check_devices (d ∷ devices) = has_capability d && check_devices devices

-- checkCDISpec: whether it returns no error.
unfoldable pub check_cdi_spec : CdiSpec → Str → Bool
unfolding check_devices
check_cdi_spec spec kind = str_eq spec.kind kind && check_devices spec.devices

-- A device that is usable: it is no MIG instance, or some node of it is a capability.
abbrev pub IsUsable : CdiDevice → Type 0
IsUsable d =
    (has_prefix d.name (codes "MIG") ≡ false)
    ⊎ (any (λ path. contains path (codes "nvidia-cap")) d.device_nodes ≡ true)

any_nonempty :
    (f : Str → Bool) (l : List Str) → (if length l == 0 then false else any f l) ≡ any f l
any_nonempty f [] = refl
any_nonempty f (x ∷ l) = ground arith

has_capability_iff : (d : CdiDevice) → (has_capability d ≡ true) ↔ IsUsable d
unfolding has_capability
has_capability_iff d =
    ground (arith, any_nonempty (λ path. contains path (codes "nvidia-cap")) d.device_nodes)

check_devices_iff : (ds : List CdiDevice) → (check_devices ds ≡ true) ↔ All IsUsable ds
unfolding check_devices
check_devices_iff [] = (λ _. tt, λ _. refl)
check_devices_iff (d ∷ ds) = ground (arith, has_capability_iff d, check_devices_iff ds)

-- checkCDISpec accepts exactly the specifications of the kind in which every MIG device has a node
-- for a capability.
pub check_cdi_spec_iff :
    (spec : CdiSpec) (kind : Str)
    → (check_cdi_spec spec kind ≡ true) ↔ ((spec.kind ≡ kind) × All IsUsable spec.devices)
unfolding check_cdi_spec
check_cdi_spec_iff spec kind =
    ground (arith, str_eq_iff spec.kind kind, check_devices_iff spec.devices)
