-- ===== src/Tests/Register.antt =====
-- pkg/plugin/register.go: two devices, reported in two orders.
use mathlib.Core.Logic.Or
use mathlib.Core.List.Perm
use mathlib.Core.List.{Perm, mem-cons, not-mem-nil}
use volcano_vgpu_device_plug.Prelude.{
  ℕ, ◌≡◌, ◌≢◌, refl, sym, ap, ◌∙◌, Bool, true, false, Option, none, some, List, [], ◌∷◌, All,
  if◌then◌else◌, arith, Bool-cases, inl, inr,
}
use volcano_vgpu_device_plug.Prelude.Int.{pos, ◌≤ℤ◌, ltb_ℤ}
use volcano_vgpu_device_plug.Prelude.Sorted.{IsAscending, IsKeyed}
use volcano_vgpu_device_plug.Prelude.Int.{to_int32, quot_ℤ, eq_ℤ}
use volcano_vgpu_device_plug.GoText.{Str, codes, str_eq, str_eq_iff, str_eq_refl}
use volcano_vgpu_device_plug.Kube.Dict.{Dict, lookup}
use volcano_vgpu_device_plug.Kube.Objects.{Node, node_annotation}
use volcano_vgpu_device_plug.Kube.Client.{Client}
use volcano_vgpu_device_plug.NodeLock.Server.{Holds}
use volcano_vgpu_device_plug.Rm.Devices.{Device}
use volcano_vgpu_device_plug.Util.Types.{node_nvidia_device_registered}
use volcano_vgpu_device_plug.Util.Codec.{encode_node_devices}
use volcano_vgpu_device_plug.Plugin.Register.{
  Gpu, Registering, registered_mem, device_info, device_infos, convert_device_info, report_devices,
  register_in_annotation,
}
use volcano_vgpu_device_plug.Plugin.Register.Order.{IsSliceSort, convert_device_info-order}
use volcano_vgpu_device_plug.Plugin.Register.Again.{
  IsPatching, IsRegistered, register_in_annotation-again,
}
use volcano_vgpu_device_plug.Util.Types.{DeviceInfo}

abbrev place : DeviceInfo → List DeviceInfo → List DeviceInfo
place x [] = x ∷ []
place x (m ∷ l) = let rest = place x l in if ltb_ℤ m.minor x.minor then m ∷ rest else x ∷ m ∷ l

abbrev by_minor : List DeviceInfo → List DeviceInfo
by_minor [] = []
by_minor (x ∷ l) = place x (by_minor l)

abbrev AllAbove : DeviceInfo → List DeviceInfo → Type 0
AllAbove x l = All (λ (y : DeviceInfo). x.minor ≤ℤ y.minor) l

place-perm : (x : DeviceInfo) (l : List DeviceInfo) → Perm (place x l) (x ∷ l)
place-perm x [] = Perm.refl (x ∷ [])
place-perm x (m ∷ l) = elim (Bool-cases (ltb_ℤ m.minor x.minor)) [
  | inl e ↦ rw e (Perm.trans (Perm.cons m (place-perm x l)) (Perm.swap x m l))
  | inr e ↦ rw e (Perm.refl (x ∷ m ∷ l))
]

by_minor-perm : (l : List DeviceInfo) → Perm (by_minor l) l
by_minor-perm [] = Perm.refl []
by_minor-perm (x ∷ l) = Perm.trans (place-perm x (by_minor l)) (Perm.cons x (by_minor-perm l))

above-place :
    (y x : DeviceInfo) (l : List DeviceInfo)
    → y.minor ≤ℤ x.minor
    → AllAbove y l
    → AllAbove y (place x l)
above-place y x [] h k = (h, tt)
above-place y x (m ∷ l) h (k, ks) = elim (Bool-cases (ltb_ℤ m.minor x.minor)) [
  | inl e ↦ rw e (k, above-place y x l h ks)
  | inr e ↦ rw e (h, (k, ks))
]

below_all :
    (x m : DeviceInfo) (l : List DeviceInfo) → x.minor ≤ℤ m.minor → AllAbove m l → AllAbove x l
below_all x m [] h k = tt
below_all x m (y ∷ l) h (k, ks) = (omega arith, below_all x m l h ks)

place-IsAscending :
    (x : DeviceInfo) (l : List DeviceInfo)
    → IsAscending (λ (d : DeviceInfo). d.minor) l
    → IsAscending (λ (d : DeviceInfo). d.minor) (place x l)
place-IsAscending x [] h = (tt, tt)
place-IsAscending x (m ∷ l) (h, hs) = elim (Bool-cases (ltb_ℤ m.minor x.minor)) [
  | inl e ↦ rw e (above-place m x l (ground arith) h, place-IsAscending x l hs)
  | inr e ↦
      (let le : x.minor ≤ℤ m.minor = ground arith in rw e ((le, below_all x m l le h), (h, hs)))
]

by_minor-IsAscending :
    (l : List DeviceInfo) → IsAscending (λ (d : DeviceInfo). d.minor) (by_minor l)
by_minor-IsAscending [] = tt
by_minor-IsAscending (x ∷ l) = place-IsAscending x (by_minor l) (by_minor-IsAscending l)

slice_sort : IsSliceSort by_minor
slice_sort = record { perm = by_minor-perm; ascending = by_minor-IsAscending }

-- The server holds one node.
abbrev held : Node → Str → Option Node
held w name = if str_eq w.name name then some w else none

abbrev patch : Node → Dict Str → Node → Bool × Node
patch n annos w =
    if str_eq w.name n.name then (true, record w { annotations = some annos }) else (false, w)

abbrev api : Client Node
api = record {
  list_pods = λ w. (none, w);
  get_pod = λ p w. (none, w);
  patch_pod = λ p annotations w. (false, w);
  get_node = λ name w. (held w name, w);
  update_node = λ n w. (false, w);
  patch_node = patch;
}

patch_law :
    (n : Node) (key value : Str) (w w' : Node)
    → patch n ((key, value) ∷ []) w ≡ (true, w')
    → Holds held (λ n'. node_annotation key n' ≡ some value) n.name w'
unfolding node_annotation lookup
patch_law n key value w w' h = elim (Bool-cases (str_eq w.name n.name)) [
  | inl e ↦ (w', ground arith, ground (arith, str_eq_refl key))
  | inr e ↦ absurd (ground arith)
]

api-IsPatching : IsPatching api held
api-IsPatching = record {
  get_name = λ name w w' n h. ground (arith, str_eq_iff w.name name);
  get_holds = λ name w w' n h. ground arith;
  get_keeps = λ name w w' n h. ground arith;
  patch_holds = λ n key value w w' h. patch_law n key value w w' h;
}

abbrev device : Str → Device
device id = record {
  id = id;
  index = codes "0";
  paths = [];
  healthy = true;
  numa = none;
  total_memory = 0;
  compute_capability = [];
  replicas = 0;
}

abbrev gpu : Str → Option Gpu
gpu id = some (record {
  memory = 1073741824;
  model = codes "T4";
  minor = if str_eq id (codes "g1") then some 1 else some 0;
})

abbrev config : Registering
config = record {
  node_name = codes "n1";
  mode = codes "hami-core";
  gpu_memory_factor = 1;
  device_split_count = 2;
}

abbrev info : Str → ℕ → DeviceInfo
info id minor = record {
  id = id;
  count = pos 2;
  devmem = pos 1024;
  type = codes "NVIDIA-T4";
  health = true;
  mode = codes "hami-core";
  minor = pos minor;
}

abbrev infos : List DeviceInfo
infos = info (codes "g2") 0 ∷ info (codes "g1") 1 ∷ []

abbrev before : Node
before = record { name = codes "n1"; annotations = none }

abbrev after : Node
after = record {
  name = codes "n1";
  annotations = some ((node_nvidia_device_registered, encode_node_devices infos) ∷ []);
}

converted :
    convert_device_info by_minor config gpu (device (codes "g1") ∷ device (codes "g2") ∷ [])
    ≡ some infos
unfolding convert_device_info device_infos device_info registered_mem to_int32 quot_ℤ eq_ℤ str_eq
converted = refl

registered :
    register_in_annotation by_minor config gpu api
      (device (codes "g1") ∷ device (codes "g2") ∷ [])
      before
    ≡ some (true, after)
unfolding register_in_annotation report_devices convert_device_info device_infos device_info
    registered_mem to_int32 quot_ℤ eq_ℤ str_eq node_annotation lookup
registered = refl

info-set : IsSet DeviceInfo
info-set = hlevel

minor_eq : {x y : DeviceInfo} → x ≡ y → x.minor ≡ y.minor
minor_eq h = ap (λ (d : DeviceInfo). d.minor) h

apart : pos 1 ≢ pos 0
apart h = ground arith

infos-IsKeyed : IsKeyed (λ (d : DeviceInfo). d.minor) infos
infos-IsKeyed x y m n e =
    Or.elim (info-set x y) (mem-cons.0 m)
      (λ a.
        Or.elim (info-set x y) (mem-cons.0 n) (λ b. a ∙ sym b)
          (λ n'.
            Or.elim (info-set x y) (mem-cons.0 n')
              (λ b. absurd (apart (sym (minor_eq b) ∙ sym e ∙ minor_eq a)))
              (λ n''. absurd (not-mem-nil n''))))
      (λ m'.
        Or.elim (info-set x y) (mem-cons.0 m')
          (λ a.
            Or.elim (info-set x y) (mem-cons.0 n)
              (λ b. absurd (apart (sym (minor_eq a) ∙ e ∙ minor_eq b)))
              (λ n'.
                Or.elim (info-set x y) (mem-cons.0 n') (λ b. a ∙ sym b)
                  (λ n''. absurd (not-mem-nil n''))))
          (λ m''. absurd (not-mem-nil m'')))

register_in_annotation-again_example :
    Holds held (IsRegistered (encode_node_devices infos)) (codes "n1") after
    × (register_in_annotation by_minor config gpu api
          (device (codes "g2") ∷ device (codes "g1") ∷ [])
          after
        ≡ some (true, after))
unfolding str_eq
register_in_annotation-again_example =
    register_in_annotation-again api held api-IsPatching by_minor slice_sort config gpu
      (device (codes "g1") ∷ device (codes "g2") ∷ [])
      (device (codes "g2") ∷ device (codes "g1") ∷ []) infos before after after after
      (Perm.swap _ _ []) converted infos-IsKeyed registered refl

converted_swapped :
    convert_device_info by_minor config gpu (device (codes "g2") ∷ device (codes "g1") ∷ [])
    ≡ some infos
unfolding convert_device_info device_infos device_info registered_mem to_int32 quot_ℤ eq_ℤ str_eq
converted_swapped = refl

convert_device_info-order_example : infos ≡ infos
convert_device_info-order_example =
    convert_device_info-order by_minor slice_sort config gpu
      (device (codes "g1") ∷ device (codes "g2") ∷ [])
      (device (codes "g2") ∷ device (codes "g1") ∷ []) infos infos (Perm.swap _ _ []) converted
      converted_swapped infos-IsKeyed
