-- ===== src/Tests/Choice.antt =====
-- pkg/rm/allocate.go: a choice among replicas, with a sort that puts the least entry first.
use mathlib.Core.List.Perm
use mathlib.Core.List.{Perm}
use volcano_vgpu_device_plug.Prelude.{
  suc, ◌+◌, ◌-◌, ◌≤◌, ◌≡◌, refl, ap, true, none, some, List, [], ◌∷◌, ◌++◌, length, arith,
  if◌then◌else◌, Member, inl, inr, Bool-cases, map,
}
use volcano_vgpu_device_plug.Prelude.Int.{ℤ, ltb_ℤ, ◌≤ℤ◌}
use volcano_vgpu_device_plug.GoText.{Str, codes, str_eq}
use volcano_vgpu_device_plug.Rm.Devices.{
  Device, Devices, difference, subset, subset_loop, add_found, has, device_ids,
}
use volcano_vgpu_device_plug.Kube.Dict.{lookup, insert}
use volcano_vgpu_device_plug.Rm.Allocate.{distributed_alloc}
use volcano_vgpu_device_plug.Rm.Allocate.Distributed.{
  IsSort, IsGreedy, replicas_of, candidates_of, distributed_alloc-IsGreedy,
}

abbrev place : (Str → ℤ) → Str → List Str → List Str
place key x [] = x ∷ []
place key x (m ∷ rest) = if ltb_ℤ (key m) (key x) then m ∷ x ∷ rest else x ∷ m ∷ rest

abbrev least_first : (Str → ℤ) → List Str → List Str
least_first key [] = []
least_first key (x ∷ l) = place key x (least_first key l)

place-perm : (key : Str → ℤ) (x : Str) (l : List Str) → Perm (place key x l) (x ∷ l)
place-perm key x [] = Perm.refl (x ∷ [])
place-perm key x (m ∷ rest) = elim (Bool-cases (ltb_ℤ (key m) (key x))) [
  | inl e ↦ rw e (Perm.swap x m rest)
  | inr e ↦ rw e (Perm.refl (x ∷ m ∷ rest))
]

least_first-perm : (key : Str → ℤ) (l : List Str) → Perm (least_first key l) l
least_first-perm key [] = Perm.refl []
least_first-perm key (x ∷ l) =
    Perm.trans (place-perm key x (least_first key l)) (Perm.cons x (least_first-perm key l))

length-place : (key : Str → ℤ) (x : Str) (l : List Str) → length (place key x l) ≡ suc (length l)
length-place key x [] = refl
length-place key x (m ∷ rest) = ground arith

length-least_first : (key : Str → ℤ) (l : List Str) → length (least_first key l) ≡ length l
length-least_first key [] = refl
length-least_first key (x ∷ l) =
    ground (arith, length-place key x (least_first key l), length-least_first key l)

head_eq : {x y : Str} {l m : List Str} → x ∷ l ≡ y ∷ m → x ≡ y
head_eq e = cc

place-least :
    (key : Str → ℤ) (x c y : Str) (l given rest : List Str)
    → length l ≡ length given
    → ((c' : Str) (rest' : List Str) → l ≡ c' ∷ rest' → Member y given → key c' ≤ℤ key y)
    → place key x l ≡ c ∷ rest
    → Member y (x ∷ given)
    → key c ≤ℤ key y
place-least key x c y [] given rest n h e (inl q) = ground (arith, ap key q, ap key (head_eq e))
place-least key x c y [] [] rest n h e (inr m) = elim m [ ]
place-least key x c y [] (g ∷ given) rest n h e (inr m) = absurd (omega arith)
place-least key x c y (m' ∷ l) given rest n h e m = elim (Bool-cases (ltb_ℤ (key m') (key x))) [
  | inl s ↦ elim m [
    | inl q ↦ ground (arith, ap key q, ap key (head_eq (rw s at e)))
    | inr k ↦ ground (arith, h m' l refl k, ap key (head_eq (rw s at e)))
  ]
  | inr s ↦ elim m [
    | inl q ↦ ground (arith, ap key q, ap key (head_eq (rw s at e)))
    | inr k ↦ ground (arith, h m' l refl k, ap key (head_eq (rw s at e)))
  ]
]

least_first-least :
    (key : Str → ℤ) (l rest : List Str) (x y : Str)
    → least_first key l ≡ x ∷ rest
    → Member y l
    → key x ≤ℤ key y
least_first-least key [] rest x y e m = elim m [ ]
least_first-least key (z ∷ l) rest x y e m =
    place-least key z x y (least_first key l) l rest (length-least_first key l)
      (λ c' rest' e' n. least_first-least key l rest' c' y e' n) e m

least_first-IsSort : IsSort least_first
least_first-IsSort = record {
  perm = least_first-perm;
  same_length = length-least_first;
  least = least_first-least;
}

abbrev replica_of : Str → Device
replica_of id = record {
  id = id;
  index = codes "0";
  paths = [];
  healthy = true;
  numa = none;
  total_memory = 1024;
  compute_capability = codes "8.0";
  replicas = 2;
}

abbrev gpus : Devices
gpus =
    (codes "A::0", replica_of (codes "A::0"))
    ∷ (codes "A::1", replica_of (codes "A::1"))
    ∷ (codes "B::0", replica_of (codes "B::0"))
    ∷ []

abbrev all_ids : List Str
all_ids = codes "A::0" ∷ codes "A::1" ∷ codes "B::0" ∷ []

-- The ids in the order in which the map lists them.
abbrev order : List Str → List Str
order ids = ids

abbrev candidates : List Str
candidates = candidates_of least_first least_first-IsSort order gpus all_ids [] 2

enough : 2 ≤ length candidates + 0
unfolding difference subset subset_loop add_found has device_ids lookup insert str_eq
enough = ground arith

distributed_alloc-IsGreedy_example :
    (chosen : List Str) × (distributed_alloc least_first order gpus all_ids [] 2
      ≡ some (some ([] ++ chosen)))
    × (length chosen ≡ 2 - 0)
    × IsGreedy (λ id. replicas_of id (map (λ (e : Str × Device). e.0) gpus)) chosen candidates
    × ((rest : List Str) × Perm (chosen ++ rest) candidates)
distributed_alloc-IsGreedy_example =
    distributed_alloc-IsGreedy least_first least_first-IsSort order gpus all_ids [] 2 enough
