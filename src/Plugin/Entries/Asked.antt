-- ===== src/Plugin/Entries/Asked.antt =====
-- The devices that the ids of a request ask for.
use volcano_vgpu_device_plug.Prelude.{
  ◌≡◌, refl, Bool, true, false, ◌||◌, Option, none, some, List, [], ◌∷◌, arith, any, All,
}
use volcano_vgpu_device_plug.GoText.{Str, str_eq, str_eq_iff}
use volcano_vgpu_device_plug.Kube.Dict.{lookup, insert}
use volcano_vgpu_device_plug.Rm.AnnotatedId.{get_id, get_ids}
use volcano_vgpu_device_plug.Rm.Devices.{Device, Devices, subset, subset_loop, add_found, indices}
use volcano_vgpu_device_plug.Rm.Devices.Unique.{
  listed, distinct, listed-unique_loop, distinct-unique_loop,
}
use volcano_vgpu_device_plug.Plugin.Entries.{
  DeviceIdStrategy, uuid, index, other_strategy, ids_by, unique_device_ids,
}

-- A device of that index is there.
abbrev pub has_index : Str → Option Device → Bool
has_index id none = false
has_index id (some d) = str_eq id d.index

-- An id of the request belongs to the GPU of that UUID, or to a device of the map with that index.
abbrev pub asked : DeviceIdStrategy → Devices → List Str → Str → Bool
asked uuid devices ids id = any (λ x. str_eq id (get_id x)) ids
asked index devices ids id = any (λ x. has_index id (lookup x devices)) ids
asked other_strategy devices ids id = false

listed-get_ids :
    (ids : List Str) (id : Str) → listed id (get_ids ids) ≡ any (λ x. str_eq id (get_id x)) ids
unfolding get_ids
listed-get_ids [] id = refl
listed-get_ids (x ∷ ids) id = ground (arith, listed-get_ids ids id)

-- The entries are those of the map.
abbrev AreOf : Devices → Devices → Type 0
AreOf devices res = All (λ (e : Str × Device). lookup e.0 devices ≡ some e.1) res

AreOf-insert :
    (devices : Devices) (k : Str) (d : Device) (res : Devices)
    → lookup k devices ≡ some d
    → AreOf devices res
    → AreOf devices (insert k d res)
unfolding insert
AreOf-insert devices k d [] h a = (h, tt)
AreOf-insert devices k d ((j, e) ∷ res) h (p, a) = ground (arith, AreOf-insert devices k d res h a)

listed-insert :
    (devices : Devices) (k : Str) (d : Device) (res : Devices) (id : Str)
    → lookup k devices ≡ some d
    → AreOf devices res
    → listed id (indices (insert k d res)) ≡ (str_eq id d.index || listed id (indices res))
unfolding insert indices
listed-insert devices k d [] id h a = ground arith
listed-insert devices k d ((j, e) ∷ res) id h (p, a) =
    ground (arith, str_eq_iff j k, listed-insert devices k d res id h a)

-- One round of Subset, from what the later rounds do.
listed-add_found :
    (devices : Devices) (x : Str) (ids : List Str) (res : Devices) (id : Str) (o : Option Device)
    → ((res' : Devices)
        → AreOf devices res'
        → listed id (indices (subset_loop devices ids res'))
          ≡ (asked index devices ids id || listed id (indices res')))
    → lookup x devices ≡ o
    → AreOf devices res
    → listed id (indices (subset_loop devices ids (add_found x o res)))
      ≡ ((has_index id o || asked index devices ids id) || listed id (indices res))
unfolding add_found
listed-add_found devices x ids res id none ih e a = ih res a
listed-add_found devices x ids res id (some d) ih e a = ground (
  arith,
  ih (insert x d res) (AreOf-insert devices x d res e a),
  listed-insert devices x d res id e a,
)

listed-subset_loop :
    (devices : Devices) (ids : List Str) (res : Devices) (id : Str)
    → AreOf devices res
    → listed id (indices (subset_loop devices ids res))
      ≡ (asked index devices ids id || listed id (indices res))
unfolding subset_loop
listed-subset_loop devices [] res id a = refl
listed-subset_loop devices (x ∷ ids) res id a = ground (
  arith,
  listed-add_found devices x ids res id (lookup x devices)
      (λ res'. listed-subset_loop devices ids res' id) refl a,
)

listed-ids_by :
    (strategy : DeviceIdStrategy) (devices : Devices) (ids : List Str) (id : Str)
    → listed id (ids_by strategy devices ids) ≡ asked strategy devices ids id
unfolding ids_by subset indices
listed-ids_by uuid devices ids id = listed-get_ids ids id
listed-ids_by index devices ids id = ground (arith, listed-subset_loop devices ids [] id tt)
listed-ids_by other_strategy devices ids id = refl

-- uniqueDeviceIDsFromAnnotatedDeviceIDs returns each id once, and by UUID exactly the ids of which
-- the request has a replica, by index exactly the indices of the devices of the map that the request
-- has, and by another strategy none.
pub unique_device_ids-asked :
    (strategy : DeviceIdStrategy) (devices : Devices) (ids : List Str) (id : Str)
    → (distinct (unique_device_ids strategy devices ids) ≡ true)
      × (listed id (unique_device_ids strategy devices ids) ≡ asked strategy devices ids id)
unfolding unique_device_ids
unique_device_ids-asked strategy devices ids id = (
  distinct-unique_loop [] (ids_by strategy devices ids),
  ground (
    arith,
    listed-unique_loop [] (ids_by strategy devices ids) id,
    listed-ids_by strategy devices ids id,
  ),
)
