-- ===== src/Rm/Devices.antt =====
-- pkg/rm/devices.go: devices and maps of devices by id. A loop over a Go map visits the entries in
-- the order of the association list, which stands for whatever order the runtime chose.
pub mod Sets
pub mod Unique
use volcano_vgpu_device_plug.Prelude.{
  ℕ, Bool, true, false, not, ◌&&◌, Option, none, some, List, [], ◌∷◌, ◌++◌, map, if◌then◌else◌, any,
  is_none,
}
use volcano_vgpu_device_plug.GoText.{Str, codes, str_eq, contains}
use volcano_vgpu_device_plug.Kube.Dict.{Dict, lookup, insert}
use volcano_vgpu_device_plug.Rm.AnnotatedId.{get_id}

-- The topology is the NUMA node, if there is one.
pub record Device : Type 0 where
  pub id : Str
  pub index : Str
  pub paths : List Str
  pub healthy : Bool
  pub numa : Option ℕ
  pub total_memory : ℕ
  pub compute_capability : Str
  pub replicas : ℕ

abbrev pub Devices : Type 0
Devices = Dict Device

-- What the driver answers about a device; `none` is an error. GetNumaNode returns whether there is
-- a node beside the node.
pub record DeviceInfo : Type 0 where
  pub uuid : Option Str
  pub paths : Option (List Str)
  pub numa_node : Option (Option ℕ)
  pub total_memory : Option ℕ
  pub compute_capability : Option Str

abbrev memory_or_zero : Option ℕ → ℕ
memory_or_zero none = 0
memory_or_zero (some n) = n

-- BuildDevice: only an error about the memory is passed over.
unfoldable pub build_device : Str → DeviceInfo → Option Device
build_device index d = elim (d.uuid) [
  | none ↦ none
  | some uuid ↦ elim (d.paths) [
    | none ↦ none
    | some paths ↦ elim (d.numa_node) [
      | none ↦ none
      | some numa ↦ elim (d.compute_capability) [
        | none ↦ none
        | some capability ↦ some (record {
          id = uuid;
          index = index;
          paths = paths;
          healthy = true;
          numa = numa;
          total_memory = memory_or_zero d.total_memory;
          compute_capability = capability;
          replicas = 0;
        })
      ]
    ]
  ]
]

-- Contains at one id
unfoldable pub has : Devices → Str → Bool
has ds id = not (is_none (lookup id ds))

-- Contains
unfoldable pub has_all : Devices → List Str → Bool
unfolding has
has_all ds [] = true
has_all ds (id ∷ ids) = has ds id && has_all ds ids

-- GetByID
unfoldable pub get_by_id : Devices → Str → Option Device
get_by_id ds id = lookup id ds

-- GetByIndex
unfoldable pub get_by_index : Devices → Str → Option Device
get_by_index [] index = none
get_by_index ((_, d) ∷ ds) index = if str_eq d.index index then some d else get_by_index ds index

-- One round of Subset.
unfoldable pub add_found : Str → Option Device → Devices → Devices
add_found id none res = res
add_found id (some d) res = insert id d res

-- The loop of Subset, with the map built so far.
unfoldable pub subset_loop : Devices → List Str → Devices → Devices
unfolding add_found
subset_loop ds [] res = res
subset_loop ds (id ∷ ids) res = subset_loop ds ids (add_found id (lookup id ds) res)

unfoldable pub subset : Devices → List Str → Devices
unfolding subset_loop
subset ds ids = subset_loop ds ids []

-- Difference: an id occurs once among the keys of a map, so the entries are kept as they are.
unfoldable pub difference : Devices → Devices → Devices
unfolding has
difference [] ods = []
difference ((id, d) ∷ ds) ods =
    let rest = difference ds ods in if not (has ods id) then (id, d) ∷ rest else rest

unfoldable pub device_ids : Devices → List Str
device_ids ds = map (λ (e : Str × Device). e.1.id) ds

unfoldable pub indices : Devices → List Str
indices ds = map (λ (e : Str × Device). e.1.index) ds

unfoldable pub plugin_devices : Devices → List Device
plugin_devices ds = map (λ (e : Str × Device). e.1) ds

unfoldable pub paths_of : Devices → List Str
paths_of [] = []
paths_of ((_, d) ∷ ds) = d.paths ++ paths_of ds

-- The loop `if seen[id] { continue }` of GetUUIDs and of the plugin's uniqueDeviceIDs.
unfoldable pub unique_loop : List Str → List Str → List Str
unique_loop seen [] = []
unique_loop seen (id ∷ ids) =
    let fresh = id ∷ unique_loop (id ∷ seen) ids in
    let rest = unique_loop seen ids in if any (str_eq id) seen then rest else fresh

unfoldable pub uuids : Devices → List Str
unfolding unique_loop
uuids ds = unique_loop [] (map (λ (e : Str × Device). get_id e.1.id) ds)

-- a MIG device's index is `gpu:mig`
unfoldable pub is_mig_device : Device → Bool
is_mig_device d = contains d.index (58 ∷ [])

unfoldable pub device_aligned : Device → Bool
unfolding is_mig_device
device_aligned d = not (is_mig_device d) && not (any (λ p. str_eq p (codes "/dev/dxg")) d.paths)

unfoldable pub aligned_allocation_supported : Devices → Bool
unfolding device_aligned
aligned_allocation_supported ds = not (any (λ (e : Str × Device). not (device_aligned e.1)) ds)
