-- ===== src/Rm/Allocate.antt =====
-- pkg/rm/allocate.go, getPreferredAllocation of nvml_manager.go and ValidateRequest of rm.go.
-- sort.Slice is not stable and the order of a map's keys is not fixed, so both are parameters.
pub mod Distributed
pub mod Validate
use volcano_vgpu_device_plug.Prelude.{
  ℕ, zero, suc, ◌+◌, ◌-◌, Bool, true, false, not, ◌&&◌, Option, none, some, List, [], ◌∷◌, ◌++◌,
  ltb, if◌then◌else◌, ◌>>=◌, length,
}
use volcano_vgpu_device_plug.Prelude.Int.{ℤ, sub_ℕ}
use volcano_vgpu_device_plug.GoText.{Str, str_eq}
use volcano_vgpu_device_plug.Rm.AnnotatedId.{get_id, any_has_annotations}
use volcano_vgpu_device_plug.Rm.Devices.{
  Devices, subset, difference, device_ids, has, aligned_allocation_supported,
}

-- How many of the ids belong to a device.
abbrev pub count_of : Str → List Str → ℕ
count_of id [] = 0
count_of id (x ∷ xs) = if str_eq (get_id x) id then suc (count_of id xs) else count_of id xs

abbrev pub keys : Devices → List Str
keys [] = []
keys ((k, _) ∷ ds) = k ∷ keys ds

-- The available count of every device, and replicas[id].available--.
abbrev pub decrement : Str → (Str → ℕ) → Str → ℕ
decrement id available x = if str_eq id x then available x - 1 else available x

-- The difference by which candidates are compared, total - available.
abbrev pub difference_of : (Str → ℕ) → (Str → ℕ) → Str → ℤ
difference_of totals available c = sub_ℕ (totals (get_id c)) (available (get_id c))

module _ (sort : (Str → ℤ) → List Str → List Str) where
  -- The loop that takes one candidate after the other; candidates[0] of no candidates is a panic.
  unfoldable pub alloc_loop : (Str → ℕ) → ℕ → (Str → ℕ) → List Str → Option (List Str)
  alloc_loop totals zero available candidates = some []
  alloc_loop totals (suc needed) available candidates =
      elim (sort (difference_of totals available) candidates) [
        | [] ↦ none
        | c ∷ rest ↦ do
          devices ← alloc_loop totals needed (decrement (get_id c) available) rest
          some (c ∷ devices)
      ]

  -- distributedAlloc: the inner `none` is the error. A size below the number of required devices
  -- leaves nothing to add, as the loop over a negative count does.
  unfoldable pub distributed_alloc :
      (order : List Str → List Str) → Devices → List Str → List Str → ℕ → Option (Option (List Str))
  unfolding alloc_loop
  distributed_alloc order devices available required size =
      let candidates =
        order (device_ids (difference (subset devices available) (subset devices required))) in
      let needed = size - length required in
      if ltb (length candidates) needed then some none else (do
        chosen ←
            alloc_loop (λ id. count_of id (keys devices)) needed (λ id. count_of id candidates)
              candidates
        some (some (required ++ chosen)))

  -- getPreferredAllocation; `aligned` is alignedAlloc, which calls the gpuallocator library.
  unfoldable pub get_preferred_allocation :
      (order : List Str → List Str)
      → (aligned : List Str → List Str → ℕ → Option (Option (List Str))) → Devices
      → List Str
      → List Str
      → ℕ
      → Option (Option (List Str))
  unfolding distributed_alloc
  get_preferred_allocation order aligned devices available required size =
      if aligned_allocation_supported devices && not (any_has_annotations available)
      then aligned available required size
      else distributed_alloc order devices available required size

pub data SharingStrategy : Type 0 where
  sharing_none time_slicing mps : SharingStrategy

pub data Validation : Type 0 where
  valid unknown_device too_large : Validation

unfoldable pub size_allowed : SharingStrategy → Bool → Bool → ℕ → Bool
size_allowed sharing_none fail_greater includes_replicas n = true
size_allowed time_slicing fail_greater includes_replicas n =
    not (includes_replicas && ltb 1 n && fail_greater)
size_allowed mps fail_greater includes_replicas n = not (includes_replicas && ltb 1 n)

-- The loop over the ids.
unfoldable pub all_known : Devices → List Str → Bool
unfolding has
all_known ds [] = true
all_known ds (id ∷ ids) = has ds id && all_known ds ids

unfoldable pub validate_request : Devices → SharingStrategy → Bool → List Str → Validation
unfolding all_known size_allowed
validate_request ds strategy fail_greater ids =
    if all_known ds ids
    then (if size_allowed strategy fail_greater (any_has_annotations ids) (length ids)
        then valid
        else too_large)
    else unknown_device
