-- ===== src/Rm/Allocate/Validate.antt =====
-- What a request has to fulfil for ValidateRequest.
use volcano_vgpu_device_plug.Prelude.{
  ◌≤◌, ◌≡◌, ◌↔◌, ◌⊎◌, refl, Bool, true, false, List, [], ◌∷◌, arith, length, All, is_none,
}
use volcano_vgpu_device_plug.GoText.{Str}
use volcano_vgpu_device_plug.Kube.Dict.{lookup}
use volcano_vgpu_device_plug.Rm.AnnotatedId.{any_has_annotations}
use volcano_vgpu_device_plug.Rm.Devices.{Devices, has}
use volcano_vgpu_device_plug.Rm.Allocate.{
  SharingStrategy, sharing_none, time_slicing, mps, valid, size_allowed, all_known,
  validate_request,
}

-- The device map has the id.
abbrev pub IsKnown : Devices → Str → Type 0
IsKnown ds id = is_none (lookup id ds) ≡ false

-- A request for replicas asks for one of them, where the sharing insists on that.
abbrev pub FitsSharing : SharingStrategy → Bool → List Str → Type 0
FitsSharing sharing_none fail_greater ids = Unit
FitsSharing time_slicing fail_greater ids =
    (any_has_annotations ids ≡ false) ⊎ (length ids ≤ 1) ⊎ (fail_greater ≡ false)
FitsSharing mps fail_greater ids = (any_has_annotations ids ≡ false) ⊎ (length ids ≤ 1)

all_known_iff : (ds : Devices) (ids : List Str) → (all_known ds ids ≡ true) ↔ All (IsKnown ds) ids
unfolding all_known has
all_known_iff ds [] = (λ _. tt, λ _. refl)
all_known_iff ds (id ∷ ids) = ground (arith, all_known_iff ds ids)

size_allowed_iff :
    (s : SharingStrategy) (fail_greater : Bool) (ids : List Str)
    → (size_allowed s fail_greater (any_has_annotations ids) (length ids) ≡ true)
      ↔ FitsSharing s fail_greater ids
unfolding size_allowed
size_allowed_iff sharing_none fail_greater ids = (λ _. tt, λ _. refl)
size_allowed_iff time_slicing fail_greater ids = ground arith
size_allowed_iff mps fail_greater ids = ground arith

-- A request is valid exactly if the map has every id and its size fits the sharing: with time slicing
-- a request for replicas may ask for more than one unless failRequestsGreaterThanOne is set, with MPS
-- it may not.
pub validate_request_iff :
    (ds : Devices) (s : SharingStrategy) (fail_greater : Bool) (ids : List Str)
    → (validate_request ds s fail_greater ids ≡ valid)
      ↔ (All (IsKnown ds) ids × FitsSharing s fail_greater ids)
unfolding validate_request
validate_request_iff ds s fail_greater ids =
    ground (arith, all_known_iff ds ids, size_allowed_iff s fail_greater ids)
