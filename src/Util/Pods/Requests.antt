-- ===== src/Util/Pods/Requests.antt =====
-- The device requests of a pod as a queue, for GetNextDeviceRequest and
-- EraseNextDeviceTypeFromAnnotation.
use volcano_vgpu_device_plug.Prelude.{
  ℕ, suc, ◌≡◌, ◌≢◌, refl, false, not, Option, none, some, List, [], ◌∷◌, arith, if◌then◌else◌, All,
  Bool-cases, inl, inr, filter, any, All-filter, ◌∙◌,
}
use volcano_vgpu_device_plug.GoText.{Str, join, str_eq_iff}
use volcano_vgpu_device_plug.Util.Types.{ContainerDevices, PodDevices}
use volcano_vgpu_device_plug.Util.Codec.{encode_pod_devices, decode_pod_devices}
use volcano_vgpu_device_plug.Util.Codec.RoundTrip.{WellFormed, decode-encode, total}
use volcano_vgpu_device_plug.Util.Pods.{has_type, next_request, erase_next}

-- The requests for devices of a type: the containers that have such devices, by their position from
-- `idx` on, in order, each with its devices of the type.
abbrev pub queue : Str → ℕ → PodDevices → List (ℕ × ContainerDevices)
queue dtype idx [] = []
queue dtype idx (val ∷ pd) =
    if any (has_type dtype) val
    then (idx, filter (has_type dtype) val) ∷ queue dtype (suc idx) pd
    else queue dtype (suc idx) pd

abbrev pub head : List (ℕ × ContainerDevices) → Option (ℕ × ContainerDevices)
head [] = none
head (x ∷ xs) = some x

abbrev pub tail : List (ℕ × ContainerDevices) → List (ℕ × ContainerDevices)
tail [] = []
tail (x ∷ xs) = xs

-- The loop of GetNextDeviceRequest finds the first request in the queue, and none exactly if the
-- queue is empty.
pub next_request-eq-head :
    (dtype : Str) (idx : ℕ) (pd : PodDevices)
    → next_request dtype idx pd ≡ head (queue dtype idx pd)
unfolding next_request
next_request-eq-head dtype idx [] = refl
next_request-eq-head dtype idx (val ∷ pd) = ground (arith, next_request-eq-head dtype (suc idx) pd)

any-filter-not :
    (dtype : Str) (val : ContainerDevices)
    → any (has_type dtype) (filter (λ dev. not (has_type dtype dev)) val) ≡ false
any-filter-not dtype [] = refl
any-filter-not dtype (d ∷ val) = ground (arith, any-filter-not dtype val)

-- Erasing drops the first request of the queue and keeps the others at their positions.
pub queue-erase_next :
    (dtype : Str) (idx : ℕ) (pd : PodDevices)
    → queue dtype idx (erase_next dtype pd) ≡ tail (queue dtype idx pd)
unfolding erase_next
queue-erase_next dtype idx [] = refl
queue-erase_next dtype idx (val ∷ pd) =
    ground (arith, any-filter-not dtype val, queue-erase_next dtype (suc idx) pd)

module _ (dtype other : Str) (ne : dtype ≢ other) where
  filter-filter-not :
      (val : ContainerDevices)
      → filter (has_type other) (filter (λ dev. not (has_type dtype dev)) val)
        ≡ filter (has_type other) val
  filter-filter-not [] = refl
  filter-filter-not (d ∷ val) =
      ground (arith, filter-filter-not val, str_eq_iff dtype d.type, str_eq_iff other d.type)

  any-filter_other :
      (val : ContainerDevices)
      → any (has_type other) (filter (λ dev. not (has_type dtype dev)) val)
        ≡ any (has_type other) val
  any-filter_other [] = refl
  any-filter_other (d ∷ val) =
      ground (arith, any-filter_other val, str_eq_iff dtype d.type, str_eq_iff other d.type)

  -- The requests for devices of another type stay as they are.
  pub queue-erase_next_ne :
      (idx : ℕ) (pd : PodDevices) → queue other idx (erase_next dtype pd) ≡ queue other idx pd
  unfolding erase_next
  queue-erase_next_ne idx [] = refl
  queue-erase_next_ne idx (val ∷ pd) =
      ground (arith, filter-filter-not val, any-filter_other val, queue-erase_next_ne (suc idx) pd)

erase_next-WellFormed :
    (dtype : Str) (pd : PodDevices)
    → All (All WellFormed) pd
    → All (All WellFormed) (erase_next dtype pd)
unfolding erase_next
erase_next-WellFormed dtype [] h = tt
erase_next-WellFormed dtype (val ∷ pd) (w, h) = elim (Bool-cases (any (has_type dtype) val)) [
  | inl e ↦ rw e (All-filter WellFormed (λ dev. not (has_type dtype dev)) val w, h)
  | inr e ↦ rw e (w, erase_next-WellFormed dtype pd h)
]

-- The list that a reader of the rewritten annotation gets.
abbrev reread : PodDevices → PodDevices
reread ([] ∷ []) = []
reread pd = pd

decode-encode_reread :
    (pd : PodDevices)
    → All (All WellFormed) pd
    → decode_pod_devices (encode_pod_devices pd) ≡ some (reread pd, total pd)
decode-encode_reread ([] ∷ []) h = unfold decode_pod_devices encode_pod_devices join in refl
decode-encode_reread [] h = decode-encode [] h (λ e. cc)
decode-encode_reread ((d ∷ cd) ∷ pd) h = decode-encode ((d ∷ cd) ∷ pd) h (λ e. cc)
decode-encode_reread ([] ∷ cd ∷ pd) h = decode-encode ([] ∷ cd ∷ pd) h (λ e. cc)

queue-reread : (dtype : Str) (pd : PodDevices) → queue dtype 0 (reread pd) ≡ queue dtype 0 pd
queue-reread dtype ([] ∷ []) = refl
queue-reread dtype [] = refl
queue-reread dtype ((d ∷ cd) ∷ pd) = refl
queue-reread dtype ([] ∷ cd ∷ pd) = refl

-- A reader of the annotation that EraseNextDeviceTypeFromAnnotation writes over a well-formed list
-- finds the requests of the type without the first one, and those of every other type unchanged.
pub decode-erase_next :
    (dtype other : Str) (pd : PodDevices)
    → dtype ≢ other
    → All (All WellFormed) pd
    → (pd' : PodDevices) × (decode_pod_devices (encode_pod_devices (erase_next dtype pd))
        ≡ some (pd', total (erase_next dtype pd)))
      × (queue dtype 0 pd' ≡ tail (queue dtype 0 pd))
      × (queue other 0 pd' ≡ queue other 0 pd)
decode-erase_next dtype other pd ne h =
    let erased = erase_next dtype pd in
    (
      reread erased,
      decode-encode_reread erased (erase_next-WellFormed dtype pd h),
      queue-reread dtype erased ∙ queue-erase_next dtype 0 pd,
      queue-reread other erased ∙ queue-erase_next_ne dtype other ne 0 pd,
    )
