-- ===== src/Rm/DeviceMap/Others.antt =====
-- updateDeviceMapWithReplicas at a resource that its configuration does not name.
use volcano_vgpu_device_plug.Prelude.{
  ℕ, zero, suc, ◌≡◌, ◌≢◌, refl, ap, ◌∙◌, Bool, false, List, [], ◌∷◌, arith, All, Option-cases,
  Bool-cases, inl, inr,
}
use volcano_vgpu_device_plug.GoText.{Str, str_eq, str_eq_iff}
use volcano_vgpu_device_plug.Kube.Dict.{lookup, insert, lookup-insert}
use volcano_vgpu_device_plug.Spec.Replicas.{ReplicatedResource, ReplicatedResources}
use volcano_vgpu_device_plug.Rm.Devices.{Device, Devices, difference, subset}
use volcano_vgpu_device_plug.Rm.DeviceMap.{
  DeviceMap, Result, ok, failed, panicked, and_then, devices_of, insert_device, insert_all,
  ids_of_devices_to_replicate, replica, new_name, add_replicas, add_all_replicas, replicate_ids,
  is_named, copy_unnamed, replicate_loop, update_device_map_with_replicas,
}

lookup-insert_device :
    (name other : Str) (dev : Device) (d : DeviceMap)
    → name ≢ other
    → lookup other (insert_device name dev d) ≡ lookup other d
unfolding insert_device
lookup-insert_device name other dev d h = ground (
  arith,
  str_eq_iff name other,
  lookup-insert name other (insert dev.id dev (devices_of name d)) d,
)

lookup-insert_all :
    (name other : Str) (devices : Devices) (d : DeviceMap)
    → name ≢ other
    → lookup other (insert_all name devices d) ≡ lookup other d
unfolding insert_all
lookup-insert_all name other [] d h = refl
lookup-insert_all name other ((_, device) ∷ devices) d h =
    lookup-insert_all name other devices (insert_device name device d) h
    ∙ lookup-insert_device name other device d h

lookup-add_replicas :
    (other id : Str) (i n : ℕ) (r : ReplicatedResource) (original : Device) (d : DeviceMap)
    → new_name r ≢ other
    → lookup other (add_replicas id i n r original d) ≡ lookup other d
unfolding add_replicas
lookup-add_replicas other id i zero r original d h = refl
lookup-add_replicas other id i (suc n) r original d h =
    lookup-add_replicas other id (suc i) n r original
      (insert_device (new_name r) (replica id i r.replicas original) d) h
    ∙ lookup-insert_device (new_name r) other (replica id i r.replicas original) d h

lookup-add_all_replicas :
    (other : Str) (originals : Devices) (ids : List Str) (r : ReplicatedResource) (d d' : DeviceMap)
    → new_name r ≢ other
    → add_all_replicas originals ids r d ≡ ok d'
    → lookup other d' ≡ lookup other d
unfolding add_all_replicas
lookup-add_all_replicas other originals [] r d d' h e = ground arith
lookup-add_all_replicas other originals (id ∷ ids) r d d' h e =
    elim (Option-cases (lookup id originals)) [
      | inl missing ↦ ground (
        arith,
        λ (g : add_all_replicas originals ids r d ≡ ok d').
            lookup-add_all_replicas other originals ids r d d' h g,
      )
      | inr (original, here) ↦
          lookup-add_all_replicas other originals ids r (add_replicas id 0 r.replicas r original d)
            d' h (ground arith)
          ∙ lookup-add_replicas other id 0 r.replicas r original d h
    ]

lookup-replicate_ids :
    (other : Str) (o_devices : DeviceMap) (r : ReplicatedResource) (ids : List Str)
    (d d' : DeviceMap)
    → r.name ≢ other
    → new_name r ≢ other
    → replicate_ids o_devices r ids d ≡ ok d'
    → lookup other d' ≡ lookup other d
unfolding replicate_ids
lookup-replicate_ids other o_devices r [] d d' h h' e = ground arith
lookup-replicate_ids other o_devices r (id ∷ ids) d d' h h' e =
    let originals = devices_of r.name o_devices in
    let kept = difference originals (subset originals (id ∷ ids)) in
    lookup-add_all_replicas other originals (id ∷ ids) r (insert_all r.name kept d) d' h' e
    ∙ lookup-insert_all r.name other kept d h

-- A resource that is neither replicated nor the new name of one that is.
abbrev pub IsOther : Str → List ReplicatedResource → Type 0
IsOther other resources = All (λ r. (r.name ≢ other) × (new_name r ≢ other)) resources

and_then-ok :
    {A B : Type 0} (a : Result A) (f : A → Result B) (b : B)
    → and_then a f ≡ ok b
    → (x : A) × (a ≡ ok x) × (f x ≡ ok b)
and_then-ok (ok a) f b h = (a, refl, h)
and_then-ok failed f b h = cc
and_then-ok panicked f b h = cc

lookup-replicate_loop :
    (is_uuid_text : Str → Bool) (other : Str) (o_devices : DeviceMap)
    (resources : List ReplicatedResource) (d d' : DeviceMap)
    → IsOther other resources
    → replicate_loop is_uuid_text o_devices resources d ≡ ok d'
    → lookup other d' ≡ lookup other d
unfolding replicate_loop
lookup-replicate_loop is_uuid_text other o_devices [] d d' h e = ground arith
lookup-replicate_loop is_uuid_text other o_devices (r ∷ resources) d d' ((named, renamed), h) e =
    let rest = λ (ids : List Str).
      and_then (replicate_ids o_devices r ids d)
        (replicate_loop is_uuid_text o_devices resources) in
    let (ids, _, f) =
      and_then-ok (ids_of_devices_to_replicate is_uuid_text o_devices r) rest d' e in
    let (d1, g, l) =
      and_then-ok (replicate_ids o_devices r ids d)
        (replicate_loop is_uuid_text o_devices resources) d' f in
    lookup-replicate_loop is_uuid_text other o_devices resources d1 d' h l
    ∙ lookup-replicate_ids other o_devices r ids d d1 named renamed g

is_named-other :
    (other : Str) (resources : List ReplicatedResource)
    → IsOther other resources
    → is_named resources other ≡ false
is_named-other other [] h = refl
is_named-other other (r ∷ resources) ((named, _), h) =
    ground (arith, str_eq_iff r.name other, is_named-other other resources h)

lookup-copy_unnamed :
    (other : Str) (resources : List ReplicatedResource) (o_devices : DeviceMap)
    → is_named resources other ≡ false
    → lookup other (copy_unnamed resources o_devices) ≡ lookup other o_devices
unfolding copy_unnamed lookup
lookup-copy_unnamed other resources [] h = refl
lookup-copy_unnamed other resources ((name, ds) ∷ o_devices) h =
    elim (Bool-cases (str_eq name other)) [
      | inl e ↦ ground (arith, h, e, ap (is_named resources) ((str_eq_iff name other).0 e))
      | inr e ↦ ground (arith, lookup-copy_unnamed other resources o_devices h)
    ]

-- When updateDeviceMapWithReplicas returns no error, a resource that is neither to be replicated nor
-- the new name of one that is has the devices it had.
pub lookup-update_device_map :
    (is_uuid_text : Str → Bool) (other : Str) (replicated_resources : ReplicatedResources)
    (o_devices d' : DeviceMap)
    → IsOther other replicated_resources.resources
    → update_device_map_with_replicas is_uuid_text replicated_resources o_devices ≡ ok d'
    → lookup other d' ≡ lookup other o_devices
unfolding update_device_map_with_replicas
lookup-update_device_map is_uuid_text other replicated_resources o_devices d' h e =
    let resources = replicated_resources.resources in
    lookup-replicate_loop is_uuid_text other o_devices resources (copy_unnamed resources o_devices)
      d' h e
    ∙ lookup-copy_unnamed other resources o_devices (is_named-other other resources h)
