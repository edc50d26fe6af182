-- ===== src/Health/Events/Reports.antt =====
-- What checkHealth reports, in terms of the placements of the devices.
use volcano_vgpu_device_plug.Health.Events.Placed.{
  ArePlacedById, IsPlaced, AreKnown, AreKnown-empty, AreKnown-register_all,
}
use volcano_vgpu_device_plug.Prelude.{
  ◌≡◌, refl, sym, ap, ◌∙◌, Bool, true, false, not, ◌&&◌, ◌||◌, Option, none, some, List, [], ◌∷◌,
  ◌++◌, arith, if◌then◌else◌, ◌==◌, append_assoc, append-nil,
}
use volcano_vgpu_device_plug.GoText.{Str}
use volcano_vgpu_device_plug.Kube.Dict.{lookup}
use volcano_vgpu_device_plug.Rm.Devices.{Device, is_mig_device}
use volcano_vgpu_device_plug.Health.Xids.{DisabledXids, is_all_disabled}
use volcano_vgpu_device_plug.Health.Xids.Precedence.{ignores}
use volcano_vgpu_device_plug.Health.Events.{
  Placement, Registration, is_marked, Watch, register_placed, register_device, register_all, Event,
  Waited, timeout, wait_error, event, is_other_instance, handle_wait, full_device, marked, by_uuid,
  event_loop, empty_watch, Start, check_health,
}
use volcano_vgpu_device_plug.Health.Events.Lookup.{last_on, lookup-register_all}

-- The event is of the instance at the placement.
abbrev pub is_at : Event → Option Placement → Bool
is_at e none = false
is_at e (some p) = p.gi == e.gi && p.ci == e.ci

module _ (placement : Device → Option Placement) (register : Device → Registration) where
  -- An event reaches a whole GPU, and of the MIG devices the one at its instances, or any one if it
  -- names no instances.
  abbrev pub reaches : Event → Device → Bool
  reaches e d =
      not (is_mig_device d)
      || (e.gi == full_device || (e.ci == full_device || is_at e (placement d)))

  abbrev pub reached : Event → Option Device → List Device
  reached e none = []
  reached e (some d) = if reaches e d then d ∷ [] else []

  -- Of the devices on the GPU of an event only the last one is considered; an event without a UUID
  -- is one of all devices.
  abbrev pub affected : List Device → Event → Option Str → List Device
  affected devices e none = devices
  affected devices e (some uuid) = reached e (last_on placement register uuid devices none)

  -- The report on what Wait answers.
  abbrev pub report : DisabledXids → List Device → Waited → List Device
  report xids devices timeout = []
  report xids devices wait_error = devices
  report xids devices (event e) =
      if e.is_xid && not (ignores xids e.xid) then affected devices e e.uuid else []

  abbrev pub reports : DisabledXids → List Device → List Waited → List Device
  reports xids devices [] = []
  reports xids devices (x ∷ waited) = report xids devices x ++ reports xids devices waited

  -- A device whose registration fails.
  abbrev pub fails : Option Placement → Device → Bool
  fails none d = true
  fails (some p) d = is_marked (register d)

  abbrev pub unregistered : List Device → List Device
  unregistered [] = []
  unregistered (d ∷ ds) =
      let rest = unregistered ds in if fails (placement d) d then d ∷ rest else rest

  unhealthy-register_placed :
      (o : Option Placement) (d : Device) (w : Watch)
      → (register_placed placement register o d w).unhealthy
        ≡ (if fails o d then w.unhealthy ++ d ∷ [] else w.unhealthy)
  unfolding register_placed
  unhealthy-register_placed none d w = refl
  unhealthy-register_placed (some p) d w = refl

  unhealthy-register_all :
      (ds : List Device) (w : Watch)
      → (register_all placement register ds w).unhealthy ≡ w.unhealthy ++ unregistered ds
  unfolding register_all register_device
  unhealthy-register_all [] w = sym (append-nil w.unhealthy)
  unhealthy-register_all (d ∷ ds) w =
      unhealthy-register_all ds (register_placed placement register (placement d) d w)
      ∙ ap (λ l. l ++ unregistered ds) (unhealthy-register_placed (placement d) d w)
      ∙ joined (fails (placement d) d)
    where
      joined :
          (b : Bool)
          → (if b then w.unhealthy ++ d ∷ [] else w.unhealthy) ++ unregistered ds
            ≡ w.unhealthy ++ (if b then d ∷ unregistered ds else unregistered ds)
      joined true = append_assoc w.unhealthy (d ∷ []) (unregistered ds)
      joined false = refl

  -- The test by the maps is that by the placement.
  is_other_instance-reaches :
      (w : Watch) (e : Event) (d : Device)
      → IsPlaced placement register w d
      → is_other_instance w e d ≡ not (reaches e d)
  unfolding is_other_instance
  is_other_instance-reaches w e d (p, h, g, c) = ground arith

  -- The maps behind the registration: whatever is found on a parent is the last device there.
  IsRegistered : List Device → Watch → Type 0
  IsRegistered devices w =
      ((parent : Str) → lookup parent w.parents ≡ last_on placement register parent devices none)
      × AreKnown placement register devices w

  register_all-IsRegistered :
      (devices : List Device)
      → ArePlacedById placement register devices
      → IsRegistered devices (register_all placement register devices empty_watch)
  unfolding lookup IsRegistered
  register_all-IsRegistered devices by_id = (
    (λ parent. lookup-register_all placement register devices empty_watch parent),
    AreKnown-register_all placement register devices devices empty_watch by_id (λ d m. m)
        (AreKnown-empty placement register devices),
  )

  found-reached :
      (w : Watch) (e : Event) (o : Option Device)
      → ((d : Device) → o ≡ some d → IsPlaced placement register w d)
      → marked w e o ≡ reached e o
  found-reached w e none h = refl
  found-reached w e (some d) h = ground (arith, is_other_instance-reaches w e d (h d refl))

  by_uuid-affected :
      (devices : List Device) (w : Watch) (e : Event) (u : Option Str)
      → IsRegistered devices w
      → by_uuid devices w e u ≡ affected devices e u
  unfolding IsRegistered
  by_uuid-affected devices w e none h = refl
  by_uuid-affected devices w e (some uuid) (last, known) =
      found-reached w e (lookup uuid w.parents) (λ d k. (known uuid d k).1)
      ∙ ap (reached e) (last uuid)

  handle_wait-report :
      (devices : List Device) (w : Watch) (xids : DisabledXids) (x : Waited)
      → IsRegistered devices w
      → is_all_disabled xids ≡ false
      → handle_wait xids devices w x ≡ report xids devices x
  unfolding handle_wait
  handle_wait-report devices w xids timeout r h = refl
  handle_wait-report devices w xids wait_error r h = refl
  handle_wait-report devices w xids (event e) r h =
      ground (arith, by_uuid-affected devices w e e.uuid r)

  event_loop-reports :
      (devices : List Device) (w : Watch) (xids : DisabledXids) (waited : List Waited)
      → IsRegistered devices w
      → is_all_disabled xids ≡ false
      → event_loop xids devices w waited ≡ reports xids devices waited
  unfolding event_loop
  event_loop-reports devices w xids [] r h = refl
  event_loop-reports devices w xids (x ∷ waited) r h =
      ground (
        arith,
        handle_wait-report devices w xids x r h,
        event_loop-reports devices w xids waited r h,
      )

  -- A run of checkHealth for which NVML begins, over devices of which two with one id are at one
  -- place, and unless all XIDs are disabled: it sends the devices that it cannot register, in their
  -- order, and then, message by message, what the placements say. An error of Wait and an XID event
  -- without a UUID, if the XID is not ignored, are of all devices. Any other such event is of the last
  -- device placed on its GPU alone: that one is sent if it is no MIG device, is at the instances of the
  -- event, or the event names no instances; another MIG device on that GPU is never sent.
  pub check_health-reports :
      (xids : DisabledXids) (fail_on_init_error : Bool) (devices : List Device)
      (waited : List Waited)
      → ArePlacedById placement register devices
      → is_all_disabled xids ≡ false
      → (let start : Start = record {
        fail_on_init_error = fail_on_init_error;
        init_succeeds = true;
        event_set_succeeds = true;
      } in
          check_health placement register xids start devices waited
          ≡ (false, unregistered devices ++ reports xids devices waited))
  unfolding check_health
  check_health-reports xids fail_on_init_error devices waited by_id h =
      let w = register_all placement register devices empty_watch in
      ground (
        arith,
        unhealthy-register_all devices empty_watch,
        event_loop-reports devices w xids waited (register_all-IsRegistered devices by_id) h,
      )
