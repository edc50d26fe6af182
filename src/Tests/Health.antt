-- ===== src/Tests/Health.antt =====
-- pkg/rm/health.go: ignored XIDs, and events of MIG instances.
use volcano_vgpu_device_plug.Health.Events.Placed.{ArePlacedById}
use volcano_vgpu_device_plug.Prelude.{
  ℕ, ◌≡◌, refl, ap, true, false, if◌then◌else◌, Option, none, some, List, [], ◌∷◌, ◌++◌,
}
use volcano_vgpu_device_plug.GoText.{Str, codes, str_eq, contains, has_prefix}
use volcano_vgpu_device_plug.Kube.Dict.{lookup}
use volcano_vgpu_device_plug.Rm.Devices.{Device, is_mig_device}
use volcano_vgpu_device_plug.Health.Xids.{
  flag, is_disabled, is_all_disabled, disabled_health_check_xids,
}
use volcano_vgpu_device_plug.Health.Events.{
  Placement, registered, Watch, register_all, Event, event, empty_watch, check_health,
}
use volcano_vgpu_device_plug.Health.Events.Lookup.{last_on, lookup-register_all}
use volcano_vgpu_device_plug.Health.Events.Reports.{unregistered, reports, check_health-reports}
use volcano_vgpu_device_plug.Health.Events.Ignored.{are_ignored_by, check_health-ignores}

abbrev mig : Str → Device
mig id = record {
  id = id;
  index = codes "0:1";
  paths = [];
  healthy = true;
  numa = none;
  total_memory = 1024;
  compute_capability = codes "8.0";
  replicas = 0;
}

-- Instance 1 is on M1 and instance 2 on M2, on one GPU.
abbrev placement : Device → Option Placement
placement d =
    some (record { uuid = codes "G"; gi = if str_eq d.id (codes "M1") then 1 else 2; ci = 0 })

abbrev devices : List Device
devices = mig (codes "M1") ∷ mig (codes "M2") ∷ []

abbrev watch : Watch
watch = register_all placement (λ d. registered) devices empty_watch

parent_of_two :
    lookup (codes "G") watch.parents
    ≡ last_on placement
        (λ d. registered)
        (codes "G")
        devices
        (lookup (codes "G") empty_watch.parents)
parent_of_two = lookup-register_all placement (λ d. registered) devices empty_watch (codes "G")

abbrev on_instance : ℕ → Event
on_instance gi = record { is_xid = true; xid = 79; uuid = some (codes "G"); gi = gi; ci = 0 }

-- the placements depend on the id alone
placed_by_id : ArePlacedById placement (λ d. registered) devices
placed_by_id d d' m m' e =
    ap
      (λ id.
        some (record { uuid = codes "G"; gi = if str_eq id (codes "M1") then 1 else 2; ci = 0 }))
      e

-- An event of each instance: only that of the last one is sent.
check_health-reports_example :
    check_health placement
      (λ d. registered)
      []
      (record { fail_on_init_error = true; init_succeeds = true; event_set_succeeds = true })
      devices
      (event (on_instance 1) ∷ event (on_instance 2) ∷ [])
    ≡ (
      false,
      unregistered placement (λ d. registered) devices
          ++ reports placement
              (λ d. registered)
              []
              devices
              (event (on_instance 1) ∷ event (on_instance 2) ∷ []),
    )
unfolding is_all_disabled flag
check_health-reports_example =
    check_health-reports placement (λ d. registered) [] true devices
      (event (on_instance 1) ∷ event (on_instance 2) ∷ []) placed_by_id refl

second_only :
    reports placement
      (λ d. registered)
      []
      devices
      (event (on_instance 1) ∷ event (on_instance 2) ∷ [])
    ≡ mig (codes "M2") ∷ []
unfolding is_disabled is_all_disabled flag is_mig_device contains has_prefix str_eq
second_only = refl

abbrev whole : Device
whole = record (mig (codes "W")) { index = codes "0" }

-- All XIDs are disabled and 79 is enabled by number: it is ignored still.
check_health-ignores_example :
    check_health placement
      (λ d. registered)
      (disabled_health_check_xids (codes "all") (codes "79"))
      (record { fail_on_init_error = true; init_succeeds = true; event_set_succeeds = true })
      (whole ∷ [])
      (event (on_instance 1) ∷ [])
    ≡ (false, if are_ignored_by (codes "all") (codes "79") 79 then [] else whole ∷ [])
unfolding is_mig_device contains has_prefix
check_health-ignores_example =
    check_health-ignores placement (λ d. registered) (codes "all") (codes "79") true whole
      (record { uuid = codes "G"; gi = if str_eq (codes "W") (codes "M1") then 1 else 2; ci = 0 })
      (on_instance 1) refl refl refl refl refl
