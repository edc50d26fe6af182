-- ===== src/Health/Events.antt =====
-- checkHealth: the registration of the devices and the verdict on an event. What NVML answers is an
-- argument. The result lists the devices that are sent to the channel of unhealthy ones.
pub mod Lookup
pub mod Placed
pub mod Reports
pub mod Ignored
use volcano_vgpu_device_plug.Prelude.{
  ℕ, zero, suc, ◌+◌, Bool, true, false, not, ◌&&◌, ◌||◌, Option, none, some, List, [], ◌∷◌, ◌++◌,
  ◌==◌, if◌then◌else◌, map,
}
use volcano_vgpu_device_plug.GoText.{Str, codes, str_eq, cut, has_prefix, split}
use volcano_vgpu_device_plug.GoNum.{parse_uint}
use volcano_vgpu_device_plug.Kube.Dict.{Dict, lookup, insert}
use volcano_vgpu_device_plug.Rm.AnnotatedId.{get_id}
use volcano_vgpu_device_plug.Rm.Devices.{Device, Devices, is_mig_device}
use volcano_vgpu_device_plug.Health.Xids.{DisabledXids, is_disabled, is_all_disabled}

abbrev pub full_device : ℕ
full_device = 0xFFFFFFFF

-- parent UUID, GPU instance, compute instance
pub record Placement : Type 0 where
  pub uuid : Str
  pub gi : ℕ
  pub ci : ℕ

-- toUint32
unfoldable pub to_uint32 : Str → Option ℕ
to_uint32 s = let (u, failed) = parse_uint 4294967295 s in if failed then none else some u

abbrev instances : Str → Option ℕ → Option ℕ → Option Placement
instances uuid (some gi) (some ci) = some (record { uuid = uuid; gi = gi; ci = ci })
instances uuid _ _ = none

-- The second split of parseMigDeviceUUID, at the first two slashes.
unfoldable pub parse_mig_parts : Str → Option Placement
unfolding to_uint32
parse_mig_parts tail = elim (cut (47 ∷ []) tail) [
  | none ↦ none
  | some (uuid, rest) ↦ elim (cut (47 ∷ []) rest) [
    | none ↦ none
    | some (gi, ci) ↦
        if has_prefix uuid (codes "GPU-")
        then instances uuid (to_uint32 gi) (to_uint32 ci)
        else none
  ]
]

unfoldable pub parse_mig_device_uuid : Str → Option Placement
unfolding parse_mig_parts
parse_mig_device_uuid mig = elim (cut (45 ∷ []) mig) [
  | none ↦ none
  | some (head, tail) ↦ if str_eq head (codes "MIG") then parse_mig_parts tail else none
]

-- getDevicePlacement. `handle` says whether the driver has a handle of that UUID, and what the calls
-- on it answered; an older driver has none for a MIG device.
unfoldable pub get_device_placement : (Str → Option (Option Placement)) → Device → Option Placement
unfolding parse_mig_device_uuid
get_device_placement handle d =
    if is_mig_device d
    then elim (handle (get_id d.id)) [
      | some answer ↦ answer
      | none ↦ parse_mig_device_uuid (get_id d.id)
    ]
    else some (record { uuid = get_id d.id; gi = full_device; ci = full_device })

-- How the calls that follow the placement went.
pub data Registration : Type 0 where
  no_handle no_supported_events not_supported registration_failed registered : Registration

abbrev pub is_marked : Registration → Bool
is_marked not_supported = false
is_marked registered = false
is_marked _ = true

-- The three maps, and the devices sent so far.
pub record Watch : Type 0 where
  pub parents : Dict Device
  pub gis : Dict ℕ
  pub cis : Dict ℕ
  pub unhealthy : List Device

module _ (placement : Device → Option Placement) (register : Device → Registration) where
  unfoldable pub register_placed : Option Placement → Device → Watch → Watch
  register_placed none d w = record w { unhealthy = w.unhealthy ++ d ∷ [] }
  register_placed (some p) d w = record {
    parents = insert p.uuid d w.parents;
    gis = insert d.id p.gi w.gis;
    cis = insert d.id p.ci w.cis;
    unhealthy = if is_marked (register d) then w.unhealthy ++ d ∷ [] else w.unhealthy;
  }

  -- one round of the loop over the devices
  unfoldable pub register_device : Device → Watch → Watch
  unfolding register_placed
  register_device d w = register_placed (placement d) d w

  unfoldable pub register_all : List Device → Watch → Watch
  unfolding register_device
  register_all [] w = w
  register_all (d ∷ ds) w = register_all ds (register_device d w)

-- An event of NVML; the UUID is absent if the driver did not tell it.
pub record Event : Type 0 where
  pub is_xid : Bool
  pub xid : ℕ
  pub uuid : Option Str
  pub gi : ℕ
  pub ci : ℕ

pub data Waited : Type 0 where
  timeout wait_error : Waited
  event : Event → Waited

-- m[k] of a map to numbers, zero if there is none
abbrev pub number : Str → Dict ℕ → ℕ
number k m = elim (lookup k m) [ none ↦ 0 | some n ↦ n ]

-- The test for the instances of a MIG device.
unfoldable pub is_other_instance : Watch → Event → Device → Bool
is_other_instance w e d =
    is_mig_device d
    && (not (e.gi == full_device)
        && (not (e.ci == full_device)
            && (not (number d.id w.gis == e.gi) || not (number d.id w.cis == e.ci))))

abbrev pub marked : Watch → Event → Option Device → List Device
marked w e none = []
marked w e (some d) = if is_other_instance w e d then [] else d ∷ []

abbrev pub by_uuid : List Device → Watch → Event → Option Str → List Device
by_uuid devices w e none = devices
by_uuid devices w e (some uuid) = marked w e (lookup uuid w.parents)

-- One round of the endless loop: the devices that it sends.
unfoldable pub handle_wait : DisabledXids → List Device → Watch → Waited → List Device
unfolding is_other_instance
handle_wait xids devices w timeout = []
handle_wait xids devices w wait_error = devices
handle_wait xids devices w (event e) =
    if not e.is_xid then [] else if is_disabled xids e.xid then [] else by_uuid devices w e e.uuid

-- How the run begins: what IsAllDisabled, Init with FailOnInitError, and EventSetCreate decide.
pub record Start : Type 0 where
  pub fail_on_init_error : Bool
  pub init_succeeds : Bool
  pub event_set_succeeds : Bool

-- The endless loop over what Wait answers until the stop.
unfoldable pub event_loop : DisabledXids → List Device → Watch → List Waited → List Device
unfolding handle_wait
event_loop xids devices w [] = []
event_loop xids devices w (x ∷ waited) =
    handle_wait xids devices w x ++ event_loop xids devices w waited

abbrev pub empty_watch : Watch
empty_watch = record { parents = []; gis = []; cis = []; unhealthy = [] }

-- checkHealth: whether it returns an error, and all the devices that it sends. Every loop
-- over the map of devices visits them in the order of the list.
unfoldable pub check_health :
    (Device → Option Placement)
    → (Device → Registration)
    → DisabledXids
    → Start
    → List Device
    → List Waited
    → Bool × List Device
unfolding event_loop register_all
check_health placement register xids start devices waited =
    let w = register_all placement register devices empty_watch in
    elim (is_all_disabled xids) [
      | true ↦ (false, [])
      | false ↦ elim (start.init_succeeds) [
        | false ↦ (start.fail_on_init_error, [])
        | true ↦ elim (start.event_set_succeeds) [
          | false ↦ (true, [])
          | true ↦ (false, w.unhealthy ++ event_loop xids devices w waited)
        ]
      ]
    ]
