-- ===== src/Monitor.antt =====
-- cmd/vgpu-monitor/feedback.go: blocking and throttling of the containers that share a GPU, by their
-- priorities. The shared region of a container is a record of the fields that the loop uses; the map
-- of containers is a list in the order in which the runtime visits it. An index out of range is a
-- panic, `none`.
pub mod Priority
pub mod Blocking
pub mod Lister
use volcano_vgpu_device_plug.Prelude.{
  ℕ, zero, suc, ◌+◌, ◌-◌, ◌<◌, Bool, true, false, not, ◌&&◌, Option, none, some, List, [], ◌∷◌, ltb,
  ◌==◌, if◌then◌else◌, ◌>>=◌, length, get_elem?, set,
}
use volcano_vgpu_device_plug.Prelude.Int.{ℤ, pos, negsuc, pos_part, sub_ℕ}
use volcano_vgpu_device_plug.GoText.{Str}
use volcano_vgpu_device_plug.Kube.Dict.{Dict, lookup, insert}

-- uuids holds DeviceMax texts of 96 bytes.
pub record Usage : Type 0 where
  pub uuids : List Str
  pub priority : ℤ
  pub recent_kernel : ℤ
  pub utilization_switch : ℤ

-- IsValidUUID, at a text: its first byte is not zero.
unfoldable pub is_valid_uuid : Str → Bool
is_valid_uuid [] = false
is_valid_uuid (c ∷ _) = not (c == 0)

-- How many active containers of priority 0 and 1 use each device.
abbrev pub SwitchOn : Type 0
SwitchOn = Dict (List ℕ)

-- counters[i] at an int
unfoldable pub counter : ℤ → List ℕ → Option ℕ
counter (pos i) counters = get_elem? counters i
counter (negsuc _) counters = none

-- utSwitchOn[uuid][i] > 0 for some i < p, from the index `i` on with `rounds` left.
unfoldable pub any_active : ℕ → ℕ → List ℕ → Option Bool
any_active zero i counters = some false
any_active (suc rounds) i counters =
    let rest = any_active rounds (suc i) counters in
    elim (get_elem? counters i) [ none ↦ none | some n ↦ if ltb 0 n then some true else rest ]

-- CheckBlocking: the first device that has counters decides.
unfoldable pub check_blocking : SwitchOn → ℤ → List Str → Option Bool
unfolding any_active
check_blocking on p [] = some false
check_blocking on p (uuid ∷ uuids) =
    let rest = check_blocking on p uuids in
    elim (lookup uuid on) [ none ↦ rest | some counters ↦ any_active (pos_part p) 0 counters ]

-- The body of CheckPriority's loop behind the test for higher priorities.
unfoldable pub shared : ℤ → List ℕ → Option Bool → Option Bool
unfolding counter
shared p counters rest = elim (counter p counters) [
  | none ↦ none
  | some n ↦ if ltb 1 n then some true else rest
]

unfoldable pub check_priority : SwitchOn → ℤ → List Str → Option Bool
unfolding any_active shared
check_priority on p [] = some false
check_priority on p (uuid ∷ uuids) =
    let rest = check_priority on p uuids in
    elim (lookup uuid on) [
      | none ↦ rest
      | some counters ↦ elim (any_active (pos_part p) 0 counters) [
        | none ↦ none
        | some true ↦ some true
        | some false ↦ shared p counters rest
      ]
    ]

-- The counters of a device, two zeros at its first use.
abbrev pub or_two : Option (List ℕ) → List ℕ
or_two none = 0 ∷ 0 ∷ []
or_two (some []) = 0 ∷ 0 ∷ []
or_two (some (n ∷ ns)) = n ∷ ns

abbrev pub counters_of : Str → SwitchOn → List ℕ
counters_of uuid on = or_two (lookup uuid on)

-- utSwitchOn[uuid][priority]++
unfoldable pub bump : ℤ → Str → SwitchOn → Option SwitchOn
bump (negsuc _) uuid on = none
bump (pos i) uuid on = do
  n ← get_elem? (counters_of uuid on) i
  some (insert uuid (set (counters_of uuid on) i (n + 1)) on)

-- The loop over the devices of an active container.
unfoldable pub bump_all : ℤ → List Str → SwitchOn → Option SwitchOn
unfolding is_valid_uuid bump
bump_all p [] on = some on
bump_all p (uuid ∷ uuids) on =
    if is_valid_uuid uuid
    then (do on' ← bump p uuid on; bump_all p uuids on')
    else bump_all p uuids on

-- recentKernel-- while it is positive
unfoldable pub decay : ℤ → ℤ
decay (pos (suc n)) = pos n
decay z = z

-- Whether the container counts as active: it stays positive.
abbrev pub is_active : ℤ → Bool
is_active (pos (suc (suc n))) = true
is_active _ = false

-- The first loop of Observe.
unfoldable pub count_active : List Usage → SwitchOn → Option (List Usage × SwitchOn)
unfolding bump_all decay
count_active [] on = some ([], on)
count_active (c ∷ cs) on = do
  on' ← (if is_active c.recent_kernel then bump_all c.priority c.uuids on else some on)
  (cs', on'') ← count_active cs on'
  some (record c { recent_kernel = decay c.recent_kernel } ∷ cs', on'')

-- Setting Blocking on and off.
unfoldable pub set_blocking : Bool → ℤ → ℤ
set_blocking true (pos n) = negsuc 0
set_blocking true (negsuc n) = negsuc n
set_blocking false (pos n) = pos n
set_blocking false (negsuc n) = pos 0

abbrev pub switch_value : Bool → ℤ
switch_value true = pos 1
switch_value false = pos 0

-- The second loop of Observe. Writing a switch that has its value already changes nothing.
unfoldable pub set_switches : SwitchOn → List Usage → Option (List Usage)
unfolding check_blocking check_priority set_blocking
set_switches on [] = some []
set_switches on (c ∷ cs) = do
  blocking ← check_blocking on c.priority c.uuids
  throttled ← check_priority on c.priority c.uuids
  rest ← set_switches on cs
  some (
      record c {
        recent_kernel = set_blocking blocking c.recent_kernel;
        utilization_switch = switch_value throttled;
      }
      ∷ rest)

unfoldable pub observe : List Usage → Option (List Usage)
unfolding count_active set_switches
observe containers = do (counted, on) ← count_active containers []; set_switches on counted
