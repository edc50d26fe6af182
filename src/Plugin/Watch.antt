-- ===== src/Plugin/Watch.antt =====
-- pkg/plugin/server.go: ListAndWatch, as what it does at each message of its two channels. The total
-- memory of a device is fixed; the driver may still refuse to answer a call, which is a panic.
pub mod Fades
pub mod Fading
pub mod Marked
use volcano_vgpu_device_plug.Prelude.{
  ℕ, suc, ◌≡◌, Bool, true, false, Option, none, some, List, [], ◌∷◌, map, if◌then◌else◌,
}
use volcano_vgpu_device_plug.GoText.{Str, str_eq}
use volcano_vgpu_device_plug.Rm.Devices.{Device, Devices}
use volcano_vgpu_device_plug.Plugin.Entries.{ApiDevice, Advertised, api_devices}

-- A message of plugin.stop, or a device of plugin.health, with whether the driver answers for each
-- device when the list is made again, and whether Send succeeds.
pub data Event : Type 0 where
  stop : Event
  unhealthy : Str → (Str → Bool) → Bool → Event

-- The devices that the plugin shares with its resource manager, and the responses, the last one first.
pub record Watching : Type 0 where
  pub devices : Devices
  pub sent : List (List ApiDevice)

-- In the loop, behind a return with or without an error, or behind a panic.
pub data Watch : Type 0 where
  watching : Watching → Watch
  returned : Bool → Watching → Watch
  crashed : Watching → Watch

abbrev pub state : Watch → Watching
state (watching s) = s
state (returned failed s) = s
state (crashed s) = s

-- d.Health = pluginapi.Unhealthy, at the device of that key.
unfoldable pub mark : Str → Devices → Devices
mark id [] = []
mark id ((k, d) ∷ ds) = (k, if str_eq k id then record d { healthy = false } else d) ∷ mark id ds

-- What the driver says of the memory of a device.
abbrev pub memory_of : (Str → ℕ) → (Str → Bool) → Str → Option ℕ
memory_of total answers id = if answers id then some (total id) else none

abbrev pub send : Bool → Bool → List ApiDevice → Watching → Watch
send true failed r s = watching (record s { sent = r ∷ s.sent })
send false failed r s = returned failed s

module _ (config : Advertised) (total : Str → ℕ) (resource : Str) where
  -- s.Send of apiDevices; `failed` says whether a failure is returned as an error.
  unfoldable pub send_devices : (Str → Bool) → Bool → Bool → Watching → Watch
  send_devices answers succeeds failed s =
      elim (api_devices config (memory_of total answers) resource s.devices) [
        | none ↦ crashed s
        | some r ↦ send succeeds failed r s
      ]

  -- One round of the loop.
  unfoldable pub receive : Event → Watch → Watch
  unfolding send_devices mark
  receive stop (watching s) = returned false s
  receive (unhealthy id answers succeeds) (watching s) =
      send_devices answers succeeds false (record s { devices = mark id s.devices })
  receive e (returned failed s) = returned failed s
  receive e (crashed s) = crashed s

  unfoldable pub watch_loop : List Event → Watch → Watch
  unfolding receive
  watch_loop [] w = w
  watch_loop (e ∷ events) w = watch_loop events (receive e w)

  -- ListAndWatch at the messages that come while it runs.
  unfoldable pub list_and_watch : (Str → Bool) → Bool → List Event → Devices → Watch
  unfolding watch_loop
  list_and_watch answers succeeds events devices =
      watch_loop events
        (send_devices answers succeeds true (record { devices = devices; sent = [] }))
