-- ===== src/Plugin/Watch/Fading.antt =====
-- The responses of ListAndWatch over time.
use volcano_vgpu_device_plug.Prelude.{
  ℕ, ◌≡◌, refl, sym, Bool, true, false, Option, none, some, List, [], ◌∷◌, All,
}
use mathlib.Core.Path.{subst}
use volcano_vgpu_device_plug.GoText.{Str, codes, str_eq}
use volcano_vgpu_device_plug.Rm.Devices.{Devices}
use volcano_vgpu_device_plug.Plugin.Entries.{ApiDevice, Advertised, api_devices}
use volcano_vgpu_device_plug.Plugin.Watch.Fades.{
  Fades, by_resource-Fades, Fades-trans, entries-Fades, memory_entries-Fades,
}
use volcano_vgpu_device_plug.Plugin.Watch.{
  Event, stop, unhealthy, Watching, Watch, watching, returned, crashed, state, mark, memory_of,
  send, send_devices, receive, watch_loop, list_and_watch,
}

-- Each response against all those before it, the last one first.
abbrev pub IsFading : List (List ApiDevice) → Type 0
IsFading [] = Unit
IsFading (r ∷ sent) = All (λ earlier. Fades earlier r) sent × IsFading sent

Fades-All :
    (r r' : List ApiDevice) (sent : List (List ApiDevice))
    → Fades r r'
    → All (λ earlier. Fades earlier r) sent
    → All (λ earlier. Fades earlier r') sent
Fades-All r r' [] h k = tt
Fades-All r r' (q ∷ sent) h (k, ks) = (Fades-trans q r r' k h, Fades-All r r' sent h ks)

module _ (config : Advertised) (total : Str → ℕ) (resource : Str) where
  abbrev Shown : List ApiDevice → Devices → Type 0
  Shown r ds =
      (answers : Str → Bool) × (api_devices config (memory_of total answers) resource ds ≡ some r)

  api_devices-Fades :
      (id : Str) (ds : Devices) (r r' : List ApiDevice)
      → Shown r ds
      → Shown r' (mark id ds)
      → Fades r r'
  unfolding api_devices
  api_devices-Fades id ds r r' (answers, h) (answers', h') =
      by_resource-Fades (str_eq resource config.resource_mem)
        (str_eq resource config.resource_cores) _ _ _ _ _ _ r r' h h'
        (memory_entries-Fades total config.gpu_memory_factor answers answers' id ds r r')
        (entries-Fades (codes "-core-") config.cores_num id ds)
        (entries-Fades (codes "-") config.device_split_count id ds)

  -- The responses so far fade, and in the loop the last one shows the devices.
  abbrev Inv : Watch → Type 0
  Inv (watching s) =
      (r : List ApiDevice) × (sent : List (List ApiDevice)) × (s.sent ≡ r ∷ sent)
      × Shown r s.devices
      × IsFading (r ∷ sent)
  Inv (returned failed s) = IsFading s.sent
  Inv (crashed s) = IsFading s.sent

  sent-Inv :
      (answers : Str → Bool) (succeeds failed : Bool) (s : Watching) (o : Option (List ApiDevice))
      → api_devices config (memory_of total answers) resource s.devices ≡ o
      → IsFading s.sent
      → ((r : List ApiDevice) → Shown r s.devices → All (λ earlier. Fades earlier r) s.sent)
      → Inv (elim o [ none ↦ crashed s | some r ↦ send succeeds failed r s ])
  sent-Inv answers succeeds failed s none e h k = h
  sent-Inv answers true failed s (some r) e h k =
      (r, s.sent, refl, (answers, e), (k r (answers, e), h))
  sent-Inv answers false failed s (some r) e h k = h

  receive-Inv : (e : Event) (w : Watch) → Inv w → Inv (receive config total resource e w)
  unfolding receive send_devices
  receive-Inv stop (watching s) (r, sent, e, shown, h) = subst IsFading (sym e) h
  receive-Inv (unhealthy id answers succeeds) (watching s) (r, sent, e, shown, h) =
      sent-Inv answers succeeds false (record s { devices = mark id s.devices }) _ refl
        (subst IsFading (sym e) h)
        (λ r' shown'.
          let fades = api_devices-Fades id s.devices r r' shown shown' in
          subst (All (λ earlier. Fades earlier r')) (sym e) (fades, Fades-All r r' sent fades h.0))
  receive-Inv e (returned failed s) h = h
  receive-Inv e (crashed s) h = h

  watch_loop-Inv :
      (events : List Event) (w : Watch) → Inv w → Inv (watch_loop config total resource events w)
  unfolding watch_loop
  watch_loop-Inv [] w h = h
  watch_loop-Inv (e ∷ events) w h =
      watch_loop-Inv events (receive config total resource e w) (receive-Inv e w h)

  Inv-IsFading : (w : Watch) → Inv w → IsFading (state w).sent
  Inv-IsFading (watching s) (r, sent, e, shown, h) = subst IsFading (sym e) h
  Inv-IsFading (returned failed s) h = h
  Inv-IsFading (crashed s) h = h

  -- Whatever comes on the channels of ListAndWatch, every response that it sent has the ids of each
  -- response before it, and advertises as healthy no id that was not so before.
  pub list_and_watch-IsFading :
      (answers : Str → Bool) (succeeds : Bool) (events : List Event) (devices : Devices)
      → IsFading (state (list_and_watch config total resource answers succeeds events devices)).sent
  unfolding list_and_watch send_devices
  list_and_watch-IsFading answers succeeds events devices = Inv-IsFading _ (
      watch_loop-Inv events _ (
        sent-Inv answers succeeds true (record { devices = devices; sent = [] }) _ refl tt
          (λ r shown. tt)))
