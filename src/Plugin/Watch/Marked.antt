-- ===== src/Plugin/Watch/Marked.antt =====
-- ListAndWatch while the driver answers and Send succeeds.
use volcano_vgpu_device_plug.Prelude.{
  ℕ, suc, ◌+◌, ◌/◌, ◌≡◌, ◌≢◌, refl, sym, ap, ◌∙◌, Bool, true, false, Option, none, some, List, [],
  ◌∷◌, ◌++◌, any, length, All, if◌then◌else◌, arith, ◌==◌, ◌>>=◌,
}
use mathlib.Core.Path.{subst}
use volcano_vgpu_device_plug.GoText.{Str, codes, str_eq}
use volcano_vgpu_device_plug.Rm.Devices.{Device, Devices, plugin_devices}
use volcano_vgpu_device_plug.Plugin.Entries.{
  ApiDevice, Advertised, entries_from, memory_entries, registered_mem, api_devices,
}
use volcano_vgpu_device_plug.Plugin.Watch.{
  Event, stop, unhealthy, Watch, watching, crashed, send, mark, memory_of, send, send_devices,
  receive, watch_loop, list_and_watch,
}

-- The devices that the messages name.
abbrev pub reported : List Event → List Str
reported [] = []
reported (stop ∷ events) = reported events
reported (unhealthy id answers succeeds ∷ events) = id ∷ reported events

-- The devices with all those of a list unhealthy.
abbrev pub mark_all : List Str → Devices → Devices
mark_all ids [] = []
mark_all ids ((k, d) ∷ ds) =
    (k, if any (str_eq k) ids then record d { healthy = false } else d) ∷ mark_all ids ds

-- A report at which the driver answers for all devices and Send succeeds.
abbrev pub IsServed : Event → Type 0
IsServed stop = ⊥
IsServed (unhealthy id answers succeeds) = ((d : Str) → answers d ≡ true) × (succeeds ≡ true)

mark_all-none : (ds : Devices) → mark_all [] ds ≡ ds
mark_all-none [] = refl
mark_all-none ((k, d) ∷ ds) = ap (λ x. (k, d) ∷ x) (mark_all-none ds)

marked_again :
    (a b : Bool) (d : Device)
    → (let d' = if a then record d { healthy = false } else d in
        if b then record d' { healthy = false } else d')
      ≡ (if (elim a [ true ↦ true | false ↦ b ]) then record d { healthy = false } else d)
marked_again true true d = refl
marked_again true false d = refl
marked_again false b d = refl

mark_all-mark :
    (id : Str) (ids : List Str) (ds : Devices) → mark_all ids (mark id ds) ≡ mark_all (id ∷ ids) ds
unfolding mark
mark_all-mark id ids [] = refl
mark_all-mark id ids ((k, d) ∷ ds) =
    ap (λ x. (k, x) ∷ mark_all ids (mark id ds)) (marked_again (str_eq k id) (any (str_eq k) ids) d)
    ∙ ap (λ x. (k, if any (str_eq k) (id ∷ ids) then record d { healthy = false } else d) ∷ x)
        (mark_all-mark id ids ds)

memory_entries-total :
    (total : Str → ℕ) (answers : Str → Bool) (factor : ℕ) (devs : List Device)
    → factor ≢ 0
    → ((d : Str) → answers d ≡ true)
    → (r : List ApiDevice) × (memory_entries (memory_of total answers) factor devs ≡ some r)
unfolding memory_entries registered_mem
memory_entries-total total answers factor [] h k = ([], refl)
memory_entries-total total answers factor (d ∷ devs) h k =
    let (r, e) = memory_entries-total total answers factor devs h k in
    (
      entries_from (codes "-memory-") d 0 ((total d.id / 1048576) / factor) ++ r,
      ap
            (λ b. (if b then some (total d.id) else none) >>= λ t.
              (if factor == 0 then none else some ((t / 1048576) / factor)) >>= λ n.
              memory_entries (memory_of total answers) factor devs >>= λ q.
              some (entries_from (codes "-memory-") d 0 n ++ q))
            (k d.id)
          ∙ ground arith,
    )

module _ (config : Advertised) (total : Str → ℕ) (resource : Str) where
  api_devices-total :
      (answers : Str → Bool) (ds : Devices)
      → config.gpu_memory_factor ≢ 0
      → ((d : Str) → answers d ≡ true)
      → (r : List ApiDevice) × (api_devices config (memory_of total answers) resource ds ≡ some r)
  unfolding api_devices
  api_devices-total answers ds h k =
      any_case (str_eq resource config.resource_mem) (str_eq resource config.resource_cores) _ _ _
        (memory_entries-total total answers config.gpu_memory_factor (plugin_devices ds) h k)
    where
      any_case :
          (b b' : Bool) (m : Option (List ApiDevice)) (c e : List ApiDevice)
          → (r : List ApiDevice) × (m ≡ some r)
          → (r : List ApiDevice) × ((if b then m else if b' then some c else some e) ≡ some r)
      any_case true b' m c e h = h
      any_case false true m c e h = (c, refl)
      any_case false false m c e h = (e, refl)

  -- In the loop with `n` responses, the last one made of the devices as they are.
  abbrev pub Serves : Devices → ℕ → Watch → Type 0
  Serves ds n w =
      (r : List ApiDevice) × (sent : List (List ApiDevice)) × (answers : Str → Bool) × (w
        ≡ watching (record { devices = ds; sent = r ∷ sent }))
      × (length (r ∷ sent) ≡ n)
      × (api_devices config (memory_of total answers) resource ds ≡ some r)

  send_devices-Serves :
      (answers : Str → Bool) (failed : Bool) (ds : Devices) (sent : List (List ApiDevice))
      → config.gpu_memory_factor ≢ 0
      → ((d : Str) → answers d ≡ true)
      → Serves ds (suc (length sent)) (
          send_devices config total resource answers true failed
            (record { devices = ds; sent = sent }))
  unfolding send_devices
  send_devices-Serves answers failed ds sent h k =
      let (r, e) = api_devices-total answers ds h k in
      (
        r,
        sent,
        answers,
        ap
            (λ o. elim o [
              | none ↦ crashed (record { devices = ds; sent = sent })
              | some q ↦ send true failed q (record { devices = ds; sent = sent })
            ])
            e,
        refl,
        e,
      )

  watch_loop-Serves :
      (events : List Event) (ds : Devices) (n : ℕ) (w : Watch)
      → config.gpu_memory_factor ≢ 0
      → All IsServed events
      → Serves ds n w
      → Serves
          (mark_all (reported events) ds)
          (n + length events)
          (watch_loop config total resource events w)
  unfolding watch_loop receive
  watch_loop-Serves [] ds n w h k (r, sent, answers, e, l, shown) = (
    r,
    sent,
    answers,
    e ∙ ap (λ x. watching (record { devices = x; sent = r ∷ sent })) (sym (mark_all-none ds)),
    ground arith,
    ap (api_devices config (memory_of total answers) resource) (mark_all-none ds) ∙ shown,
  )
  watch_loop-Serves (stop ∷ events) ds n w h (k, ks) s = absurd k
  watch_loop-Serves (unhealthy id answers succeeds ∷ events) ds n w h ((a, b), ks)
        (r, sent, answers', e, l, shown) =
      let first : Serves (mark id ds) (suc n)
          (receive config total resource (unhealthy id answers succeeds) w) =
        subst
          (λ v.
            Serves (mark id ds) (suc n)
              (receive config total resource (unhealthy id answers succeeds) v))
          (sym e)
          (subst
            (λ ok. Serves (mark id ds) (suc n) (
              send_devices config total resource answers ok false
                (record { devices = mark id ds; sent = r ∷ sent })))
            (sym b)
            (subst
              (λ m. Serves (mark id ds) (suc m) (
                send_devices config total resource answers true false
                  (record { devices = mark id ds; sent = r ∷ sent })))
              l (send_devices-Serves answers false (mark id ds) (r ∷ sent) h a))) in
      let rest = watch_loop-Serves events (mark id ds) (suc n) _ h ks first in
      subst
        (λ x.
          Serves x (n + suc (length events))
            (watch_loop config total resource (unhealthy id answers succeeds ∷ events) w))
        (mark_all-mark id (reported events) ds)
        (subst
          (λ m.
            Serves (mark_all (reported events) (mark id ds)) m
              (watch_loop config total resource (unhealthy id answers succeeds ∷ events) w))
          (omega arith) rest)

-- With a memory factor other than 0, while the driver answers, Send succeeds and no stop comes,
-- ListAndWatch stays in its loop, answers each report by one response beside the first one, and the
-- last response is made of the devices of the start with all the reported ones unhealthy, whatever the
-- order and repetition of the reports.
pub list_and_watch-Serves :
    (config : Advertised) (total : Str → ℕ) (resource : Str) (answers : Str → Bool)
    (events : List Event) (devices : Devices)
    → config.gpu_memory_factor ≢ 0
    → ((d : Str) → answers d ≡ true)
    → All IsServed events
    → Serves config total resource
        (mark_all (reported events) devices)
        (suc (length events))
        (list_and_watch config total resource answers true events devices)
unfolding list_and_watch
list_and_watch-Serves config total resource answers events devices h k served =
    subst
      (λ n.
        Serves config total resource (mark_all (reported events) devices) n
          (list_and_watch config total resource answers true events devices))
      (omega arith)
      (watch_loop-Serves config total resource events devices 1 _ h served
        (send_devices-Serves config total resource answers true devices [] h k))
