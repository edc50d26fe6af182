-- ===== src/Tests/Watch.antt =====
-- pkg/plugin/server.go: ListAndWatch of two devices.
use volcano_vgpu_device_plug.Prelude.{ℕ, refl, true, none, List, [], ◌∷◌, arith}
use volcano_vgpu_device_plug.GoText.{Str, codes}
use volcano_vgpu_device_plug.Rm.Devices.{Device, Devices}
use volcano_vgpu_device_plug.Plugin.Entries.{Advertised}
use volcano_vgpu_device_plug.Plugin.Watch.{Event, unhealthy, state, list_and_watch}
use volcano_vgpu_device_plug.Plugin.Watch.Fading.{IsFading, list_and_watch-IsFading}
use volcano_vgpu_device_plug.Plugin.Watch.Marked.{reported, mark_all, Serves, list_and_watch-Serves}

abbrev device : Str → Device
device id = record {
  id = id;
  index = codes "0";
  paths = [];
  healthy = true;
  numa = none;
  total_memory = 0;
  compute_capability = [];
  replicas = 0;
}

abbrev devices : Devices
devices = (codes "g1", device (codes "g1")) ∷ (codes "g2", device (codes "g2")) ∷ []

abbrev advertised : Advertised
advertised = record {
  resource_mem = codes "volcano.sh/vgpu-memory";
  resource_cores = codes "volcano.sh/vgpu-cores";
  gpu_memory_factor = 1;
  cores_num = 100;
  device_split_count = 2;
}

-- g2 is reported twice.
abbrev events : List Event
events = unhealthy (codes "g2") (λ d. true) true ∷ unhealthy (codes "g2") (λ d. true) true ∷ []

abbrev memory : Str → ℕ
memory d = 3145728

list_and_watch-IsFading_example :
    IsFading
      (state (
        list_and_watch advertised memory
          (codes "volcano.sh/vgpu-memory")
          (λ d. true)
          true
          events
          devices)).sent
list_and_watch-IsFading_example =
    list_and_watch-IsFading advertised memory (codes "volcano.sh/vgpu-memory") (λ d. true) true
      events devices

list_and_watch-Serves_example :
    Serves advertised memory
      (codes "volcano.sh/vgpu-memory")
      (mark_all (reported events) devices)
      3
      (list_and_watch advertised memory
        (codes "volcano.sh/vgpu-memory")
        (λ d. true)
        true
        events
        devices)
list_and_watch-Serves_example =
    list_and_watch-Serves advertised memory (codes "volcano.sh/vgpu-memory") (λ d. true) events
      devices (ground arith) (λ d. refl) ((λ d. refl, refl), ((λ d. refl, refl), tt))
