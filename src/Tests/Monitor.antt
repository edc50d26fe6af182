-- ===== src/Tests/Monitor.antt =====
-- cmd/vgpu-monitor: two containers on one GPU, of which the one of priority 0 is active.
use volcano_vgpu_device_plug.Prelude.{◌≡◌, refl, false, some, List, [], ◌∷◌, All, arith}
use volcano_vgpu_device_plug.Prelude.Int.{ℤ, pos, negsuc, is_neg}
use volcano_vgpu_device_plug.GoText.{codes, str_eq}
use volcano_vgpu_device_plug.Kube.Dict.{lookup, insert}
use volcano_vgpu_device_plug.Monitor.{
  Usage, SwitchOn, is_valid_uuid, any_active, counter, shared, check_blocking, check_priority, bump,
  bump_all, decay, count_active, set_blocking, set_switches, observe,
}
use volcano_vgpu_device_plug.Monitor.Blocking.{IsSettled, observe-IsSettled}
use volcano_vgpu_device_plug.Monitor.Priority.{observe_total}

abbrev usage : ℤ → ℤ → ℤ → Usage
usage priority recent_kernel switch = record {
  uuids = codes "A" ∷ [];
  priority = priority;
  recent_kernel = recent_kernel;
  utilization_switch = switch;
}

abbrev before : List Usage
before = usage (pos 0) (pos 5) (pos 0) ∷ usage (pos 1) (pos 5) (pos 0) ∷ []

abbrev after : List Usage
after = usage (pos 0) (pos 4) (pos 0) ∷ usage (pos 1) (negsuc 0) (pos 1) ∷ []

observed : observe before ≡ some after
unfolding observe count_active bump_all bump is_valid_uuid decay set_switches check_blocking
    check_priority any_active shared counter set_blocking lookup insert str_eq
observed = refl

observe-IsSettled_example :
    (counted : List Usage) × (on : SwitchOn) × (count_active before [] ≡ some (counted, on))
    × All (IsSettled on) after
    × All (λ c. c.priority ≡ pos 0 → is_neg c.recent_kernel ≡ false) after
observe-IsSettled_example = observe-IsSettled before observed

observe_total_example : (cs' : List Usage) × (observe before ≡ some cs')
observe_total_example = observe_total before (omega arith, (omega arith, tt))
