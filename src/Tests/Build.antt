-- ===== src/Tests/Build.antt =====
-- pkg/rm/device_map.go: one GPU that is registered and one that is filtered.
use volcano_vgpu_device_plug.Prelude.{Option, ◌++◌, if◌then◌else◌, arith}
use volcano_vgpu_device_plug.Prelude.Int.{pos}
use volcano_vgpu_device_plug.GoNum.{itoa}
use volcano_vgpu_device_plug.GoText.{to_lower, trim_prefix}
use volcano_vgpu_device_plug.Rm.NvmlDevice.{Handle, get_numa_node}
use volcano_vgpu_device_plug.Rm.NvmlDevice.Numa.{get_numa_node-file}
use volcano_vgpu_device_plug.Prelude.{ℕ, ◌≡◌, refl, Bool, true, false, none, some, [], ◌∷◌, All}
use volcano_vgpu_device_plug.Config.{init_filter, filter_device_to_register}
use volcano_vgpu_device_plug.Spec.Resources.{wild_rest, wild_literals, wild_card_to_regexp, matches}
use volcano_vgpu_device_plug.GoText.Regexp.{
  is_meta, quote_meta, compile, match_tokens, match_string,
}
use volcano_vgpu_device_plug.GoText.{split, Str, codes, str_eq, contains, has_prefix}
use volcano_vgpu_device_plug.GoNum.{format_uint, decimal_fuel}
use volcano_vgpu_device_plug.Kube.Dict.{insert, lookup}
use volcano_vgpu_device_plug.Rm.Devices.{Device, build_device}
use volcano_vgpu_device_plug.Rm.DeviceMap.{DeviceMap, ok, failed, insert_device, set_entry}
use volcano_vgpu_device_plug.Spec.Resources.{Resources}
use volcano_vgpu_device_plug.Rm.DeviceMap.Build.{
  Gpu, Visits, set_entries, visit_gpu, build_gpu_device_map,
}
use volcano_vgpu_device_plug.Rm.DeviceMap.Build.Listed.{
  IsRegistered, build_gpu_device_map-IsRegistered,
}

-- g2 is in the filter of the configuration.
abbrev filtered : Str → ℕ → Bool
filtered =
    filter_device_to_register (init_filter (some (record { uuid = codes "g2" ∷ []; index = [] })))

abbrev gpu : Str → Gpu
gpu uuid = record {
  uuid = some uuid;
  name = some (codes "Tesla T4");
  mig_enabled = some false;
  mig_devices = some 0;
  info = record {
    uuid = some uuid;
    paths = some [];
    numa_node = some none;
    total_memory = some 15360;
    compute_capability = some (codes "7.5");
  };
}

abbrev resources : Str → Resources
resources pattern = record {
  gpus =
      record { pattern = codes "T4"; name = codes "volcano.sh/vgpu-number" }
      ∷ record { pattern = pattern; name = codes "volcano.sh/vgpu-memory" }
      ∷ [];
  migs = [];
}

abbrev visits : Visits
visits = record {
  gpus = (0, gpu (codes "g1")) ∷ (1, gpu (codes "g2")) ∷ [];
  gpus_end = true;
  migs = [];
  migs_end = true;
}

abbrev device : Device
device = record {
  id = codes "g1";
  index = codes "0";
  paths = [];
  healthy = true;
  numa = none;
  total_memory = 15360;
  compute_capability = codes "7.5";
  replicas = 0;
}

abbrev device_map : DeviceMap
device_map =
    (codes "volcano.sh/vgpu-number", (codes "g1", device) ∷ [])
    ∷ (codes "volcano.sh/vgpu-memory", (codes "g1", device) ∷ [])
    ∷ []

built :
    build_gpu_device_map matches filtered (codes "none") (resources (codes "Tesla")) visits
    ≡ ok device_map
unfolding build_gpu_device_map matches wild_card_to_regexp wild_literals wild_rest quote_meta
    is_meta match_string compile match_tokens split filter_device_to_register init_filter visit_gpu
    set_entries set_entry build_device insert_device insert lookup str_eq contains has_prefix
    format_uint decimal_fuel
built = refl

build_gpu_device_map-IsRegistered_example :
    All
      (IsRegistered matches filtered (codes "none") (resources (codes "Tesla")).gpus device_map)
      visits.gpus
build_gpu_device_map-IsRegistered_example =
    build_gpu_device_map-IsRegistered matches filtered (codes "none") (resources (codes "Tesla"))
      visits device_map built

-- A GPU that has the pattern of one resource only.
not_built :
    build_gpu_device_map matches filtered (codes "none") (resources (codes "A100")) visits ≡ failed
unfolding build_gpu_device_map matches wild_card_to_regexp wild_literals wild_rest quote_meta
    is_meta match_string compile match_tokens split filter_device_to_register init_filter visit_gpu
    set_entries set_entry build_device insert_device insert lookup str_eq contains has_prefix
    format_uint decimal_fuel
not_built = refl

abbrev handle : Handle
handle = record {
  uuid = some (codes "g1");
  minor = some 0;
  compute = some (7, 5);
  bus_id = some (codes "00000000:AF:00.0");
  memory = some 15360;
}

abbrev numa_file : Str → Option Str
numa_file path = if str_eq path (codes "0000:af:00.0") then some (itoa (pos 1) ++ 10 ∷ []) else none

found_file :
    numa_file (to_lower (trim_prefix (codes "00000000:AF:00.0") (codes "0000")))
    ≡ some (itoa (pos 1) ++ 10 ∷ [])
unfolding to_lower trim_prefix has_prefix str_eq
found_file = refl

get_numa_node-file_example : get_numa_node numa_file handle ≡ some (some 1)
get_numa_node-file_example =
    get_numa_node-file numa_file handle (codes "00000000:AF:00.0") (pos 1) refl found_file
      (omega arith)
