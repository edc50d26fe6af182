-- ===== src/Tests/Config.antt =====
-- pkg/util/util.go: LoadNvidiaConfig with a flag, a config map and a file.
use volcano_vgpu_device_plug.Prelude.{ℕ, ◌≡◌, Option, none, some, List, [], ◌∷◌, ltb}
use volcano_vgpu_device_plug.GoText.{Str, codes}
use volcano_vgpu_device_plug.Config.{NvidiaConfig, NodeConfig, Flags, or_else, load_nvidia_config}
use volcano_vgpu_device_plug.Config.Precedence.{
  last_given, given_split_count, given_core_scaling, given_mode, given_filter, entries_of,
  load_nvidia_config-precedence,
}

-- The scaling is in percent.
abbrev config_with : ℕ → NvidiaConfig ℕ
config_with n = record {
  resource_count_name = codes "volcano.sh/vgpu-number";
  resource_memory_name = codes "volcano.sh/vgpu-memory";
  resource_core_name = codes "volcano.sh/vgpu-cores";
  resource_memory_percentage_name = codes "volcano.sh/vgpu-memory-percentage";
  device_split_count = n;
  device_memory_scaling = n;
  device_core_scaling = n;
  gpu_memory_factor = n;
}

abbrev flags : Flags ℕ
flags = record { split_count = some 7; core_scaling = none; memory_factor = some 5 }

abbrev entry : Str → ℕ → NodeConfig ℕ
entry name n = record {
  name = name;
  operating_mode = codes "mig";
  devicememoryscaling = n;
  devicecorescaling = n;
  devicesplitcount = n;
  filter_device = some (record { uuid = codes "g1" ∷ []; index = [] });
}

abbrev file : Option (List (NodeConfig ℕ))
file = some (entry (codes "n1") 3 ∷ entry (codes "n1") 0 ∷ entry (codes "n2") 9 ∷ [])

load_nvidia_config-precedence_example :
    (let l =
        load_nvidia_config
          (λ n. ltb 0 n)
          (codes "n1")
          (config_with 0)
          flags
          (some (config_with 2))
          file in
      (l.config.device_split_count
        ≡ or_else (last_given given_split_count (codes "n1") (entries_of file)) 7)
      × (l.config.device_core_scaling
          ≡ or_else
              (last_given (given_core_scaling (λ n. ltb 0 n)) (codes "n1") (entries_of file))
              2)
      × (l.config.gpu_memory_factor ≡ 5)
      × (l.mode
          ≡ or_else (last_given given_mode (codes "n1") (entries_of file)) (codes "hami-core"))
      × (l.filter ≡ or_else (last_given given_filter (codes "n1") (entries_of file)) none))
load_nvidia_config-precedence_example =
    load_nvidia_config-precedence (λ n. ltb 0 n) (codes "n1") (config_with 0) flags
      (some (config_with 2)) file
