-- ===== src/Tests/Plugin.antt =====
-- pkg/plugin and api/config/v1: answers, advertised devices, and MIG configurations.
use volcano_vgpu_device_plug.Prelude.{
  ℕ, ◌*◌, ◌≡◌, ◌≢◌, refl, true, false, none, some, List, [], ◌∷◌, ◌++◌, length, any, arith,
}
use volcano_vgpu_device_plug.Prelude.Int.{pos}
use volcano_vgpu_device_plug.GoText.{
  Str, codes, str_eq, str_eq_iff, trim_space, trim_left, trim_right, has_prefix, join,
}
use volcano_vgpu_device_plug.GoNum.{itoa}
use volcano_vgpu_device_plug.Kube.Dict.{lookup, insert}
use volcano_vgpu_device_plug.Spec.Strategy.{
  DeviceListStrategies, envvar, volume_mounts, cdi_cri, includes, any_cdi_enabled, all_cdi_enabled,
  no_strategies, strategies_loop, new_device_list_strategies, new_device_list_strategies-includes,
}
use volcano_vgpu_device_plug.Rm.Devices.{Device}
use volcano_vgpu_device_plug.Rm.Devices.Unique.{listed, distinct}
use volcano_vgpu_device_plug.Plugin.Entries.Asked.{asked, unique_device_ids-asked}
use volcano_vgpu_device_plug.Plugin.Entries.{index, unique_device_ids, entries, length-entries}
use volcano_vgpu_device_plug.Plugin.Mig.{
  MigConfigSpec, Covers, contains_device, for_device, config_of, configs_from, transform_configs,
  process_mig_configs, process_mig_configs-Covers,
}
use volcano_vgpu_device_plug.Plugin.Mig.Template.{
  MigTemplate, extract_mig_templates, apply_template, extract_mig_templates-instance,
}
use volcano_vgpu_device_plug.Plugin.Mig.Settled.{apply_template_again}
use volcano_vgpu_device_plug.Plugin.Response.{
  Response, Plugin, Outside, device_list_env_var, update_response_for_mps,
  update_response_for_device_list, update_response_for_imex, update_for_flags, update_for_env_var,
  update_for_volume_mounts, update_for_device_specs, update_for_cdi, update_response_for_cdi,
  update_for_devices, cdi_device_names, add_cdi_devices, finish_response, get_allocate_response,
}
use volcano_vgpu_device_plug.Plugin.Response.Visible.{
  visible_devices, get_allocate_response-visible,
}

abbrev both : DeviceListStrategies
both =
    (envvar, true)
    ∷ (volume_mounts, false)
    ∷ (codes "cdi-annotations", false)
    ∷ (cdi_cri, true)
    ∷ []

two_strategies : new_device_list_strategies (envvar ∷ cdi_cri ∷ []) ≡ some both
unfolding new_device_list_strategies strategies_loop no_strategies lookup insert str_eq
two_strategies = refl

cri_included : includes cdi_cri both ≡ any (str_eq cdi_cri) (envvar ∷ cdi_cri ∷ [])
cri_included =
    new_device_list_strategies-includes (envvar ∷ cdi_cri ∷ []) both cdi_cri two_strategies

abbrev plugin : Plugin
plugin = record {
  strategies = both;
  cdi_annotation_prefix = [];
  imex_channels = [];
  mps = record {
    enabled = true;
    pipe_dir = codes "/p";
    shm_dir = codes "/s";
    host_pipe_dir = codes "/hp";
    host_shm_dir = codes "/hs";
  };
  gdrcopy_enabled = true;
  gds_enabled = false;
  mofed_enabled = false;
  pass_device_specs = false;
  nvidia_dev_root = codes "/";
}

abbrev outside : Outside
outside = record {
  qualified_name = λ class id. class ++ (codes "=" ++ id);
  additional_devices = [];
  default_cdi_annotation_prefix = codes "cdi/";
  update_annotations = λ id devices. some [];
  join_path = join (codes "/");
  file_exists = λ p. false;
  device_paths = λ ids. [];
}

abbrev answer : Response
answer = record {
  envs =
      (codes "CUDA_MPS_PIPE_DIRECTORY", codes "/p")
      ∷ (codes "NVIDIA_GDRCOPY", codes "enabled")
      ∷ (device_list_env_var, codes "A")
      ∷ [];
  mounts =
      record { container_path = codes "/p"; host_path = codes "/hp"; read_only = false }
      ∷ record { container_path = codes "/s"; host_path = codes "/hs"; read_only = false }
      ∷ [];
  annotations = [];
  cdi_devices = codes "gpu=A" ∷ [];
  devices = [];
}

answered :
    get_allocate_response outside plugin (codes "r") (codes "A::0" ∷ []) (codes "A" ∷ [])
    ≡ some answer
unfolding get_allocate_response finish_response update_for_cdi update_response_for_cdi
    update_for_devices cdi_device_names add_cdi_devices update_response_for_mps update_for_flags
    update_for_env_var update_response_for_device_list update_response_for_imex
    update_for_volume_mounts update_for_device_specs includes any_cdi_enabled all_cdi_enabled lookup
    insert str_eq has_prefix join
answered = refl

get_allocate_response-visible_example :
    lookup device_list_env_var answer.envs ≡ visible_devices plugin (codes "A" ∷ [])
get_allocate_response-visible_example =
    get_allocate_response-visible outside plugin (codes "r") (codes "A::0" ∷ []) (codes "A" ∷ [])
      answer answered

abbrev two_replicas : List Str
two_replicas = codes "A::0" ∷ codes "A::1" ∷ []

abbrev gpu : Device
gpu = record {
  id = codes "A";
  index = codes "0";
  paths = [];
  healthy = true;
  numa = none;
  total_memory = 1024;
  compute_capability = codes "8.0";
  replicas = 0;
}

unique_device_ids-asked_example :
    (distinct (unique_device_ids index ((codes "A::0", gpu) ∷ []) two_replicas) ≡ true)
    × (listed (codes "0") (unique_device_ids index ((codes "A::0", gpu) ∷ []) two_replicas)
        ≡ asked index ((codes "A::0", gpu) ∷ []) two_replicas (codes "0"))
unique_device_ids-asked_example =
    unique_device_ids-asked index ((codes "A::0", gpu) ∷ []) two_replicas (codes "0")

three_entries : length (entries (codes "-core-") 3 (gpu ∷ [])) ≡ length (gpu ∷ []) * 3
three_entries = length-entries (codes "-core-") 3 (gpu ∷ [])

abbrev config : List ℕ → MigConfigSpec
config devices = record {
  devices = devices;
  mig_enabled = true;
  mig_devices = (codes "1g.10gb", 7) ∷ [];
}

two_gpus :
    process_mig_configs (some ((codes "current", config (0 ∷ 1 ∷ []) ∷ []) ∷ [])) 2
    ≡ some (config (0 ∷ []) ∷ config (1 ∷ []) ∷ [])
unfolding process_mig_configs transform_configs configs_from config_of contains_device for_device
    lookup str_eq
two_gpus = refl

process_mig_configs-Covers_example : Covers 0 2 (config (0 ∷ []) ∷ config (1 ∷ []) ∷ [])
process_mig_configs-Covers_example =
    process_mig_configs-Covers (some ((codes "current", config (0 ∷ 1 ∷ []) ∷ []) ∷ [])) 2
      (config (0 ∷ []) ∷ config (1 ∷ []) ∷ []) two_gpus

abbrev template : List MigTemplate
template = record { name = codes "3g"; count = 1 } ∷ record { name = codes "4g"; count = 1 } ∷ []

names_differ : codes "4g" ≢ codes "3g"
unfolding str_eq
names_differ e = let h : false ≡ true = (str_eq_iff (codes "4g") (codes "3g")).1 e in cc

apply_template_again_example :
    apply_template 0 template (apply_template 0 template (config (0 ∷ []) ∷ [])).0
    ≡ ((apply_template 0 template (config (0 ∷ []) ∷ [])).0, false)
apply_template_again_example =
    apply_template_again 0 template (config (0 ∷ []) ∷ []) ((names_differ, tt), (tt, tt))

trimmed : trim_space (codes "g1") ≡ codes "g1"
unfolding trim_space trim_left trim_right
trimmed = refl

extract_mig_templates-instance_example :
    extract_mig_templates (codes "GPU-1" ++ 91 ∷ (codes "g1" ++ 45 ∷ (itoa (pos 2) ++ 93 ∷ [])))
    ≡ some (codes "g1", pos 2)
extract_mig_templates-instance_example =
    extract_mig_templates-instance (codes "GPU-1") (codes "g1") 2 (ground arith) (ground arith)
      trimmed (λ e. cc) (ground arith)
