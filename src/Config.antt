-- ===== src/Config.antt =====
-- pkg/config/config.go: which devices are not registered; and LoadNvidiaConfig of pkg/util/util.go,
-- with the flags, the config map and the parsed file as arguments. `F` stands for float64, of which
-- only the test for being above 0 is used.
pub mod Precedence
use volcano_vgpu_device_plug.Prelude.{
  ℕ, Bool, true, false, ◌&&◌, ◌||◌, Option, none, some, List, [], ◌∷◌, ltb, length, ◌==◌, any,
  if◌then◌else◌,
}
use volcano_vgpu_device_plug.GoText.{Str, codes, str_eq}

pub record FilterDevice : Type 0 where
  pub uuid : List Str
  pub index : List ℕ

-- uuidMap and indexMap, as the lists of their keys.
pub record Filter : Type 0 where
  pub uuids : List Str
  pub indexes : List ℕ

-- initFilter
unfoldable pub init_filter : Option FilterDevice → Filter
init_filter none = record { uuids = []; indexes = [] }
init_filter (some f) = record {
  uuids = if ltb 0 (length f.uuid) then f.uuid else [];
  indexes = if ltb 0 (length f.index) then f.index else [];
}

-- FilterDeviceToRegister
unfoldable pub filter_device_to_register : Filter → Str → ℕ → Bool
filter_device_to_register f uuid index =
    if (length f.uuids == 0) && (length f.indexes == 0)
    then false
    else if any (str_eq uuid) f.uuids
    then true
    else if any (λ i. index == i) f.indexes
    then true
    else false

-- The fields that the loading changes or reads.
pub record NvidiaConfig (F : Type 0) : Type 0 where
  pub resource_count_name : Str
  pub resource_memory_name : Str
  pub resource_core_name : Str
  pub resource_memory_percentage_name : Str
  pub device_split_count : ℕ
  pub device_memory_scaling : F
  pub device_core_scaling : F
  pub gpu_memory_factor : ℕ

-- An element of Nodeconfig.
pub record NodeConfig (F : Type 0) : Type 0 where
  pub name : Str
  pub operating_mode : Str
  pub devicememoryscaling : F
  pub devicecorescaling : F
  pub devicesplitcount : ℕ
  pub filter_device : Option FilterDevice

-- The configuration, with config.DevicePluginFilterDevice and config.Mode.
pub record Loaded (F : Type 0) : Type 0 where
  pub config : NvidiaConfig F
  pub filter : Option FilterDevice
  pub mode : Str

-- The flags that the user has set.
pub record Flags (F : Type 0) : Type 0 where
  pub split_count : Option ℕ
  pub core_scaling : Option F
  pub memory_factor : Option ℕ

abbrev pub or_else : {A : Type 0} → Option A → A → A
or_else none a = a
or_else (some b) a = b

-- val.FilterDevice, unless it is nil or empty.
abbrev pub filter_or : Option FilterDevice → Option FilterDevice → Option FilterDevice
filter_or none old = old
filter_or (some f) old = if ltb 0 (length f.uuid) || ltb 0 (length f.index) then some f else old

module _ {F : Type 0} (positive : F → Bool) (node_name : Str) where
  -- The body of the loop in readFromConfigFile for an entry of this node.
  unfoldable pub read_entry : NodeConfig F → Loaded F → Loaded F
  read_entry val l = record {
    config = record l.config {
      device_memory_scaling =
          if positive val.devicememoryscaling
          then val.devicememoryscaling
          else l.config.device_memory_scaling;
      device_core_scaling =
          if positive val.devicecorescaling
          then val.devicecorescaling
          else l.config.device_core_scaling;
      device_split_count =
          if ltb 0 val.devicesplitcount then val.devicesplitcount else l.config.device_split_count;
    };
    filter = filter_or val.filter_device l.filter;
    mode = if ltb 0 (length val.operating_mode) then val.operating_mode else l.mode;
  }

  unfoldable pub read_loop : List (NodeConfig F) → Loaded F → Loaded F
  unfolding read_entry
  read_loop [] l = l
  read_loop (val ∷ nodeconfig) l =
      read_loop nodeconfig (if str_eq node_name val.name then read_entry val l else l)

  -- readFromConfigFile: `none` is a file that cannot be read or parsed.
  unfoldable pub read_from_config_file : Option (List (NodeConfig F)) → Loaded F → Loaded F
  unfolding read_loop
  read_from_config_file none l = record l { mode = codes "hami-core" }
  read_from_config_file (some nodeconfig) l =
      read_loop nodeconfig (record l { mode = codes "hami-core" })

  -- LoadNvidiaConfig: `zero_config` has the zero value in each field.
  unfoldable pub load_nvidia_config :
      NvidiaConfig F → Flags F → Option (NvidiaConfig F) → Option (List (NodeConfig F)) → Loaded F
  unfolding read_from_config_file
  load_nvidia_config zero_config flags config_map file =
      let nvidia_config = or_else config_map zero_config in
      read_from_config_file file (record {
        config = record nvidia_config {
          device_split_count = or_else flags.split_count nvidia_config.device_split_count;
          device_core_scaling = or_else flags.core_scaling nvidia_config.device_core_scaling;
          gpu_memory_factor = or_else flags.memory_factor nvidia_config.gpu_memory_factor;
        };
        filter = none;
        mode = [];
      })
