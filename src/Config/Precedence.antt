-- ===== src/Config/Precedence.antt =====
-- Which source of the configuration a value comes from.
use volcano_vgpu_device_plug.Prelude.{
  ℕ, ◌≡◌, refl, ◌∙◌, Bool, true, false, ◌||◌, Option, none, some, List, [], ◌∷◌, ltb, length,
  if◌then◌else◌,
}
use volcano_vgpu_device_plug.GoText.{Str, codes, str_eq}
use volcano_vgpu_device_plug.Config.{
  FilterDevice, NvidiaConfig, NodeConfig, Loaded, Flags, or_else, filter_or, read_entry, read_loop,
  read_from_config_file, load_nvidia_config,
}

-- The last value that an entry of the node gives.
abbrev pub last_given :
    {F A : Type 0} → (NodeConfig F → Option A) → Str → List (NodeConfig F) → Option A
last_given given node_name [] = none
last_given given node_name (val ∷ vals) = elim (last_given given node_name vals) [
  | some a ↦ some a
  | none ↦ if str_eq node_name val.name then given val else none
]

abbrev pub given_if : {A : Type 0} → Bool → A → Option A
given_if true a = some a
given_if false a = none

abbrev pub given_split_count : {F : Type 0} → NodeConfig F → Option ℕ
given_split_count val = given_if (ltb 0 val.devicesplitcount) val.devicesplitcount

abbrev pub given_core_scaling : {F : Type 0} → (F → Bool) → NodeConfig F → Option F
given_core_scaling positive val = given_if (positive val.devicecorescaling) val.devicecorescaling

abbrev pub given_mode : {F : Type 0} → NodeConfig F → Option Str
given_mode val = given_if (ltb 0 (length val.operating_mode)) val.operating_mode

-- A filter that names a device.
abbrev pub is_filter : FilterDevice → Bool
is_filter f = ltb 0 (length f.uuid) || ltb 0 (length f.index)

abbrev pub given_filter : {F : Type 0} → NodeConfig F → Option (Option FilterDevice)
given_filter val = elim (val.filter_device) [
  | none ↦ none
  | some f ↦ given_if (is_filter f) (some f)
]

-- No entries, if the file cannot be used.
abbrev pub entries_of : {F : Type 0} → Option (List (NodeConfig F)) → List (NodeConfig F)
entries_of none = []
entries_of (some l) = l

module _ {F : Type 0} (positive : F → Bool) (node_name : Str) where
  -- A part of the state of which each entry of the node may give a new value.
  last_given-read_loop :
      {A : Type 0} (given : NodeConfig F → Option A) (get : Loaded F → A)
      → ((val : NodeConfig F) (l : Loaded F)
          → get (read_entry positive node_name val l) ≡ or_else (given val) (get l))
      → (vals : List (NodeConfig F)) (l : Loaded F)
      → get (read_loop positive node_name vals l)
        ≡ or_else (last_given given node_name vals) (get l)
  unfolding read_loop
  last_given-read_loop given get law [] l = refl
  last_given-read_loop {A = A} given get law (val ∷ vals) l =
      last_given-read_loop given get law vals _
      ∙ one (last_given given node_name vals) (str_eq node_name val.name)
    where
      one :
          (o : Option A) (b : Bool)
          → or_else o (get (if b then read_entry positive node_name val l else l))
            ≡ or_else (elim o [ some a ↦ some a | none ↦ if b then given val else none ]) (get l)
      one (some a) b = refl
      one none true = law val l
      one none false = refl

  last_given-read_file :
      {A : Type 0} (given : NodeConfig F → Option A) (get : Loaded F → A)
      → ((val : NodeConfig F) (l : Loaded F)
          → get (read_entry positive node_name val l) ≡ or_else (given val) (get l))
      → (file : Option (List (NodeConfig F))) (l : Loaded F)
      → get (read_from_config_file positive node_name file l)
        ≡ or_else
            (last_given given node_name (entries_of file))
            (get (record l { mode = codes "hami-core" }))
  unfolding read_from_config_file
  last_given-read_file given get law none l = refl
  last_given-read_file given get law (some vals) l = last_given-read_loop given get law vals _

  read_loop-memory_factor :
      (vals : List (NodeConfig F)) (l : Loaded F)
      → (read_loop positive node_name vals l).config.gpu_memory_factor ≡ l.config.gpu_memory_factor
  unfolding read_loop read_entry
  read_loop-memory_factor [] l = refl
  read_loop-memory_factor (val ∷ vals) l =
      read_loop-memory_factor vals _ ∙ one (str_eq node_name val.name)
    where
      one :
          (b : Bool)
          → (if b then read_entry positive node_name val l else l).config.gpu_memory_factor
            ≡ l.config.gpu_memory_factor
      one true = refl
      one false = refl

  read_file-memory_factor :
      (file : Option (List (NodeConfig F))) (l : Loaded F)
      → (read_from_config_file positive node_name file l).config.gpu_memory_factor
        ≡ l.config.gpu_memory_factor
  unfolding read_from_config_file
  read_file-memory_factor none l = refl
  read_file-memory_factor (some vals) l = read_loop-memory_factor vals _

  if-given : {A : Type 0} (b : Bool) (a a' : A) → (if b then a else a') ≡ or_else (given_if b a) a'
  if-given true a a' = refl
  if-given false a a' = refl

  filter-given :
      (o old : Option FilterDevice)
      → filter_or o old
        ≡ or_else (elim o [ none ↦ none | some f ↦ given_if (is_filter f) (some f) ]) old
  filter-given none old = refl
  filter-given (some f) old = if-given (is_filter f) (some f) old

-- What LoadNvidiaConfig loads: the split count and the scaling of cores come from the last entry of the
-- file for the node that gives one above 0, and else from the flag, and else from the config map; the
-- memory factor from the flag, and else from the config map; the mode from the last entry that gives
-- one, and else is hami-core; the filter from the last entry with one that names a device.
pub load_nvidia_config-precedence :
    {F : Type 0} (positive : F → Bool) (node_name : Str) (zero_config : NvidiaConfig F)
    (flags : Flags F) (config_map : Option (NvidiaConfig F)) (file : Option (List (NodeConfig F)))
    → (let l = load_nvidia_config positive node_name zero_config flags config_map file in
        let map = or_else config_map zero_config in
        (l.config.device_split_count
          ≡ or_else
              (last_given given_split_count node_name (entries_of file))
              (or_else flags.split_count map.device_split_count))
        × (l.config.device_core_scaling
            ≡ or_else
                (last_given (given_core_scaling positive) node_name (entries_of file))
                (or_else flags.core_scaling map.device_core_scaling))
        × (l.config.gpu_memory_factor ≡ or_else flags.memory_factor map.gpu_memory_factor)
        × (l.mode ≡ or_else (last_given given_mode node_name (entries_of file)) (codes "hami-core"))
        × (l.filter ≡ or_else (last_given given_filter node_name (entries_of file)) none))
unfolding load_nvidia_config read_entry
load_nvidia_config-precedence {F = F} positive node_name zero_config flags config_map file = (
  last_given-read_file positive node_name given_split_count
      (λ (l : Loaded F). l.config.device_split_count)
      (λ val l.
        if-given positive node_name (ltb 0 val.devicesplitcount) val.devicesplitcount
          l.config.device_split_count)
      file _,
  last_given-read_file positive node_name (given_core_scaling positive)
      (λ (l : Loaded F). l.config.device_core_scaling)
      (λ val l.
        if-given positive node_name (positive val.devicecorescaling) val.devicecorescaling
          l.config.device_core_scaling)
      file _,
  read_file-memory_factor positive node_name file _,
  last_given-read_file positive node_name given_mode (λ (l : Loaded F). l.mode)
      (λ val l.
        if-given positive node_name (ltb 0 (length val.operating_mode)) val.operating_mode l.mode)
      file _,
  last_given-read_file positive node_name given_filter (λ (l : Loaded F). l.filter)
      (λ val l. filter-given positive node_name val.filter_device l.filter) file _,
)
