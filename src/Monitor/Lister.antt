-- ===== src/Monitor/Lister.antt =====
-- pkg/monitor/nvidia/cudevshr.go: the lister of containers. Directories and files are what the calls
-- of the operating system answer; the mapped region is its header alone.
pub mod Valid
use volcano_vgpu_device_plug.Prelude.{
  ℕ, ◌+◌, Bool, true, false, not, ◌&&◌, ◌||◌, Option, none, some, List, [], ◌∷◌, ◌++◌, ltb, length,
  ◌==◌, any, is_none, get_elem?, if◌then◌else◌, ◌>>=◌,
}
use volcano_vgpu_device_plug.Prelude.Int.{ℤ, pos, eq_ℤ}
use volcano_vgpu_device_plug.GoText.{Str, codes, contains, split}
use volcano_vgpu_device_plug.Kube.Dict.{Dict, lookup, insert, remove}

-- The first fields of the region.
pub record Header : Type 0 where
  pub initialized_flag : ℤ
  pub major_version : ℤ

-- What os.Stat, os.OpenFile and Mmap answer of a cache file.
pub record CacheFile : Type 0 where
  pub size : Option ℕ
  pub opened : Bool
  pub mapped : Option Header

-- The layout of the region, by v0.CastSpec or v1.CastSpec.
pub data Info : Type 0 where
  v0 v1 : Info

-- loadCache: an error, nil, or the usage.
pub data Cache : Type 0 where
  not_loaded no_cache : Cache
  usage : Info → Cache

abbrev pub shared_region_magic_flag : ℤ
shared_region_magic_flag = pos 19920718

-- Behind Mmap.
unfoldable pub cast_cache : ℕ → Header → Cache
cast_cache size head =
    if not (eq_ℤ head.initialized_flag shared_region_magic_flag)
    then not_loaded
    else if size == 1197897
    then usage v0
    else if eq_ℤ head.major_version (pos 1)
    then usage v1
    else not_loaded

-- Behind the choice of the cache file; the header has 12 bytes.
unfoldable pub open_cache : CacheFile → Cache
unfolding cast_cache
open_cache f = elim (f.size) [
  | none ↦ not_loaded
  | some size ↦
      if ltb size 12 || not f.opened
      then not_loaded
      else elim (f.mapped) [ none ↦ not_loaded | some head ↦ cast_cache size head ]
]

-- The loop for the name of the cache file.
unfoldable pub cache_name : List Str → Option Str
cache_name [] = none
cache_name (name ∷ files) =
    if contains name (codes "libvgpu.so") || not (contains name (codes ".cache"))
    then cache_name files
    else some name

-- loadCache of a directory: its files, if it can be read, and each of them.
unfoldable pub load_cache : Option (List Str) → (Str → CacheFile) → Cache
unfolding open_cache cache_name
load_cache none file = not_loaded
load_cache (some files) file =
    if ltb 2 (length files)
    then not_loaded
    else if length files == 0
    then no_cache
    else elim (cache_name files) [ none ↦ no_cache | some name ↦ open_cache (file name) ]

-- isValidPod, with the UIDs of the pods.
unfoldable pub is_valid_pod : Str → List Str → Bool
is_valid_pod name uids = any (λ uid. contains name uid) uids

-- An entry of the directory of containers, with the time of its last change, if os.Stat answers.
pub record Entry : Type 0 where
  pub name : Str
  pub is_dir : Bool
  pub modified : Option ℕ
  pub cache : Cache

pub record ContainerUsage : Type 0 where
  pub pod_uid : Str
  pub container_name : Str
  pub info : Info

-- l.containers, and the directories that os.RemoveAll was called for.
pub record ContainerLister : Type 0 where
  pub containers : Dict ContainerUsage
  pub removed : List Str

-- Changed in the last 300 seconds.
abbrev pub is_recent : ℕ → Entry → Bool
is_recent now e = elim (e.modified) [ none ↦ false | some t ↦ ltb now (t + 300) ]

-- A loaded cache of a directory; a name without an underscore is a panic.
unfoldable pub add_container : Str → Info → ContainerLister → Option ContainerLister
add_container name info l = do
  pod_uid ← get_elem? (split 95 name) 0
  container_name ← get_elem? (split 95 name) 1
  some (record l {
    containers =
        insert name (record { pod_uid = pod_uid; container_name = container_name; info = info })
          l.containers;
  })

abbrev pub add_cache : Str → Cache → ContainerLister → Option ContainerLister
add_cache name not_loaded l = some l
add_cache name no_cache l = some l
add_cache name (usage info) l = add_container name info l

-- One round of the loop in Update.
unfoldable pub update_entry : List Str → ℕ → Entry → ContainerLister → Option ContainerLister
unfolding is_valid_pod add_container
update_entry uids now e l =
    if not e.is_dir
    then some l
    else if not (is_valid_pod e.name uids)
    then (if is_recent now e
        then some l
        else some
            (record { containers = remove e.name l.containers; removed = e.name ∷ l.removed }))
    else if not (is_none (lookup e.name l.containers))
    then some l
    else add_cache e.name e.cache l

unfoldable pub update_loop : List Str → ℕ → List Entry → ContainerLister → Option ContainerLister
unfolding update_entry
update_loop uids now [] l = some l
update_loop uids now (e ∷ entries) l = do
  l' ← update_entry uids now e l
  update_loop uids now entries l'

-- Update: the list of pods and the directory may fail, which is an error, `false`.
unfoldable pub update :
    Option (List Str) → ℕ → Option (List Entry) → ContainerLister → Option (Bool × ContainerLister)
unfolding update_loop
update none now entries l = some (false, l)
update (some uids) now none l = some (false, l)
update (some uids) now (some entries) l = do l' ← update_loop uids now entries l; some (true, l')
