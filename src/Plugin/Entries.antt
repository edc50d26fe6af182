-- ===== src/Plugin/Entries.antt =====
-- pkg/plugin/server.go: the devices that the plugin advertises to the kubelet, and the ids of a
-- request. The memory of a device is a parameter, in bytes, as the driver answers it; a driver error
-- is a panic, `none`. `cores_num` is int(100 * config.DeviceCoresScaling).
pub mod Asked
use volcano_vgpu_device_plug.Prelude.{
  ℕ, zero, suc, ◌+◌, ◌-◌, ◌*◌, ◌/◌, ◌%◌, ◌≡◌, refl, ap, Bool, true, Option, none, some, List, [],
  ◌∷◌, ◌++◌, arith, leb, ◌==◌, if◌then◌else◌, ◌>>=◌, length, length-append,
}
use volcano_vgpu_device_plug.GoText.{Str, codes, str_eq}
use volcano_vgpu_device_plug.GoNum.{format_uint}
use volcano_vgpu_device_plug.Rm.AnnotatedId.{get_ids}
use volcano_vgpu_device_plug.Rm.Devices.{
  Device, Devices, plugin_devices, subset, indices, unique_loop,
}

-- pluginapi.Device, without the topology, which is nil here.
pub record ApiDevice : Type 0 where
  pub id : Str
  pub healthy : Bool

abbrev pub device_entry_limit : ℕ
device_entry_limit = 60000

-- checkDeviceEntries on 64-bit words: the factor that its error names.
unfoldable pub check_device_entries : ℕ → ℕ → Option ℕ
check_device_entries count factor =
    if leb count device_entry_limit
    then none
    else some
        (((factor * count + device_entry_limit - 1) % 18446744073709551616) / device_entry_limit)

-- The loop `for i < n`, with the number of the next entry and how many are left.
unfoldable pub entries_from : Str → Device → ℕ → ℕ → List ApiDevice
entries_from middle dev i zero = []
entries_from middle dev i (suc n) =
    record { id = dev.id ++ (middle ++ format_uint i); healthy = dev.healthy }
    ∷ entries_from middle dev (suc i) n

unfoldable pub entries : Str → ℕ → List Device → List ApiDevice
unfolding entries_from
entries middle n [] = []
entries middle n (dev ∷ devs) = entries_from middle dev 0 n ++ entries middle n devs

-- int(memory.Total/(1024*1024)) / int(config.GPUMemoryFactor); a factor of 0 is a panic.
unfoldable pub registered_mem : ℕ → ℕ → Option ℕ
registered_mem total factor = if factor == 0 then none else some ((total / 1048576) / factor)

unfoldable pub memory_entries : (Str → Option ℕ) → ℕ → List Device → Option (List ApiDevice)
unfolding entries_from registered_mem
memory_entries memory_total factor [] = some []
memory_entries memory_total factor (dev ∷ devs) = do
  total ← memory_total dev.id
  n ← registered_mem total factor
  rest ← memory_entries memory_total factor devs
  some (entries_from (codes "-memory-") dev 0 n ++ rest)

-- What the plugin was configured with, as far as apiDevices reads it.
pub record Advertised : Type 0 where
  pub resource_mem : Str
  pub resource_cores : Str
  pub gpu_memory_factor : ℕ
  pub cores_num : ℕ
  pub device_split_count : ℕ

-- apiDevices of a resource; the warning of checkDeviceEntries is no part of the answer.
unfoldable pub api_devices : Advertised → (Str → Option ℕ) → Str → Devices → Option (List ApiDevice)
unfolding entries memory_entries
api_devices config memory_total resource devices =
    let devs = plugin_devices devices in
    if str_eq resource config.resource_mem
    then memory_entries memory_total config.gpu_memory_factor devs
    else if str_eq resource config.resource_cores
    then some (entries (codes "-core-") config.cores_num devs)
    else some (entries (codes "-") config.device_split_count devs)

-- DeviceIDStrategy
pub data DeviceIdStrategy : Type 0 where
  uuid index other_strategy : DeviceIdStrategy

unfoldable pub ids_by : DeviceIdStrategy → Devices → List Str → List Str
ids_by uuid devices ids = get_ids ids
ids_by index devices ids = indices (subset devices ids)
ids_by other_strategy devices ids = []

-- uniqueDeviceIDsFromAnnotatedDeviceIDs
unfoldable pub unique_device_ids : DeviceIdStrategy → Devices → List Str → List Str
unfolding ids_by unique_loop
unique_device_ids strategy devices ids = unique_loop [] (ids_by strategy devices ids)

length-entries_from :
    (middle : Str) (dev : Device) (i n : ℕ) → length (entries_from middle dev i n) ≡ n
unfolding entries_from
length-entries_from middle dev i zero = refl
length-entries_from middle dev i (suc n) = ap suc (length-entries_from middle dev (suc i) n)

-- The devices that the plugin advertises for shares of a GPU or of its cores: as many for each of the
-- devices as configured.
pub length-entries :
    (middle : Str) (n : ℕ) (devs : List Device) → length (entries middle n devs) ≡ length devs * n
unfolding entries
length-entries middle n [] = omega arith
length-entries middle n (dev ∷ devs) =
    rw
      (
        length-append (entries_from middle dev 0 n) (entries middle n devs),
        length-entries_from middle dev 0 n,
        length-entries middle n devs,
      )
      (omega arith)
