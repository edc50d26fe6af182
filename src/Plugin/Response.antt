-- ===== src/Plugin/Response.antt =====
-- pkg/plugin/server.go: the answer to an allocation. The handler of pkg/cdi, the library of the
-- container device interface, filepath.Join and os.Stat are parameters, with the texts that
-- pkg/mps gives for its directories.
pub mod Visible
use volcano_vgpu_device_plug.Prelude.{
  ℕ, Bool, true, false, not, ◌&&◌, Option, none, some, List, [], ◌∷◌, ◌++◌, map, ltb, length, any,
  if◌then◌else◌, ◌>>=◌,
}
use volcano_vgpu_device_plug.GoText.{Str, codes, str_eq, join, trim_prefix}
use volcano_vgpu_device_plug.Kube.Dict.{Dict, insert}
use volcano_vgpu_device_plug.Spec.Strategy.{
  DeviceListStrategies, envvar, volume_mounts, cdi_annotations, cdi_cri, includes, any_cdi_enabled,
  all_cdi_enabled,
}

pub record Mount : Type 0 where
  pub container_path : Str
  pub host_path : Str
  pub read_only : Bool

pub record DeviceSpec : Type 0 where
  pub container_path : Str
  pub host_path : Str
  pub permissions : Str

pub record Response : Type 0 where
  pub envs : Dict Str
  pub mounts : List Mount
  pub annotations : Dict Str
  pub cdi_devices : List Str
  pub devices : List DeviceSpec

pub record Channel : Type 0 where
  pub id : Str
  pub path : Str

-- mpsOptions, with the directories of its daemon and of its host root.
pub record Mps : Type 0 where
  pub enabled : Bool
  pub pipe_dir : Str
  pub shm_dir : Str
  pub host_pipe_dir : Str
  pub host_shm_dir : Str

-- The plugin, as far as an answer depends on it; a nil flag is `false`.
pub record Plugin : Type 0 where
  pub strategies : DeviceListStrategies
  pub cdi_annotation_prefix : Str
  pub imex_channels : List Channel
  pub mps : Mps
  pub gdrcopy_enabled : Bool
  pub gds_enabled : Bool
  pub mofed_enabled : Bool
  pub pass_device_specs : Bool
  pub nvidia_dev_root : Str

-- The code that the plugin calls. UpdateAnnotations answers with an error or a map.
pub record Outside : Type 0 where
  pub qualified_name : Str → Str → Str
  pub additional_devices : List Str
  pub default_cdi_annotation_prefix : Str
  pub update_annotations : Str → List Str → Option (Dict Str)
  pub join_path : List Str → Str
  pub file_exists : Str → Bool
  pub device_paths : List Str → List Str

abbrev pub device_list_env_var : Str
device_list_env_var = codes "NVIDIA_VISIBLE_DEVICES"

abbrev pub volume_mounts_host_path : Str
volume_mounts_host_path = codes "/dev/null"

abbrev pub volume_mounts_container_path_root : Str
volume_mounts_container_path_root = codes "/var/run/nvidia-container-devices"

abbrev pub imex_channel_env_var : Str
imex_channel_env_var = codes "NVIDIA_IMEX_CHANNELS"

abbrev pub empty_response : Response
empty_response = record { envs = []; mounts = []; annotations = []; cdi_devices = []; devices = [] }

-- response.Envs[key] = value
abbrev pub set_env : Str → Str → Response → Response
set_env key value r = record r { envs = insert key value r.envs }

abbrev pub set_env_if : Bool → Str → Str → Response → Response
set_env_if b key value r = if b then set_env key value r else r

-- updateReponse of pkg/plugin/mps.go
unfoldable pub update_response_for_mps : Mps → Response → Response
update_response_for_mps m r =
    if m.enabled
    then record r {
      envs = insert (codes "CUDA_MPS_PIPE_DIRECTORY") m.pipe_dir r.envs;
      mounts =
          r.mounts
          ++ record { container_path = m.pipe_dir; host_path = m.host_pipe_dir; read_only = false }
            ∷ record { container_path = m.shm_dir; host_path = m.host_shm_dir; read_only = false }
            ∷ [];
    }
    else r

-- updateResponseForDeviceListEnvVar
unfoldable pub update_response_for_device_list : List Str → Response → Response
update_response_for_device_list device_ids r =
    set_env device_list_env_var (join (44 ∷ []) device_ids) r

abbrev pub channel_ids : List Channel → List Str
channel_ids channels = map (λ (c : Channel). c.id) channels

-- updateResponseForImexChannelsEnvVar
unfoldable pub update_response_for_imex : List Channel → Response → Response
update_response_for_imex channels r =
    set_env_if (ltb 0 (length (channel_ids channels))) imex_channel_env_var
      (join (44 ∷ []) (channel_ids channels)) r

-- The keys under a custom prefix, in the loop of getCDIDeviceAnnotations.
unfoldable pub with_prefix : Str → Str → Dict Str → Dict Str → Dict Str
with_prefix old_prefix new_prefix [] updated = updated
with_prefix old_prefix new_prefix ((k, v) ∷ annotations) updated =
    with_prefix old_prefix new_prefix annotations
      (insert (new_prefix ++ trim_prefix k old_prefix) v updated)

module _ (outside : Outside) (plugin : Plugin) where
  -- updateResponseForDeviceMounts
  unfoldable pub update_response_for_device_mounts : List Str → Response → Response
  unfolding update_response_for_device_list
  update_response_for_device_mounts device_ids r =
      let listed = update_response_for_device_list (volume_mounts_container_path_root ∷ []) r in
      record listed {
        mounts =
            listed.mounts
            ++ (map
                  (λ (id : Str). record {
                    container_path =
                        outside.join_path (volume_mounts_container_path_root ∷ id ∷ []);
                    host_path = volume_mounts_host_path;
                    read_only = false;
                  })
                  device_ids
                ++ map
                    (λ (c : Channel). record {
                      container_path =
                          outside.join_path
                            (volume_mounts_container_path_root ∷ codes "imex" ∷ c.id ∷ []);
                      host_path = volume_mounts_host_path;
                      read_only = false;
                    })
                    plugin.imex_channels);
      }

  -- getCDIDeviceAnnotations
  unfoldable pub get_cdi_device_annotations : Str → List Str → Option (Dict Str)
  unfolding with_prefix
  get_cdi_device_annotations id devices = do
    annotations ← outside.update_annotations id devices
    if str_eq plugin.cdi_annotation_prefix outside.default_cdi_annotation_prefix
        then some annotations
        else some (
            with_prefix outside.default_cdi_annotation_prefix plugin.cdi_annotation_prefix
              annotations [])

  -- The devices of updateResponseForCDI.
  unfoldable pub cdi_device_names : List Str → List Str
  cdi_device_names device_ids =
      map (outside.qualified_name (codes "gpu")) device_ids
      ++ (map (λ (c : Channel). outside.qualified_name (codes "imex-channel") c.id)
            plugin.imex_channels
          ++ outside.additional_devices)

  unfoldable pub add_cdi_devices : List Str → Response → Response
  add_cdi_devices devices r =
      if includes cdi_cri plugin.strategies
      then record r { cdi_devices = r.cdi_devices ++ devices }
      else r

  unfoldable pub update_for_devices : Str → List Str → Response → Option Response
  unfolding get_cdi_device_annotations add_cdi_devices
  update_for_devices response_id [] r = some r
  update_for_devices response_id (d ∷ devices) r =
      if includes cdi_annotations plugin.strategies
      then (do
        annotations ← get_cdi_device_annotations response_id (d ∷ devices)
        some (add_cdi_devices (d ∷ devices) (record r { annotations = annotations })))
      else some (add_cdi_devices (d ∷ devices) r)

  -- updateResponseForCDI
  unfoldable pub update_response_for_cdi : Str → List Str → Response → Option Response
  unfolding cdi_device_names update_for_devices
  update_response_for_cdi response_id device_ids r =
      update_for_devices response_id (cdi_device_names device_ids) r

  -- The loop over the paths of apiDeviceSpecs; an optional path is skipped if it is not there.
  unfoldable pub path_specs : Str → List Str → List DeviceSpec
  path_specs dev_root [] = []
  path_specs dev_root (p ∷ paths) =
      let rest = path_specs dev_root paths in
      if any (str_eq p) (
          codes "/dev/nvidiactl"
          ∷ codes "/dev/nvidia-uvm"
          ∷ codes "/dev/nvidia-uvm-tools"
          ∷ codes "/dev/nvidia-modeset"
          ∷ [])
        && not (outside.file_exists p)
      then rest
      else record {
        container_path = p;
        host_path = outside.join_path (dev_root ∷ p ∷ []);
        permissions = codes "rw";
      }
        ∷ rest

  -- apiDeviceSpecs
  unfoldable pub api_device_specs : Str → List Str → List DeviceSpec
  unfolding path_specs
  api_device_specs dev_root ids =
      path_specs dev_root (outside.device_paths ids)
      ++ map
          (λ (c : Channel). record {
            container_path = c.path;
            host_path = outside.join_path (dev_root ∷ c.path ∷ []);
            permissions = codes "rw";
          })
          plugin.imex_channels

  -- The flags of getAllocateResponse.
  unfoldable pub update_for_flags : Response → Response
  update_for_flags r = set_env_if plugin.mofed_enabled (codes "NVIDIA_MOFED") (codes "enabled") (
      set_env_if plugin.gds_enabled (codes "NVIDIA_GDS") (codes "enabled")
        (set_env_if plugin.gdrcopy_enabled (codes "NVIDIA_GDRCOPY") (codes "enabled") r))

  unfoldable pub update_for_env_var : List Str → Response → Response
  unfolding update_response_for_device_list update_response_for_imex
  update_for_env_var device_ids r =
      if includes envvar plugin.strategies
      then update_response_for_imex plugin.imex_channels
          (update_response_for_device_list device_ids r)
      else r

  unfoldable pub update_for_volume_mounts : List Str → Response → Response
  unfolding update_response_for_device_mounts
  update_for_volume_mounts device_ids r =
      if includes volume_mounts plugin.strategies
      then update_response_for_device_mounts device_ids r
      else r

  unfoldable pub update_for_device_specs : List Str → Response → Response
  unfolding api_device_specs
  update_for_device_specs request_ids r =
      if plugin.pass_device_specs
      then record r { devices = r.devices ++ api_device_specs plugin.nvidia_dev_root request_ids }
      else r

  unfoldable pub update_for_cdi : Str → List Str → Response → Option Response
  unfolding update_response_for_cdi
  update_for_cdi response_id device_ids r =
      if any_cdi_enabled plugin.strategies
      then update_response_for_cdi response_id device_ids r
      else some r

  -- The rest of getAllocateResponse behind the CDI strategies.
  unfoldable pub finish_response : List Str → List Str → Response → Response
  unfolding update_response_for_mps update_for_flags update_for_env_var update_for_volume_mounts
      update_for_device_specs
  finish_response request_ids device_ids r =
      let flagged = update_for_flags (update_response_for_mps plugin.mps r) in
      if all_cdi_enabled plugin.strategies
      then flagged
      else update_for_device_specs request_ids
          (update_for_volume_mounts device_ids (update_for_env_var device_ids flagged))

  -- getAllocateResponse, at the unique ids of the request and a fresh response id; `none` is an error.
  unfoldable pub get_allocate_response : Str → List Str → List Str → Option Response
  unfolding update_for_cdi finish_response
  get_allocate_response response_id request_ids device_ids = do
    r ← update_for_cdi response_id device_ids empty_response
    some (finish_response request_ids device_ids r)
