-- ===== src/Plugin/Response/Visible.antt =====
-- What an answer says about the visible devices.
use volcano_vgpu_device_plug.Prelude.{
  ◌≡◌, refl, sym, ap, ◌∙◌, Bool, true, false, Option, none, some, List, [], ◌∷◌, arith,
  if◌then◌else◌, >>=-eq-some, some_eq, inl, inr, Bool-cases,
}
use volcano_vgpu_device_plug.GoText.{Str, codes, str_eq, join}
use volcano_vgpu_device_plug.Kube.Dict.{Dict, lookup, insert, lookup-insert}
use volcano_vgpu_device_plug.Spec.Strategy.{
  envvar, volume_mounts, cdi_annotations, includes, any_cdi_enabled, all_cdi_enabled,
}
use volcano_vgpu_device_plug.Plugin.Response.{
  Response, Channel, Mps, Plugin, Outside, device_list_env_var, volume_mounts_container_path_root,
  imex_channel_env_var, empty_response, set_env_if, channel_ids, update_response_for_mps,
  update_response_for_device_list, update_response_for_imex, update_response_for_device_mounts,
  get_cdi_device_annotations, cdi_device_names, add_cdi_devices, update_for_devices,
  update_response_for_cdi, update_for_flags, update_for_env_var, update_for_volume_mounts,
  update_for_device_specs, update_for_cdi, finish_response, get_allocate_response,
}

-- The devices that the container sees, by the strategies: the directory of the mounts, the ids, or
-- nothing.
abbrev pub visible_devices : Plugin → List Str → Option Str
visible_devices plugin device_ids =
    if all_cdi_enabled plugin.strategies
    then none
    else if includes volume_mounts plugin.strategies
    then some volume_mounts_container_path_root
    else if includes envvar plugin.strategies
    then some (join (44 ∷ []) device_ids)
    else none

abbrev seen : Response → Option Str
seen r = lookup device_list_env_var r.envs

lookup-insert_other :
    (key value : Str) (m : Dict Str)
    → str_eq key device_list_env_var ≡ false
    → lookup device_list_env_var (insert key value m) ≡ lookup device_list_env_var m
lookup-insert_other key value m h = lookup-insert key device_list_env_var value m ∙ rw h refl

seen-set_env_if :
    (b : Bool) (key value : Str) (r : Response)
    → str_eq key device_list_env_var ≡ false
    → seen (set_env_if b key value r) ≡ seen r
seen-set_env_if true key value r h = lookup-insert_other key value r.envs h
seen-set_env_if false key value r h = refl

seen-mps : (m : Mps) (r : Response) → seen (update_response_for_mps m r) ≡ seen r
unfolding update_response_for_mps str_eq
seen-mps m r = elim (Bool-cases m.enabled) [
  | inl e ↦ rw e (lookup-insert_other (codes "CUDA_MPS_PIPE_DIRECTORY") m.pipe_dir r.envs refl)
  | inr e ↦ rw e refl
]

seen-list :
    (device_ids : List Str) (r : Response)
    → seen (update_response_for_device_list device_ids r) ≡ some (join (44 ∷ []) device_ids)
unfolding update_response_for_device_list str_eq
seen-list device_ids r =
    lookup-insert device_list_env_var device_list_env_var (join (44 ∷ []) device_ids) r.envs

seen-imex :
    (channels : List Channel) (r : Response) → seen (update_response_for_imex channels r) ≡ seen r
unfolding update_response_for_imex str_eq
seen-imex channels r =
    seen-set_env_if _ imex_channel_env_var (join (44 ∷ []) (channel_ids channels)) r refl

module _ (outside : Outside) (plugin : Plugin) where
  add_cdi_devices-envs :
      (devices : List Str) (r : Response) → (add_cdi_devices outside plugin devices r).envs ≡ r.envs
  unfolding add_cdi_devices
  add_cdi_devices-envs devices r = ground arith

  update_for_devices-envs :
      (response_id : Str) (devices : List Str) (r r' : Response)
      → update_for_devices outside plugin response_id devices r ≡ some r'
      → r'.envs ≡ r.envs
  unfolding update_for_devices
  update_for_devices-envs response_id [] r r' h = ground arith
  update_for_devices-envs response_id (d ∷ devices) r r' h =
      elim (Bool-cases (includes cdi_annotations plugin.strategies)) [
        | inl e ↦
            let (annotations, _, h1) =
              >>=-eq-some (get_cdi_device_annotations outside plugin response_id (d ∷ devices))
                (λ (annotations : Dict Str). some (
                  add_cdi_devices outside plugin (d ∷ devices)
                    (record r { annotations = annotations })))
                (sym (rw e refl) ∙ h) in
            sym (ap (λ (x : Response). x.envs) (some_eq h1))
            ∙ add_cdi_devices-envs (d ∷ devices) (record r { annotations = annotations })
        | inr e ↦
            sym (ap (λ (x : Response). x.envs) (some_eq (rw e at h)))
            ∙ add_cdi_devices-envs (d ∷ devices) r
      ]

  update_for_cdi-envs :
      (response_id : Str) (device_ids : List Str) (r r' : Response)
      → update_for_cdi outside plugin response_id device_ids r ≡ some r'
      → r'.envs ≡ r.envs
  unfolding update_for_cdi update_response_for_cdi
  update_for_cdi-envs response_id device_ids r r' h =
      elim (Bool-cases (any_cdi_enabled plugin.strategies)) [
        | inl e ↦
            update_for_devices-envs response_id (cdi_device_names outside plugin device_ids) r r'
              (sym (rw e refl) ∙ h)
        | inr e ↦ sym (ap (λ (x : Response). x.envs) (some_eq (rw e at h)))
      ]

  seen-flags : (r : Response) → seen (update_for_flags outside plugin r) ≡ seen r
  unfolding update_for_flags str_eq
  seen-flags r =
      let r1 = set_env_if plugin.gdrcopy_enabled (codes "NVIDIA_GDRCOPY") (codes "enabled") r in
      let r2 = set_env_if plugin.gds_enabled (codes "NVIDIA_GDS") (codes "enabled") r1 in
      seen-set_env_if plugin.mofed_enabled (codes "NVIDIA_MOFED") (codes "enabled") r2 refl
      ∙ (seen-set_env_if plugin.gds_enabled (codes "NVIDIA_GDS") (codes "enabled") r1 refl
          ∙ seen-set_env_if plugin.gdrcopy_enabled (codes "NVIDIA_GDRCOPY") (codes "enabled") r
              refl)

  seen-specs :
      (request_ids : List Str) (r : Response)
      → seen (update_for_device_specs outside plugin request_ids r) ≡ seen r
  unfolding update_for_device_specs
  seen-specs request_ids r = elim (Bool-cases plugin.pass_device_specs) [
    | inl e ↦ rw e refl
    | inr e ↦ rw e refl
  ]

  seen-env_var :
      (device_ids : List Str) (r : Response)
      → seen (update_for_env_var outside plugin device_ids r)
        ≡ (if includes envvar plugin.strategies then some (join (44 ∷ []) device_ids) else seen r)
  unfolding update_for_env_var
  seen-env_var device_ids r = elim (Bool-cases (includes envvar plugin.strategies)) [
    | inl e ↦ rw e (
        seen-imex plugin.imex_channels (update_response_for_device_list device_ids r)
        ∙ seen-list device_ids r)
    | inr e ↦ rw e refl
  ]

  seen-mounts :
      (device_ids : List Str) (r : Response)
      → seen (update_for_volume_mounts outside plugin device_ids r) ≡ (
          if includes volume_mounts plugin.strategies
          then some volume_mounts_container_path_root
          else seen r)
  unfolding update_for_volume_mounts update_response_for_device_mounts join
  seen-mounts device_ids r = elim (Bool-cases (includes volume_mounts plugin.strategies)) [
    | inl e ↦ rw e (seen-list (volume_mounts_container_path_root ∷ []) r)
    | inr e ↦ rw e refl
  ]

  seen-finish :
      (request_ids device_ids : List Str) (r : Response)
      → seen r ≡ none
      → seen (finish_response outside plugin request_ids device_ids r)
        ≡ visible_devices plugin device_ids
  unfolding finish_response
  seen-finish request_ids device_ids r h =
      let flagged = update_for_flags outside plugin (update_response_for_mps plugin.mps r) in
      let bare = seen-flags (update_response_for_mps plugin.mps r) ∙ (seen-mps plugin.mps r ∙ h) in
      let listed = update_for_env_var outside plugin device_ids flagged in
      let mounted = update_for_volume_mounts outside plugin device_ids listed in
      elim (Bool-cases (all_cdi_enabled plugin.strategies)) [
        | inl e ↦ rw e bare
        | inr e ↦ rw e (
            seen-specs request_ids mounted
            ∙ (seen-mounts device_ids listed ∙ rw (seen-env_var device_ids flagged, bare) refl))
      ]

  -- Whatever else an answer holds, its NVIDIA_VISIBLE_DEVICES is what the strategies say: nothing if
  -- all of them use CDI, the directory of the mounts if volume mounts are among them, and else the
  -- ids of the devices if the environment variable is.
  pub get_allocate_response-visible :
      (response_id : Str) (request_ids device_ids : List Str) (r : Response)
      → get_allocate_response outside plugin response_id request_ids device_ids ≡ some r
      → lookup device_list_env_var r.envs ≡ visible_devices plugin device_ids
  unfolding get_allocate_response lookup
  get_allocate_response-visible response_id request_ids device_ids r h =
      let (r1, h1, h2) =
        >>=-eq-some (update_for_cdi outside plugin response_id device_ids empty_response)
          (λ (r : Response). some (finish_response outside plugin request_ids device_ids r)) h in
      sym (ap seen (some_eq h2))
      ∙ seen-finish request_ids device_ids r1 (
          ap (lookup device_list_env_var)
            (update_for_cdi-envs response_id device_ids empty_response r1 h1))
