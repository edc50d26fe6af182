-- ===== src/Plugin/Prepare.antt =====
-- pkg/plugin/server.go: GetContainerDeviceStrArray, which sets up the MIG instances of a request and
-- returns their UUIDs. Commands, files and the driver are the record Host.
use volcano_vgpu_device_plug.Prelude.{
  ℕ, zero, suc, Bool, true, false, ◌||◌, Option, none, some, List, [], ◌∷◌, if◌then◌else◌,
}
use volcano_vgpu_device_plug.Prelude.Int.{ℤ}
use volcano_vgpu_device_plug.GoText.{Str, codes, contains}
use volcano_vgpu_device_plug.Spec.Strategy.{
  DeviceListStrategies, volume_mounts, cdi_annotations, cdi_cri, includes,
}
use volcano_vgpu_device_plug.Util.Types.{ContainerDevices}
use volcano_vgpu_device_plug.Util.CdiSpec.{CdiSpec, check_cdi_spec}
use volcano_vgpu_device_plug.Util.Smi.{MigAnswer, origin_uuid, mig_uuid_from_index}
use volcano_vgpu_device_plug.Plugin.Mig.{MigConfigSpec}
use volcano_vgpu_device_plug.Plugin.Mig.Template.{AllowedMigGeometries, generate_mig_template}
use volcano_vgpu_device_plug.Plugin.Action.{Action, pure, crash, or_crash, on_world, ◌>>=◌, ◌>>◌}

-- The calls that reach the machine. The type and index of a GPU are absent if the driver does not
-- answer, and the specification if its file cannot be read; a command says whether it succeeded.
pub record Host (W : Type 0) : Type 0 where
  pub type_and_index : Str → W → Option (Str × ℕ)
  pub mig_answer : Str → ℤ → W → MigAnswer
  pub apply_mig : List MigConfigSpec → W → Bool × W
  pub create_spec : W → Unit {0} × W
  pub read_spec : W → Option CdiSpec
  pub sleep : W → Unit {0} × W
  pub new_uuid : W → Str × W
  pub make_cache : Str → W → Unit {0} × W

abbrev pub spec_kind : Str
spec_kind = codes "k8s.device-plugin.nvidia.com/gpu"

-- CheckCDISpecFile
unfoldable pub check_spec_file : Option CdiSpec → Bool
check_spec_file none = false
check_spec_file (some spec) = check_cdi_spec spec spec_kind

abbrev pub max_try_times : ℕ
max_try_times = 5

module _ {W : Type 0} (host : Host W) where
  -- klog.Fatalf ends the process if the command fails.
  unfoldable pub apply_mig_template : Action W (Unit {0})
  apply_mig_template s =
      let (applied, w) = host.apply_mig s.current s.world in
      if applied then pure tt (record s { world = w }) else crash (record s { world = w })

  -- Behind the test in a try: the tries that are left, and what they do.
  abbrev pub spec_tried : Bool → ℕ → Action W (Unit {0}) → Action W (Unit {0})
  spec_tried true tries again = pure tt
  spec_tried false zero again = crash
  spec_tried false (suc tries) again = on_world host.sleep >> again

  -- The loop over the tries to write the specification, with the tries that are left.
  unfoldable pub spec_loop : ℕ → Action W (Unit {0})
  unfolding check_spec_file
  spec_loop zero = crash
  spec_loop (suc tries) = do
    on_world host.create_spec
    spec ← λ s. pure (host.read_spec s.world) s
    spec_tried (check_spec_file spec) tries (spec_loop tries)

  abbrev pub needs_spec : DeviceListStrategies → Bool
  needs_spec strategies =
      includes volume_mounts strategies
      || includes cdi_annotations strategies
      || includes cdi_cri strategies

  unfoldable pub reset_instances : DeviceListStrategies → Bool → Action W (Unit {0})
  unfolding apply_mig_template spec_loop
  reset_instances strategies needsreset =
      if needsreset
      then apply_mig_template
        >> (if needs_spec strategies then spec_loop max_try_times else pure tt)
      else pure tt

  -- plugin.migCurrent behind GenerateMigTemplate, which returns the position and needsreset.
  unfoldable pub generate : List AllowedMigGeometries → Str × ℕ → Str → Action W (ℤ × Bool)
  generate list (devtype, devindex) uuid s =
      let g = generate_mig_template list devtype devindex uuid s.current in
      pure (g.position, g.needsreset) (record s { current = g.current })

  -- One round of the loop for the id of an instance.
  unfoldable pub instance_of : List AllowedMigGeometries → DeviceListStrategies → Str → Action W Str
  unfolding generate reset_instances
  instance_of list strategies uuid = do
    gpu ← λ s. or_crash (host.type_and_index (origin_uuid uuid) s.world) s
    (position, needsreset) ← generate list gpu uuid
    reset_instances strategies needsreset
    λ s. or_crash (mig_uuid_from_index (λ gpu idx. host.mig_answer gpu idx s.world) uuid position) s

  -- GetContainerDeviceStrArray
  unfoldable pub container_device_strs :
      List AllowedMigGeometries → DeviceListStrategies → ContainerDevices → Action W (List Str)
  unfolding instance_of
  container_device_strs list strategies [] = pure []
  container_device_strs list strategies (val ∷ c) = do
    id ← if contains val.uuid (91 ∷ []) then instance_of list strategies val.uuid else pure val.uuid
    ids ← container_device_strs list strategies c
    pure (id ∷ ids)
