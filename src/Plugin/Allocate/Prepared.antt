-- ===== src/Plugin/Allocate/Prepared.antt =====
-- What the preparation of a response leaves alone.
use volcano_vgpu_device_plug.Prelude.{ℕ, zero, suc, Bool, true, false, List, [], ◌∷◌, if◌then◌else◌}
use volcano_vgpu_device_plug.Prelude.Int.{ℤ}
use volcano_vgpu_device_plug.GoText.{Str, contains}
use volcano_vgpu_device_plug.Kube.Client.{Client}
use volcano_vgpu_device_plug.NodeLock.{Clock}
use volcano_vgpu_device_plug.Spec.Strategy.{DeviceListStrategies, any_cdi_enabled}
use volcano_vgpu_device_plug.Util.Types.{ContainerDevices}
use volcano_vgpu_device_plug.Util.Smi.{origin_uuid, mig_uuid_from_index}
use volcano_vgpu_device_plug.Plugin.Mig.Template.{AllowedMigGeometries}
use volcano_vgpu_device_plug.Plugin.Response.{Outside}
use volcano_vgpu_device_plug.Plugin.Action.{ok, crashed, State, Action, pure, or_crash, on_world}
use volcano_vgpu_device_plug.Plugin.Prepare.{
  Host, spec_tried, check_spec_file, apply_mig_template, spec_loop, needs_spec, reset_instances,
  generate, instance_of, container_device_strs, max_try_times,
}
use volcano_vgpu_device_plug.Plugin.Allocate.{Setting, response_for}
use volcano_vgpu_device_plug.Plugin.Allocate.Keeping.{
  IsQuiet, IsKeeping, IsKeeping-bind, or_crash-IsKeeping, if-IsKeeping, KeepsResult,
}

module _ {W : Type 0} (api : Client W) (host : Host W) (P : W → Type 0)
    (quiet : IsQuiet api host P) where
  pub response_for-IsKeeping :
      (clock : Clock W) (outside : Outside) (c : Setting) (ids : List Str)
      → IsKeeping P (response_for api clock host outside c ids)
  unfolding response_for
  response_for-IsKeeping clock outside c ids =
      IsKeeping-bind P
        (if any_cdi_enabled c.plugin.strategies then on_world host.new_uuid else pure []) _
        (if-IsKeeping P (any_cdi_enabled c.plugin.strategies) (on_world host.new_uuid) (pure [])
          (λ s p. quiet.new_uuid s.world p) (λ s p. p))
        (λ response_id s p. p)

  spec_tried-IsKeeping :
      (b : Bool) (tries : ℕ) (again : Action W (Unit {0}))
      → IsKeeping P again
      → IsKeeping P (spec_tried host b tries again)
  spec_tried-IsKeeping true tries again h = λ s p. p
  spec_tried-IsKeeping false zero again h = λ s p. tt
  spec_tried-IsKeeping false (suc tries) again h =
      λ s p. h (record s { world = (host.sleep s.world).1 }) (quiet.sleep s.world p)

  spec_loop-IsKeeping : (tries : ℕ) → IsKeeping P (spec_loop host tries)
  unfolding spec_loop
  spec_loop-IsKeeping zero = λ s p. tt
  spec_loop-IsKeeping (suc tries) = λ s p.
      let w = (host.create_spec s.world).1 in
      spec_tried-IsKeeping (check_spec_file (host.read_spec w)) tries (spec_loop host tries)
        (spec_loop-IsKeeping tries) (record s { world = w }) (quiet.create_spec s.world p)

  apply_mig_template-IsKeeping : IsKeeping P (apply_mig_template host)
  unfolding apply_mig_template
  apply_mig_template-IsKeeping s p =
      crashes (host.apply_mig s.current s.world).0 _ (quiet.apply_mig s.current s.world p)
    where
      crashes :
          (b : Bool) (s : State W)
          → P s.world
          → KeepsResult P {A = Unit {0}} (if b then (ok tt, s) else (crashed, s))
      crashes true s p = p
      crashes false s p = tt

  reset_instances-IsKeeping :
      (strategies : DeviceListStrategies) (needsreset : Bool)
      → IsKeeping P (reset_instances host strategies needsreset)
  unfolding reset_instances
  reset_instances-IsKeeping strategies needsreset =
      if-IsKeeping P needsreset _ (pure tt)
        (IsKeeping-bind P (apply_mig_template host) _ apply_mig_template-IsKeeping (λ _.
          if-IsKeeping P (needs_spec host strategies) (spec_loop host max_try_times) (pure tt)
            (spec_loop-IsKeeping max_try_times) (λ s p. p)))
        (λ s p. p)

  generate-IsKeeping :
      (list : List AllowedMigGeometries) (gpu : Str × ℕ) (uuid : Str)
      → IsKeeping P (generate host list gpu uuid)
  unfolding generate
  generate-IsKeeping list (devtype, devindex) uuid s p = p

  pub container_device_strs-IsKeeping :
      (list : List AllowedMigGeometries) (strategies : DeviceListStrategies)
      (devreq : ContainerDevices)
      → IsKeeping P (container_device_strs host list strategies devreq)
  unfolding container_device_strs instance_of
  container_device_strs-IsKeeping list strategies [] = λ s p. p
  container_device_strs-IsKeeping list strategies (val ∷ devreq) =
      IsKeeping-bind P
        (if contains val.uuid (91 ∷ [])
          then instance_of host list strategies val.uuid
          else pure val.uuid)
        _
        (if-IsKeeping P (contains val.uuid (91 ∷ [])) (instance_of host list strategies val.uuid)
          (pure val.uuid)
          (IsKeeping-bind P (λ s. or_crash (host.type_and_index (origin_uuid val.uuid) s.world) s) _
            (λ s. or_crash-IsKeeping P (host.type_and_index (origin_uuid val.uuid) s.world) s)
            (λ gpu.
              IsKeeping-bind P (generate host list gpu val.uuid) _
                (generate-IsKeeping list gpu val.uuid)
                (λ (g : ℤ × Bool).
                  IsKeeping-bind P (reset_instances host strategies g.1) _
                    (reset_instances-IsKeeping strategies g.1)
                    (λ _ s.
                      or_crash-IsKeeping P
                        (mig_uuid_from_index (λ gpu idx. host.mig_answer gpu idx s.world) val.uuid
                          g.0)
                        s))))
          (λ s p. p))
        (λ id.
          IsKeeping-bind P (container_device_strs host list strategies devreq) _
            (container_device_strs-IsKeeping list strategies devreq) (λ ids s p. p))
