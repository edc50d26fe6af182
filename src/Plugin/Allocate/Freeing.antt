-- ===== src/Plugin/Allocate/Freeing.antt =====
-- Actions whose errors leave the node lock released, and the preparation of a response.
use volcano_vgpu_device_plug.Prelude.{
  ℕ, zero, suc, ◌≡◌, ◌≢◌, refl, Bool, true, false, Option, none, some, List, [], ◌∷◌, if◌then◌else◌,
}
use volcano_vgpu_device_plug.Prelude.Int.{ℤ}
use volcano_vgpu_device_plug.GoText.{Str, contains}
use volcano_vgpu_device_plug.Kube.Objects.{Pod}
use volcano_vgpu_device_plug.Kube.Client.{Client}
use volcano_vgpu_device_plug.NodeLock.{Clock, release_node_lock}
use volcano_vgpu_device_plug.Spec.Strategy.{DeviceListStrategies, any_cdi_enabled}
use volcano_vgpu_device_plug.Util.Types.{ContainerDevices, vgpu_device_name, device_bind_failed}
use volcano_vgpu_device_plug.Util.Allocation.{new_annos, end_allocation, pod_allocation_failed}
use volcano_vgpu_device_plug.Util.Smi.{origin_uuid, mig_uuid_from_index}
use volcano_vgpu_device_plug.Plugin.Mig.Template.{AllowedMigGeometries}
use volcano_vgpu_device_plug.Plugin.Response.{Outside}
use volcano_vgpu_device_plug.Plugin.Action.{
  AllocateError, multiple_requests, no_pending_pod, too_large, unknown_device, mig_response_failed,
  no_request, number_mismatch, response_failed, erase_failed, Result, ok, failed, crashed, State,
  Action, pure, or_crash, on_world, continue, ◌>>=◌,
}
use volcano_vgpu_device_plug.Plugin.Prepare.{
  Host, spec_tried, check_spec_file, apply_mig_template, spec_loop, needs_spec, reset_instances,
  generate, instance_of, container_device_strs, max_try_times,
}
use volcano_vgpu_device_plug.Plugin.Allocate.{Setting, response_for, fail_allocation}

module _ {W : Type 0} (api : Client W) (clock : Clock W) (host : Host W) (outside : Outside)
    (c : Setting) where
  -- The world is what a release of the node lock left behind.
  abbrev pub IsReleased : W → Type 0
  IsReleased w = (w₀ : W) × ((release_node_lock api clock c.node_name vgpu_device_name w₀).1 ≡ w)

  -- What an error promises of the lock.
  abbrev pub Promise : AllocateError → W → Type 0
  Promise multiple_requests w = Unit
  Promise response_failed w = Unit
  Promise no_pending_pod w = IsReleased w
  Promise too_large w = IsReleased w
  Promise unknown_device w = IsReleased w
  Promise mig_response_failed w = IsReleased w
  Promise no_request w = IsReleased w
  Promise number_mismatch w = IsReleased w
  Promise erase_failed w = IsReleased w

  IsReleased-Promise : (e : AllocateError) (w : W) → IsReleased w → Promise e w
  IsReleased-Promise multiple_requests w h = tt
  IsReleased-Promise response_failed w h = tt
  IsReleased-Promise no_pending_pod w h = h
  IsReleased-Promise too_large w h = h
  IsReleased-Promise unknown_device w h = h
  IsReleased-Promise mig_response_failed w h = h
  IsReleased-Promise no_request w h = h
  IsReleased-Promise number_mismatch w h = h
  IsReleased-Promise erase_failed w h = h

  pub Promise-IsReleased :
      (e : AllocateError) (w : W)
      → e ≢ multiple_requests
      → e ≢ response_failed
      → Promise e w
      → IsReleased w
  Promise-IsReleased multiple_requests w h k p = absurd (h refl)
  Promise-IsReleased response_failed w h k p = absurd (k refl)
  Promise-IsReleased no_pending_pod w h k p = p
  Promise-IsReleased too_large w h k p = p
  Promise-IsReleased unknown_device w h k p = p
  Promise-IsReleased mig_response_failed w h k p = p
  Promise-IsReleased no_request w h k p = p
  Promise-IsReleased number_mismatch w h k p = p
  Promise-IsReleased erase_failed w h k p = p

  module _ {A : Type 0} where
    abbrev pub Frees : Result A × State W → Type 0
    Frees (ok a, s) = Unit
    Frees (crashed, s) = Unit
    Frees (failed e, s) = Promise e s.world

    -- Whatever state an action starts in, its errors keep their IsReleased-Promise.
    abbrev pub IsFreeing : Action W A → Type 0
    IsFreeing m = (s : State W) → Frees (m s)

    pub or_crash-IsFreeing : (o : Option A) → IsFreeing (or_crash o)
    or_crash-IsFreeing none s = tt
    or_crash-IsFreeing (some a) s = tt

    pub if-IsFreeing :
        (b : Bool) (m n : Action W A) → IsFreeing m → IsFreeing n → IsFreeing (if b then m else n)
    if-IsFreeing true m n hm hn s = hm s
    if-IsFreeing false m n hm hn s = hn s

    pub option-IsFreeing :
        {X : Type 0} (o : Option X) (m : Action W A) (f : X → Action W A)
        → IsFreeing m
        → ((x : X) → IsFreeing (f x))
        → IsFreeing (elim o [ none ↦ m | some x ↦ f x ])
    option-IsFreeing none m f hm hf = hm
    option-IsFreeing (some x) m f hm hf = hf x

  pub fail-IsFreeing :
      (A : Type 0) (current : Pod) (e : AllocateError)
      → IsFreeing (fail_allocation api clock host outside c {A = A} current e)
  unfolding fail_allocation pod_allocation_failed end_allocation
  fail-IsFreeing A current e s =
      IsReleased-Promise e _
        ((api.patch_pod current (new_annos device_bind_failed) s.world).1, refl)

  continue-IsFreeing :
      {A B : Type 0} (r : Result A) (s : State W) (f : A → Action W B)
      → Frees (r, s)
      → ((a : A) → IsFreeing (f a))
      → Frees (continue r s f)
  continue-IsFreeing (ok a) s f h k = k a s
  continue-IsFreeing (failed e) s f h k = h
  continue-IsFreeing crashed s f h k = tt

  pub >>=-IsFreeing :
      {A B : Type 0} (m : Action W A) (f : A → Action W B)
      → IsFreeing m
      → ((a : A) → IsFreeing (f a))
      → IsFreeing (m >>= f)
  >>=-IsFreeing m f h k s = continue-IsFreeing (m s).0 (m s).1 f (h s) k

  pub response_for-IsFreeing :
      (ids : List Str) → IsFreeing (response_for api clock host outside c ids)
  unfolding response_for
  response_for-IsFreeing ids =
      >>=-IsFreeing _ _
        (if-IsFreeing (any_cdi_enabled c.plugin.strategies) (on_world host.new_uuid) (pure [])
          (λ s. tt) (λ s. tt))
        (λ response_id s. tt)

  spec_tried-IsFreeing :
      (b : Bool) (tries : ℕ) (again : Action W (Unit {0}))
      → IsFreeing again
      → IsFreeing (spec_tried host b tries again)
  spec_tried-IsFreeing true tries again h s = tt
  spec_tried-IsFreeing false zero again h s = tt
  spec_tried-IsFreeing false (suc tries) again h s = h (record s { world = (host.sleep s.world).1 })

  spec_loop-IsFreeing : (tries : ℕ) → IsFreeing (spec_loop host tries)
  unfolding spec_loop
  spec_loop-IsFreeing zero s = tt
  spec_loop-IsFreeing (suc tries) s =
      let w = (host.create_spec s.world).1 in
      spec_tried-IsFreeing (check_spec_file (host.read_spec w)) tries (spec_loop host tries)
        (spec_loop-IsFreeing tries) (record s { world = w })

  apply_mig_template-IsFreeing : IsFreeing (apply_mig_template host)
  unfolding apply_mig_template
  apply_mig_template-IsFreeing s = crashes (host.apply_mig s.current s.world).0 _
    where
      crashes : (b : Bool) (s : State W) → Frees (if b then (ok tt, s) else (crashed, s))
      crashes true s = tt
      crashes false s = tt

  reset_instances-IsFreeing :
      (strategies : DeviceListStrategies) (needsreset : Bool)
      → IsFreeing (reset_instances host strategies needsreset)
  unfolding reset_instances
  reset_instances-IsFreeing strategies needsreset =
      if-IsFreeing needsreset _ _
        (>>=-IsFreeing _ _ apply_mig_template-IsFreeing (λ _.
          if-IsFreeing (needs_spec host strategies) _ _ (spec_loop-IsFreeing max_try_times)
            (λ s. tt)))
        (λ s. tt)

  generate-IsFreeing :
      (list : List AllowedMigGeometries) (gpu : Str × ℕ) (uuid : Str)
      → IsFreeing (generate host list gpu uuid)
  unfolding generate
  generate-IsFreeing list (devtype, devindex) uuid s = tt

  pub container_device_strs-IsFreeing :
      (list : List AllowedMigGeometries) (strategies : DeviceListStrategies)
      (devreq : ContainerDevices)
      → IsFreeing (container_device_strs host list strategies devreq)
  unfolding container_device_strs instance_of
  container_device_strs-IsFreeing list strategies [] = λ s. tt
  container_device_strs-IsFreeing list strategies (val ∷ devreq) =
      >>=-IsFreeing _ _
        (if-IsFreeing (contains val.uuid (91 ∷ [])) _ _
          (>>=-IsFreeing _ _
            (λ s. or_crash-IsFreeing (host.type_and_index (origin_uuid val.uuid) s.world) s)
            (λ gpu.
              >>=-IsFreeing (generate host list gpu val.uuid) _
                (generate-IsFreeing list gpu val.uuid)
                (λ (g : ℤ × Bool).
                  >>=-IsFreeing _ _ (reset_instances-IsFreeing strategies g.1) (λ _ s.
                    or_crash-IsFreeing
                      (mig_uuid_from_index (λ gpu idx. host.mig_answer gpu idx s.world) val.uuid
                        g.0)
                      s))))
          (λ s. tt))
        (λ id.
          >>=-IsFreeing _ _ (container_device_strs-IsFreeing list strategies devreq) (λ ids s. tt))
