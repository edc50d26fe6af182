-- ===== src/Plugin/Allocate/Held.antt =====
-- The node lock behind the error of getAllocateResponse in a request without MIG devices.
use volcano_vgpu_device_plug.Prelude.{
  ℕ, ◌≡◌, ◌≢◌, Bool, true, false, ◌&&◌, Option, none, some, List, [], ◌∷◌, if◌then◌else◌, length,
  ◌==◌, ltb, arith,
}
use mathlib.Core.Path.{subst}
use volcano_vgpu_device_plug.GoText.{Str, codes, str_eq, contains}
use volcano_vgpu_device_plug.Kube.Objects.{Container, Node, Pod}
use volcano_vgpu_device_plug.Kube.Client.{Client}
use volcano_vgpu_device_plug.NodeLock.{Clock, release_node_lock}
use volcano_vgpu_device_plug.Spec.Strategy.{any_cdi_enabled}
use volcano_vgpu_device_plug.Util.Types.{ContainerDevices, nvidia_gpu_device, vgpu_device_name}
use volcano_vgpu_device_plug.Util.Pods.{
  get_pending_pod, get_oldest_pod, get_next_device_request, erase_next_device_type,
}
use volcano_vgpu_device_plug.Rm.AnnotatedId.{any_has_annotations}
use volcano_vgpu_device_plug.Rm.Devices.{has}
use volcano_vgpu_device_plug.Plugin.Response.{Response, Outside}
use volcano_vgpu_device_plug.Plugin.Action.{
  AllocateError, no_pending_pod, too_large, unknown_device, mig_response_failed, no_request,
  number_mismatch, response_failed, erase_failed, failed, State, Action, pure, raise, crash,
  or_crash, on_world, ◌>>◌,
}
use volcano_vgpu_device_plug.Plugin.Prepare.{Host, container_device_strs}
use volcano_vgpu_device_plug.Plugin.Allocate.{
  Setting, response_for, fail_allocation, check_known, allocate_mig, share_gpus, allocate_request,
  allocate_vgpu, allocate_one, current_pod, allocate_single, allocate,
}
use volcano_vgpu_device_plug.Plugin.Allocate.Keeping.{
  IsQuiet, IsKeeping, IsLeaving, IsOther, IsOther-IsLeaving, IsLeaving-bind, IsLeaving-then-IsOther,
  IsOther-bind, or_crash-IsKeeping, if-IsLeaving, if-IsOther, LeavesResult,
}
use volcano_vgpu_device_plug.Plugin.Allocate.Prepared.{
  response_for-IsKeeping, container_device_strs-IsKeeping,
}

module _ {W : Type 0} (api : Client W) (clock : Clock W) (host : Host W) (outside : Outside)
    (c : Setting) (P : W → Type 0) (quiet : IsQuiet api host P) where
  fail-IsOther :
      (A : Type 0) (current : Pod) (e : AllocateError)
      → e ≢ response_failed
      → IsOther P (fail_allocation api clock host outside c {A = A} current e)
  unfolding fail_allocation
  fail-IsOther A current e h s = h

  share_gpus-IsOther :
      (current : Pod) (ctr : Container) (devreq : ContainerDevices) (r : Response)
      → IsOther P (share_gpus api clock host outside c current ctr devreq r)
  unfolding share_gpus
  share_gpus-IsOther current ctr [] r = λ s. tt
  share_gpus-IsOther current ctr (dev ∷ devreq) r = λ s. tt

  erased-IsOther :
      (current : Pod) (o : Option Bool) (m : Action W Response)
      → IsOther P m
      → IsOther P {A = Response} (elim o [
        | none ↦ crash
        | some false ↦ fail_allocation api clock host outside c current erase_failed
        | some true ↦ m
      ])
  erased-IsOther current none m h = λ s. tt
  erased-IsOther current (some false) m h =
      fail-IsOther Response current erase_failed (λ e. absurd (ground arith))
  erased-IsOther current (some true) m h = h

  answered-IsKeeping :
      (o : Option Response)
      → IsKeeping P {A = Response} (elim o [ none ↦ raise response_failed | some r ↦ pure r ])
  answered-IsKeeping none = λ s p. p
  answered-IsKeeping (some r) = λ s p. p

  allocate_request-IsLeaving :
      (current : Pod) (ids : List Str) (request : Container × ContainerDevices)
      → IsLeaving P (allocate_request api clock host outside c current ids request)
  unfolding allocate_request fail_allocation
  allocate_request-IsLeaving current ids (ctr, devreq) =
      IsLeaving-bind P
        (if length devreq == length ids
          then pure tt
          else fail_allocation api clock host outside c current number_mismatch)
        _ (checked (length devreq == length ids))
        (λ _.
          IsLeaving-bind P (container_device_strs host c.geometries c.plugin.strategies devreq) _
            (container_device_strs-IsKeeping api host P quiet c.geometries c.plugin.strategies
              devreq)
            (λ strs.
              IsLeaving-bind P (response_for api clock host outside c strs) _
                (response_for-IsKeeping api host P quiet clock outside c strs)
                (λ o.
                  IsLeaving-bind P (elim o [ none ↦ raise response_failed | some r ↦ pure r ]) _
                    (answered-IsKeeping o)
                    (λ r. IsOther-IsLeaving P _ (λ s.
                      let (erased, w) =
                        erase_next_device_type api nvidia_gpu_device current s.world in
                      erased-IsOther current erased _
                        (if-IsOther P (str_eq c.mode (codes "mig")) (pure r)
                          (share_gpus api clock host outside c current ctr devreq r) (λ s. tt)
                          (share_gpus-IsOther current ctr devreq r))
                        (record s { world = w }))))))
    where
      checked :
          (b : Bool)
          → IsKeeping P (
              if b
              then pure tt
              else fail_allocation api clock host outside c current number_mismatch)
      checked true = λ s p. p
      checked false = λ s p. tt

  allocate_vgpu-IsLeaving :
      (current : Pod) (ids : List Str)
      → IsLeaving P (allocate_vgpu api clock host outside c current ids)
  unfolding allocate_vgpu
  allocate_vgpu-IsLeaving current ids =
      IsLeaving-bind P (or_crash (get_next_device_request nvidia_gpu_device current)) _
        (or_crash-IsKeeping P (get_next_device_request nvidia_gpu_device current)) requested
    where
      requested :
          (o : Option (Container × ContainerDevices))
          → IsLeaving P {A = Response} (elim o [
            | none ↦ fail_allocation api clock host outside c current no_request
            | some request ↦ allocate_request api clock host outside c current ids request
          ])
      requested none =
          IsOther-IsLeaving P _
            (fail-IsOther Response current no_request (λ e. absurd (ground arith)))
      requested (some request) = allocate_request-IsLeaving current ids request

  response_for-IsOther : (ids : List Str) → IsOther P (response_for api clock host outside c ids)
  unfolding response_for
  response_for-IsOther ids =
      IsOther-bind P
        (if any_cdi_enabled c.plugin.strategies then on_world host.new_uuid else pure []) _
        (if-IsOther P (any_cdi_enabled c.plugin.strategies) (on_world host.new_uuid) (pure [])
          (λ s. tt) (λ s. tt))
        (λ response_id s. tt)

  check_known-IsOther :
      (current : Pod) (ids : List Str)
      → IsOther P (check_known api clock host outside c current ids)
  unfolding check_known
  check_known-IsOther current [] = λ s. tt
  check_known-IsOther current (id ∷ ids) =
      if-IsOther P (has c.devices id) (check_known api clock host outside c current ids)
        (fail_allocation api clock host outside c current unknown_device)
        (check_known-IsOther current ids)
        (fail-IsOther (Unit {0}) current unknown_device (λ e. absurd (ground arith)))

  allocate_mig-IsOther :
      (current : Pod) (ids : List Str)
      → IsOther P (allocate_mig api clock host outside c current ids)
  unfolding allocate_mig
  allocate_mig-IsOther current ids =
      IsOther-bind P
        (if c.fail_requests_greater_than_one && any_has_annotations ids && ltb 1 (length ids)
          then fail_allocation api clock host outside c current too_large
          else pure tt)
        _
        (if-IsOther P
          (c.fail_requests_greater_than_one && any_has_annotations ids && ltb 1 (length ids))
          (fail_allocation api clock host outside c current too_large) (pure tt)
          (fail-IsOther (Unit {0}) current too_large (λ e. absurd (ground arith))) (λ s. tt))
        (λ _.
          IsOther-bind P (check_known api clock host outside c current ids) _
            (check_known-IsOther current ids)
            (λ _.
              IsOther-bind P (response_for api clock host outside c ids) _
                (response_for-IsOther ids) answered))
    where
      answered :
          (o : Option Response)
          → IsOther P {A = Response} (elim o [
            | none ↦ fail_allocation api clock host outside c current mig_response_failed
            | some r ↦ pure r
          ])
      answered none = fail-IsOther Response current mig_response_failed (λ e. absurd (ground arith))
      answered (some r) = λ s. tt

  allocate_one-IsLeaving :
      (current : Pod) (ids : List Str)
      → IsLeaving P (allocate_one api clock host outside c current ids)
  unfolding allocate_one
  allocate_one-IsLeaving current [] = λ s p. tt
  allocate_one-IsLeaving current (id ∷ ids) =
      if-IsLeaving P (contains id (codes "MIG"))
        (allocate_mig api clock host outside c current (id ∷ ids))
        (allocate_vgpu api clock host outside c current (id ∷ ids))
        (IsOther-IsLeaving P _ (allocate_mig-IsOther current (id ∷ ids)))
        (allocate_vgpu-IsLeaving current (id ∷ ids))

  pending-IsKeeping :
      (o : Option (Option Pod))
      → IsKeeping P {A = Pod} (elim o [
        | none ↦ crash
        | some none ↦
            on_world (release_node_lock api clock c.node_name vgpu_device_name)
            >> raise no_pending_pod
        | some (some pod) ↦ pure pod
      ])
  pending-IsKeeping none = λ s p. tt
  pending-IsKeeping (some none) = λ s p. tt
  pending-IsKeeping (some (some pod)) = λ s p. p

  pending_world :
      (gpu_amount : ℕ) (w : W) → P w → P (get_pending_pod api c.node_name gpu_amount w).1
  unfolding get_pending_pod
  pending_world gpu_amount w p = listed (api.list_pods w).0 (quiet.list_pods w p)
    where
      listed :
          (o : Option (List Pod))
          → P (api.list_pods w).1
          → P
              (elim o as (λ x. Option (Option Pod) × W) [
                | none ↦ (some none, (api.list_pods w).1)
                | some pods ↦ (get_oldest_pod pods c.node_name gpu_amount, (api.list_pods w).1)
              ]).1
      listed none q = q
      listed (some pods) q = q

  current_pod-IsKeeping :
      (gpu_amount : ℕ) → IsKeeping P (current_pod api clock host outside c gpu_amount)
  unfolding current_pod
  current_pod-IsKeeping gpu_amount s p =
      let (pending, w) = get_pending_pod api c.node_name gpu_amount s.world in
      pending-IsKeeping pending (record s { world = w }) (pending_world gpu_amount s.world p)

  allocate-IsLeaving :
      (reqs : List (List Str)) → IsLeaving P (allocate api clock host outside c reqs)
  unfolding allocate allocate_single
  allocate-IsLeaving (ids ∷ ids' ∷ reqs) = λ s p. tt
  allocate-IsLeaving (ids ∷ []) =
      if-IsLeaving P (str_eq c.resource c.resource_name)
        (allocate_single api clock host outside c ids) (pure _)
        (IsLeaving-bind P (current_pod api clock host outside c (length ids)) _
          (current_pod-IsKeeping (length ids))
          (λ current.
            IsLeaving-then-IsOther P (allocate_one api clock host outside c current ids) _
              (allocate_one-IsLeaving current ids) (λ response s. tt)))
        (λ s p. tt)
  allocate-IsLeaving [] =
      if-IsLeaving P (str_eq c.resource c.resource_name) crash (pure []) (λ s p. tt) (λ s p. tt)

-- When Allocate returns the error of getAllocateResponse for a request without MIG devices, it leaves
-- the node as it was, its lock included: if neither listing pods nor the calls to the machine change
-- the node that the server holds, the server still holds that node.
pub allocate-Held :
    {W : Type 0} (api : Client W) (clock : Clock W) (holds : W → Str → Option Node) (host : Host W)
    (outside : Outside) (c : Setting) (n : Node) (reqs : List (List Str)) (s s' : State W)
    → IsQuiet api host (λ w. holds w c.node_name ≡ some n)
    → allocate api clock host outside c reqs s ≡ (failed response_failed, s')
    → holds s.world c.node_name ≡ some n
    → holds s'.world c.node_name ≡ some n
allocate-Held api clock holds host outside c n reqs s s' quiet h held =
    subst (LeavesResult (λ w. holds w c.node_name ≡ some n)) h (
      allocate-IsLeaving api clock host outside c (λ w. holds w c.node_name ≡ some n) quiet reqs s
        held)
