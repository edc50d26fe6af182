-- ===== src/Plugin/Allocate/Release.antt =====
-- The node lock behind an error of Allocate.
use volcano_vgpu_device_plug.Prelude.{
  ℕ, ◌≡◌, ◌≢◌, refl, Bool, true, false, ◌&&◌, Option, none, some, List, [], ◌∷◌, length, ◌==◌, ltb,
  arith,
}
use mathlib.Core.Path.{subst}
use volcano_vgpu_device_plug.GoText.{Str, codes, str_eq, contains}
use volcano_vgpu_device_plug.Kube.Objects.{Container, Node, Pod}
use volcano_vgpu_device_plug.Kube.Client.{Client}
use volcano_vgpu_device_plug.NodeLock.{Clock, done, release_node_lock}
use volcano_vgpu_device_plug.NodeLock.Server.{IsServer, Holds}
use volcano_vgpu_device_plug.NodeLock.Release.{IsFree, release_node_lock-Holds}
use volcano_vgpu_device_plug.Util.Types.{ContainerDevices, nvidia_gpu_device, vgpu_device_name}
use volcano_vgpu_device_plug.Util.Pods.{
  get_pending_pod, get_next_device_request, erase_next_device_type,
}
use volcano_vgpu_device_plug.Rm.AnnotatedId.{any_has_annotations}
use volcano_vgpu_device_plug.Rm.Devices.{has}
use volcano_vgpu_device_plug.Plugin.Response.{Response, Outside}
use volcano_vgpu_device_plug.Plugin.Action.{
  AllocateError, multiple_requests, no_pending_pod, too_large, unknown_device, mig_response_failed,
  no_request, number_mismatch, response_failed, erase_failed, failed, State, Action, pure, raise,
  crash, on_world, ◌>>◌,
}
use volcano_vgpu_device_plug.Plugin.Prepare.{Host}
use volcano_vgpu_device_plug.Plugin.Allocate.{
  Setting, fail_allocation, check_known, allocate_mig, share_gpus, allocate_request, allocate_vgpu,
  allocate_one, current_pod, allocate_single, allocate,
}
use volcano_vgpu_device_plug.Plugin.Allocate.Freeing.{
  Promise-IsReleased, Frees, IsFreeing, or_crash-IsFreeing, if-IsFreeing, option-IsFreeing,
  fail-IsFreeing, >>=-IsFreeing, response_for-IsFreeing, container_device_strs-IsFreeing,
}

module _ {W : Type 0} (api : Client W) (clock : Clock W) (host : Host W) (outside : Outside)
    (c : Setting) where
  check_known-IsFreeing :
      (current : Pod) (ids : List Str)
      → IsFreeing api clock host outside c (check_known api clock host outside c current ids)
  unfolding check_known
  check_known-IsFreeing current [] = λ s. tt
  check_known-IsFreeing current (id ∷ ids) =
      if-IsFreeing api clock host outside c (has c.devices id) _ _
        (check_known-IsFreeing current ids)
        (fail-IsFreeing api clock host outside c (Unit {0}) current unknown_device)

  allocate_mig-IsFreeing :
      (current : Pod) (ids : List Str)
      → IsFreeing api clock host outside c (allocate_mig api clock host outside c current ids)
  unfolding allocate_mig
  allocate_mig-IsFreeing current ids =
      >>=-IsFreeing api clock host outside c _ _
        (if-IsFreeing api clock host outside c
          (c.fail_requests_greater_than_one && any_has_annotations ids && ltb 1 (length ids)) _ _
          (fail-IsFreeing api clock host outside c (Unit {0}) current too_large) (λ s. tt))
        (λ _. >>=-IsFreeing api clock host outside c _ _ (check_known-IsFreeing current ids) (λ _.
          >>=-IsFreeing api clock host outside c _ _
            (response_for-IsFreeing api clock host outside c ids)
            (λ o.
              option-IsFreeing api clock host outside c o _ _
                (fail-IsFreeing api clock host outside c Response current mig_response_failed)
                (λ r s. tt))))

  share_gpus-IsFreeing :
      (current : Pod) (ctr : Container) (devreq : ContainerDevices) (r : Response)
      → IsFreeing api clock host outside c
          (share_gpus api clock host outside c current ctr devreq r)
  unfolding share_gpus
  share_gpus-IsFreeing current ctr [] r = λ s. tt
  share_gpus-IsFreeing current ctr (dev ∷ devreq) r = λ s. tt

  erased-IsFreeing :
      (current : Pod) (o : Option Bool) (m : Action W Response)
      → IsFreeing api clock host outside c m
      → IsFreeing api clock host outside c {A = Response} (elim o [
        | none ↦ crash
        | some false ↦ fail_allocation api clock host outside c current erase_failed
        | some true ↦ m
      ])
  erased-IsFreeing current none m h = λ s. tt
  erased-IsFreeing current (some false) m h =
      fail-IsFreeing api clock host outside c Response current erase_failed
  erased-IsFreeing current (some true) m h = h

  allocate_request-IsFreeing :
      (current : Pod) (ids : List Str) (request : Container × ContainerDevices)
      → IsFreeing api clock host outside c
          (allocate_request api clock host outside c current ids request)
  unfolding allocate_request
  allocate_request-IsFreeing current ids (ctr, devreq) =
      >>=-IsFreeing api clock host outside c _ _
        (if-IsFreeing api clock host outside c (length devreq == length ids) _ _ (λ s. tt)
          (fail-IsFreeing api clock host outside c (Unit {0}) current number_mismatch))
        (λ _.
          >>=-IsFreeing api clock host outside c _ _
            (container_device_strs-IsFreeing api clock host outside c c.geometries
              c.plugin.strategies devreq)
            (λ strs.
              >>=-IsFreeing api clock host outside c _ _
                (response_for-IsFreeing api clock host outside c strs)
                (λ o.
                  >>=-IsFreeing api clock host outside c _ _
                    (option-IsFreeing api clock host outside c o (raise response_failed) pure
                      (λ s. tt) (λ r s. tt))
                    (λ r s.
                      let (erased, w) =
                        erase_next_device_type api nvidia_gpu_device current s.world in
                      erased-IsFreeing current erased _
                        (if-IsFreeing api clock host outside c (str_eq c.mode (codes "mig")) _ _
                          (λ s. tt) (share_gpus-IsFreeing current ctr devreq r))
                        (record s { world = w })))))

  allocate_vgpu-IsFreeing :
      (current : Pod) (ids : List Str)
      → IsFreeing api clock host outside c (allocate_vgpu api clock host outside c current ids)
  unfolding allocate_vgpu
  allocate_vgpu-IsFreeing current ids =
      >>=-IsFreeing api clock host outside c _ _
        (λ s.
          or_crash-IsFreeing api clock host outside c
            (get_next_device_request nvidia_gpu_device current) s)
        (λ request.
          option-IsFreeing api clock host outside c request _ _
            (fail-IsFreeing api clock host outside c Response current no_request)
            (λ r. allocate_request-IsFreeing current ids r))

  allocate_one-IsFreeing :
      (current : Pod) (ids : List Str)
      → IsFreeing api clock host outside c (allocate_one api clock host outside c current ids)
  unfolding allocate_one
  allocate_one-IsFreeing current [] = λ s. tt
  allocate_one-IsFreeing current (id ∷ ids) =
      if-IsFreeing api clock host outside c (contains id (codes "MIG")) _ _
        (allocate_mig-IsFreeing current (id ∷ ids)) (allocate_vgpu-IsFreeing current (id ∷ ids))

  pending-IsFreeing :
      (o : Option (Option Pod))
      → IsFreeing api clock host outside c {A = Pod} (elim o [
        | none ↦ crash
        | some none ↦
            on_world (release_node_lock api clock c.node_name vgpu_device_name)
            >> raise no_pending_pod
        | some (some pod) ↦ pure pod
      ])
  pending-IsFreeing none s = tt
  pending-IsFreeing (some none) s = (s.world, refl)
  pending-IsFreeing (some (some pod)) s = tt

  current_pod-IsFreeing :
      (gpu_amount : ℕ)
      → IsFreeing api clock host outside c (current_pod api clock host outside c gpu_amount)
  unfolding current_pod
  current_pod-IsFreeing gpu_amount s =
      let (pending, w) = get_pending_pod api c.node_name gpu_amount s.world in
      pending-IsFreeing pending (record s { world = w })

  allocate-IsFreeing :
      (reqs : List (List Str))
      → IsFreeing api clock host outside c (allocate api clock host outside c reqs)
  unfolding allocate allocate_single
  allocate-IsFreeing (ids ∷ ids' ∷ reqs) = λ s. tt
  allocate-IsFreeing (ids ∷ []) =
      if-IsFreeing api clock host outside c (str_eq c.resource c.resource_name) _ _
        (>>=-IsFreeing api clock host outside c _ _ (current_pod-IsFreeing (length ids)) (λ current.
          >>=-IsFreeing api clock host outside c _ _ (allocate_one-IsFreeing current ids)
            (λ response s. tt)))
        (λ s. tt)
  allocate-IsFreeing [] =
      if-IsFreeing api clock host outside c (str_eq c.resource c.resource_name) _ _ (λ s. tt)
        (λ s. tt)

-- When Allocate returns an error, other than the one for several requests and the one of
-- getAllocateResponse for a request without MIG devices, the last thing that it did was to release the
-- node lock; and if that release had no error, the server holds the node without the lock.
pub allocate-IsReleased :
    {W : Type 0} (api : Client W) (clock : Clock W) (holds : W → Str → Option Node)
    (updates : W → ℕ) (server : IsServer api holds updates) (host : Host W) (outside : Outside)
    (c : Setting) (reqs : List (List Str)) (s s' : State W) (e : AllocateError)
    → allocate api clock host outside c reqs s ≡ (failed e, s')
    → e ≢ multiple_requests
    → e ≢ response_failed
    → (w₀ : W) × ((release_node_lock api clock c.node_name vgpu_device_name w₀).1 ≡ s'.world)
      × ((release_node_lock api clock c.node_name vgpu_device_name w₀).0 ≡ done
          → Holds holds (IsFree vgpu_device_name) c.node_name s'.world)
allocate-IsReleased api clock holds updates server host outside c reqs s s' e h single answered =
    let promised =
      subst (Frees api clock host outside c) h
        (allocate-IsFreeing api clock host outside c reqs s) in
    let (w₀, r) = Promise-IsReleased api clock host outside c e s'.world single answered promised in
    (
      w₀,
      r,
      λ released.
          release_node_lock-Holds api clock holds updates server c.node_name vgpu_device_name w₀
            s'.world (ground arith),
    )
