-- ===== src/Plugin/Allocate/Limits.antt =====
-- The memory limits in a response of Allocate.
use volcano_vgpu_device_plug.Plugin.Allocate.Yields.{
  Gives, Yields, if-Yields, weaken-Gives, or_crash-Yields, continue-Yields, >>=-Yields, any-Yields,
}
use volcano_vgpu_device_plug.Prelude.{
  ℕ, ◌≡◌, refl, ap, ◌∙◌, Bool, true, false, Option, none, some, List, [], ◌∷◌, if◌then◌else◌,
  length, ◌==◌, arith,
}
use mathlib.Core.Path.{subst}
use volcano_vgpu_device_plug.GoText.{Str, codes, str_eq, contains}
use volcano_vgpu_device_plug.Kube.Dict.{lookup}
use volcano_vgpu_device_plug.Kube.Objects.{Container, Pod}
use volcano_vgpu_device_plug.Kube.Client.{Client}
use volcano_vgpu_device_plug.NodeLock.{Clock, release_node_lock}
use volcano_vgpu_device_plug.Util.Types.{ContainerDevices, nvidia_gpu_device, vgpu_device_name}
use volcano_vgpu_device_plug.Util.Pods.{
  get_pending_pod, get_next_device_request, erase_next_device_type,
}
use volcano_vgpu_device_plug.Plugin.Response.{Response, Outside, empty_response}
use volcano_vgpu_device_plug.Plugin.Action.{
  AllocateError, no_request, or_crash, number_mismatch, response_failed, erase_failed, raise, ok,
  State, Action, pure, crash, continue, ◌>>◌, on_world, no_pending_pod,
}
use volcano_vgpu_device_plug.Plugin.Prepare.{Host, container_device_strs}
use volcano_vgpu_device_plug.Plugin.Allocate.{
  Setting, limit_key, limit_value, set_limits, response_for, share_gpus, allocate_request,
  allocate_vgpu, allocate_one, current_pod, allocate_single, allocate, fail_allocation,
}
use volcano_vgpu_device_plug.Plugin.Allocate.Envs.{set_limits-limit, vgpu_envs-keeps, HasLimits}

-- The request of the pod for a container, as long as that of the kubelet, with its limits in the
-- environment of the response.
abbrev pub Shares : Setting → Pod → List Str → Response → Type 0
Shares c current ids r =
    (ctr : Container) × (devreq : ContainerDevices) × (get_next_device_request nvidia_gpu_device
        current
      ≡ some (some (ctr, devreq)))
    × (length devreq ≡ length ids)
    × HasLimits c devreq r

-- The one response of a request for shares, for the pod that getPendingPod found.
abbrev pub SharesOne : {W : Type 0} → Client W → Setting → W → List Str → List Response → Type 0
SharesOne api c w ids rs =
    (current : Pod) × (r : Response) × (rs ≡ r ∷ [])
    × ((get_pending_pod api c.node_name (length ids) w).0 ≡ some (some current))
    × Shares c current ids r

module _ {W : Type 0} (api : Client W) (clock : Clock W) (host : Host W) (outside : Outside)
    (c : Setting) where
  fail-Yields :
      {A : Type 0} (P : A → Type 0) (current : Pod) (e : AllocateError)
      → Yields P (fail_allocation api clock host outside c {A = A} current e)
  unfolding fail_allocation
  fail-Yields P current e s = tt

  share_gpus-limits :
      (current : Pod) (ctr : Container) (devreq : ContainerDevices) (r : Response)
      → Yields (HasLimits c devreq) (share_gpus api clock host outside c current ctr devreq r)
  unfolding share_gpus limit_key limit_value
  share_gpus-limits current ctr [] r s = tt
  share_gpus-limits current ctr (dev ∷ devreq) r s = λ i val h.
      vgpu_envs-keeps c dev _ (set_limits c.gpu_memory_factor 0 (dev ∷ devreq) r) i
      ∙ ap (λ j. lookup (limit_key j) (set_limits c.gpu_memory_factor 0 (dev ∷ devreq) r).envs)
          (omega arith)
      ∙ set_limits-limit c.gpu_memory_factor 0 (dev ∷ devreq) r i val h

  erased-Yields :
      (P : Response → Type 0) (current : Pod) (o : Option Bool) (m : Action W Response)
      → Yields P m
      → Yields {W = W} {A = Response} P (elim o [
        | none ↦ crash
        | some false ↦ fail_allocation api clock host outside c {A = Response} current erase_failed
        | some true ↦ m
      ])
  erased-Yields P current none m h = λ s. tt
  erased-Yields P current (some false) m h = fail-Yields P current erase_failed
  erased-Yields P current (some true) m h = h

  allocate_request-limits :
      (current : Pod) (ids : List Str) (ctr : Container) (devreq : ContainerDevices)
      → str_eq c.mode (codes "mig") ≡ false
      → Yields
          (λ r. (length devreq ≡ length ids) × HasLimits c devreq r)
          (allocate_request api clock host outside c current ids (ctr, devreq))
  unfolding allocate_request
  allocate_request-limits current ids ctr devreq h =
      let Q = λ (r : Response). (length devreq ≡ length ids) × HasLimits c devreq r in
      >>=-Yields (λ _. length devreq ≡ length ids) Q
        (if length devreq == length ids
          then pure tt
          else fail_allocation api clock host outside c current number_mismatch)
        _
        (if-Yields (λ _. length devreq ≡ length ids) (length devreq == length ids) _ _
          (λ same s. ground arith)
          (λ _. fail-Yields (λ _. length devreq ≡ length ids) current number_mismatch))
        (λ _ same.
          >>=-Yields (λ _. Unit {0}) Q
            (container_device_strs host c.geometries c.plugin.strategies devreq) _ (any-Yields _)
            (λ strs _.
              >>=-Yields (λ _. Unit {0}) Q (response_for api clock host outside c strs) _
                (any-Yields _)
                (λ o _.
                  >>=-Yields (λ _. Unit {0}) Q
                    (elim o [ none ↦ raise response_failed | some r ↦ pure r ]) _ (any-Yields _)
                    (λ r _ s.
                      let (erased, w) =
                        erase_next_device_type api nvidia_gpu_device current s.world in
                      erased-Yields Q current erased _
                        (if-Yields Q (str_eq c.mode (codes "mig")) _ _ (λ k. absurd (ground arith))
                          (λ _ s'.
                            weaken-Gives _ Q (λ r limits. (same, limits))
                              (share_gpus api clock host outside c current ctr devreq r s')
                              (share_gpus-limits current ctr devreq r s')))
                        (record s { world = w })))))

  requested-Yields :
      (current : Pod) (ids : List Str) (request : Option (Container × ContainerDevices))
      → str_eq c.mode (codes "mig") ≡ false
      → get_next_device_request nvidia_gpu_device current ≡ some request
      → Yields {W = W} (Shares c current ids) (elim request [
        | none ↦ fail_allocation api clock host outside c {A = Response} current no_request
        | some r ↦ allocate_request api clock host outside c current ids r
      ])
  requested-Yields current ids none h k = fail-Yields (Shares c current ids) current no_request
  requested-Yields current ids (some (ctr, devreq)) h k = λ s.
      weaken-Gives _ (Shares c current ids) (λ r (same, limits). (ctr, devreq, k, same, limits))
        (allocate_request api clock host outside c current ids (ctr, devreq) s)
        (allocate_request-limits current ids ctr devreq h s)

  allocate_vgpu-limits :
      (current : Pod) (ids : List Str)
      → str_eq c.mode (codes "mig") ≡ false
      → Yields (Shares c current ids) (allocate_vgpu api clock host outside c current ids)
  unfolding allocate_vgpu
  allocate_vgpu-limits current ids h =
      >>=-Yields _ (Shares c current ids)
        (or_crash (get_next_device_request nvidia_gpu_device current)) _
        (or_crash-Yields (get_next_device_request nvidia_gpu_device current))
        (λ request k. requested-Yields current ids request h k)

  found-Gives :
      (s : State W) (p : Option (Option Pod) × W)
      → Gives
          (λ current. p.0 ≡ some (some current))
          (continue
            (ok p.0)
            (record s { world = p.1 })
            (λ pending. elim pending [
              | none ↦ crash
              | some none ↦
                  on_world (release_node_lock api clock c.node_name vgpu_device_name)
                  >> raise no_pending_pod
              | some (some pod) ↦ pure pod
            ]))
  found-Gives s (none, w) = tt
  found-Gives s (some none, w) = tt
  found-Gives s (some (some pod), w) = refl

  -- The pod that the call goes on with is the one that getPendingPod found.
  current_pod-Gives :
      (n : ℕ) (s : State W)
      → Gives
          (λ current. (get_pending_pod api c.node_name n s.world).0 ≡ some (some current))
          (current_pod api clock host outside c n s)
  unfolding current_pod
  current_pod-Gives n s = found-Gives s (get_pending_pod api c.node_name n s.world)

  allocate_single-limits :
      (id : Str) (ids : List Str) (s : State W)
      → contains id (codes "MIG") ≡ false
      → str_eq c.mode (codes "mig") ≡ false
      → Gives
          (SharesOne api c s.world (id ∷ ids))
          (allocate_single api clock host outside c (id ∷ ids) s)
  unfolding allocate_single allocate_one
  allocate_single-limits id ids s k h =
      let n = length (id ∷ ids) in
      let (r, s') = current_pod api clock host outside c n s in
      continue-Yields
        (λ current. (get_pending_pod api c.node_name n s.world).0 ≡ some (some current))
        (SharesOne api c s.world (id ∷ ids)) r s' _ (current_pod-Gives n s)
        (λ current found.
          >>=-Yields (Shares c current (id ∷ ids)) (SharesOne api c s.world (id ∷ ids))
            (allocate_one api clock host outside c current (id ∷ ids)) _
            (if-Yields (Shares c current (id ∷ ids)) (contains id (codes "MIG")) _ _
              (λ mig. absurd (ground arith)) (λ _. allocate_vgpu-limits current (id ∷ ids) h))
            (λ r shares s. (current, r, refl, found, shares)))

-- When Allocate of one request for shares of GPUs, on a plugin that is not in MIG mode, returns
-- responses, then there is one, for the pod that getPendingPod found: its next device request has as
-- many devices as the kubelet asked for, and for each device of that request, in its order, the
-- environment of the response holds the memory limit of the device, the int32 product of its memory
-- and the factor with the unit m, under the variable of its position.
pub allocate-limits :
    {W : Type 0} (api : Client W) (clock : Clock W) (host : Host W) (outside : Outside)
    (c : Setting) (id : Str) (ids : List Str) (s s' : State W) (rs : List Response)
    → str_eq c.resource c.resource_name ≡ true
    → contains id (codes "MIG") ≡ false
    → str_eq c.mode (codes "mig") ≡ false
    → allocate api clock host outside c ((id ∷ ids) ∷ []) s ≡ (ok rs, s')
    → SharesOne api c s.world (id ∷ ids) rs
unfolding allocate
allocate-limits api clock host outside c id ids s s' rs served share mode h =
    subst (Gives (SharesOne api c s.world (id ∷ ids))) h
      (served_case (str_eq c.resource c.resource_name) served)
  where
    served_case :
        (b : Bool)
        → b ≡ true
        → Gives (SharesOne api c s.world (id ∷ ids)) (
            (if b
                then allocate_single api clock host outside c (id ∷ ids)
                else pure (empty_response ∷ []))
              s)
    served_case true e = allocate_single-limits api clock host outside c id ids s share mode
    served_case false e = absurd (ground arith)
