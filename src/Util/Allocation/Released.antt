-- ===== src/Util/Allocation/Released.antt =====
-- The node lock at the end of an allocation.
use volcano_vgpu_device_plug.Prelude.{
  ℕ, ◌≡◌, false, Option, some, any, arith, Bool, true, none, refl, if◌then◌else◌,
}
use volcano_vgpu_device_plug.GoText.{Str, codes, contains}
use volcano_vgpu_device_plug.Kube.Objects.{Node, Pod}
use volcano_vgpu_device_plug.Kube.Client.{Client}
use volcano_vgpu_device_plug.NodeLock.{Clock, Outcome, done, failed, panicked}
use volcano_vgpu_device_plug.NodeLock.Server.{IsServer, Holds}
use volcano_vgpu_device_plug.NodeLock.Release.{IsFree, release_node_lock-Holds}
use volcano_vgpu_device_plug.Util.Types.{vgpu_device_name, device_bind_success}
use volcano_vgpu_device_plug.Util.Allocation.{
  devices_to_handle, new_annos, left_to_allocate, end_allocation, pod_allocation_success,
  pod_allocation_try_success,
}

module _ {W : Type 0} (api : Client W) (clock : Clock W) (holds : W → Str → Option Node)
    (updates : W → ℕ) (server : IsServer api holds updates) (node_name : Str) (pod : Pod) where
  end_allocation-IsFree :
      (phase : Str) (w w' : W)
      → end_allocation api clock phase node_name pod w ≡ (done, w')
      → Holds holds (IsFree vgpu_device_name) node_name w'
  unfolding end_allocation
  end_allocation-IsFree phase w w' h =
      release_node_lock-Holds api clock holds updates server node_name vgpu_device_name
        (api.patch_pod pod (new_annos phase) w).1 w' h

  -- What PodAllocationTrySuccess promises of its outcome, `none` if it releases nothing, when the pod
  -- was read in the first world and the second one is left.
  abbrev pub Settles : Option Pod → Option Outcome → W → W → Type 0
  Settles refreshed none w w' =
      (contains (left_to_allocate refreshed) (codes "GPU") ≡ true) × (w' ≡ w)
  Settles refreshed (some done) w w' =
      (contains (left_to_allocate refreshed) (codes "GPU") ≡ false)
      × Holds holds (IsFree vgpu_device_name) node_name w'
  Settles refreshed (some _) w w' = contains (left_to_allocate refreshed) (codes "GPU") ≡ false

  success-Settles :
      (refreshed : Option Pod) (w : W) (o : Outcome) (w' : W)
      → contains (left_to_allocate refreshed) (codes "GPU") ≡ false
      → end_allocation api clock device_bind_success node_name pod w ≡ (o, w')
      → Settles refreshed (some o) w w'
  success-Settles refreshed w done w' e h = (e, end_allocation-IsFree device_bind_success w w' h)
  success-Settles refreshed w failed w' e h = e
  success-Settles refreshed w panicked w' e h = e

  -- PodAllocationTrySuccess reads the pod again. If its annotation of the devices left to allocate
  -- contains GPU, the world stays as the read left it: no phase is patched and no lock is released.
  -- Otherwise, if no error of the release is logged, the server holds the node without the lock.
  pub pod_allocation_try_success-Settles :
      (w : W)
      → (let (refreshed, w') = api.get_pod pod w in
          let (outcome, w'') = pod_allocation_try_success api clock node_name pod w in
          Settles refreshed outcome w' w'')
  unfolding pod_allocation_try_success pod_allocation_success
  pod_allocation_try_success-Settles w =
      tested (any (contains (left_to_allocate (api.get_pod pod w).0)) devices_to_handle) refl
    where
      tested :
          (b : Bool)
          → any (contains (left_to_allocate (api.get_pod pod w).0)) devices_to_handle ≡ b
          → (let (refreshed, w') = api.get_pod pod w in
              let (outcome, w'') = end_allocation api clock device_bind_success node_name pod w' in
              let r : Option Outcome × W = if b then (none, w') else (some outcome, w'') in
              Settles refreshed r.0 w' r.1)
      tested true e = (ground arith, refl)
      tested false e =
          let (refreshed, w') = api.get_pod pod w in
          let (outcome, w'') = end_allocation api clock device_bind_success node_name pod w' in
          success-Settles refreshed w' outcome w'' (ground arith) refl
