-- ===== src/NodeLock/Release.antt =====
-- ReleaseNodeLock: the lock behind a call.
use volcano_vgpu_device_plug.Prelude.{
  ℕ, ◌≡◌, refl, sym, ap, ◌∙◌, Option, none, some, arith, Option-cases, inl, inr,
}
use volcano_vgpu_device_plug.GoText.{Str, str_eq_refl}
use volcano_vgpu_device_plug.Kube.Dict.{lookup-remove}
use volcano_vgpu_device_plug.Kube.Objects.{Node, node_annotation}
use volcano_vgpu_device_plug.Kube.Client.{Client}
use volcano_vgpu_device_plug.NodeLock.{
  Clock, Outcome, done, without_lock, unlock, release_tested, release_read, release_node_lock,
}
use volcano_vgpu_device_plug.NodeLock.Server.{IsServer, Holds}
use volcano_vgpu_device_plug.NodeLock.Retry.{write_node-Holds}

abbrev pub IsFree : Str → Node → Type 0
IsFree lock_name n = node_annotation lock_name n ≡ none

without_lock-IsFree :
    (lock_name : Str) (n n' : Node)
    → without_lock lock_name n ≡ some n'
    → (n'.name ≡ n.name) × IsFree lock_name n'
unfolding without_lock node_annotation
without_lock-IsFree lock_name n n' h = elim (Option-cases n.annotations) [
  | inl e ↦ ground arith
  | inr (m, e) ↦ ground (arith, lookup-remove lock_name lock_name m, str_eq_refl lock_name)
]

module _ {W : Type 0} (api : Client W) (clock : Clock W) (holds : W → Str → Option Node)
    (updates : W → ℕ) (server : IsServer api holds updates) (node_name lock_name : Str) where
  release_tested-Holds :
      (lock : Option Str) (n : Node) (w w' : W)
      → node_annotation lock_name n ≡ lock
      → holds w node_name ≡ some n
      → n.name ≡ node_name
      → release_tested api clock node_name lock_name lock n w ≡ (done, w')
      → Holds holds (IsFree lock_name) node_name w'
  unfolding release_tested
  release_tested-Holds none n w w' free held e h =
      (n, ap (λ v. holds v node_name) (sym (ap (λ (p : Outcome × W). p.1) h)) ∙ held, free)
  release_tested-Holds (some _) n w w' taken held e h =
      write_node-Holds api clock holds updates server (IsFree lock_name) node_name
        (unlock api clock lock_name) n w w' (λ n n' w. without_lock-IsFree lock_name n n') e h

  release_read-Holds :
      (read : Option Node) (w w' : W)
      → ((n : Node) → read ≡ some n → (holds w node_name ≡ some n) × (n.name ≡ node_name))
      → release_read api clock node_name lock_name read w ≡ (done, w')
      → Holds holds (IsFree lock_name) node_name w'
  unfolding release_read
  release_read-Holds none w w' good h = cc
  release_read-Holds (some n) w w' good h =
      let (held, e) = good n refl in
      release_tested-Holds (node_annotation lock_name n) n w w' refl held e h

  -- When ReleaseNodeLock returns no error, the server holds the node without the lock.
  pub release_node_lock-Holds :
      (w w' : W)
      → release_node_lock api clock node_name lock_name w ≡ (done, w')
      → Holds holds (IsFree lock_name) node_name w'
  unfolding release_node_lock
  release_node_lock-Holds w w' h =
      release_read-Holds (api.get_node node_name w).0 (api.get_node node_name w).1 w'
        (λ n e. (
          server.get_holds node_name w (api.get_node node_name w).1 n (ground arith),
          server.get_name node_name w (api.get_node node_name w).1 n (ground arith),
        ))
        h
