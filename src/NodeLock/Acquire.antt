-- ===== src/NodeLock/Acquire.antt =====
-- setNodeLock and LockNode: the lock behind a call, and the updates that a call sends.
use volcano_vgpu_device_plug.Prelude.{
  ℕ, ◌+◌, ◌-◌, ◌≤◌, ◌≡◌, refl, true, false, Option, none, some, arith, Option-cases, Bool-cases,
  inl, inr, ltb, ◌<◌,
}
use volcano_vgpu_device_plug.GoText.{Str, str_eq_refl}
use volcano_vgpu_device_plug.Kube.Dict.{lookup-insert}
use volcano_vgpu_device_plug.Kube.Objects.{Node, node_annotation}
use volcano_vgpu_device_plug.Kube.Client.{Client}
use volcano_vgpu_device_plug.NodeLock.{
  Clock, Outcome, done, failed, panicked, with_lock, update_with, retry, lock_now, write_node,
  and_then, set_tested, set_read, lock_parsed, lock_tested, lock_read, set_node_lock,
  release_node_lock, lock_node, lock_timeout,
}
use volcano_vgpu_device_plug.NodeLock.Server.{IsServer, Holds, Establishes}
use volcano_vgpu_device_plug.NodeLock.Retry.{write_node-Holds, write_node-updates}

-- The node carries the lock.
abbrev pub IsLocked : Str → Node → Type 0
IsLocked lock_name n = (text : Str) × (node_annotation lock_name n ≡ some text)

with_lock-IsLocked :
    (lock_name text : Str) (n n' : Node)
    → with_lock lock_name text n ≡ some n'
    → (n'.name ≡ n.name) × (node_annotation lock_name n' ≡ some text)
unfolding with_lock node_annotation
with_lock-IsLocked lock_name text n n' h = elim (Option-cases n.annotations) [
  | inl e ↦ ground arith
  | inr (m, e) ↦ ground (arith, lookup-insert lock_name lock_name text m, str_eq_refl lock_name)
]

module _ {W : Type 0} (api : Client W) (clock : Clock W) (holds : W → Str → Option Node)
    (updates : W → ℕ) (server : IsServer api holds updates) (node_name lock_name : Str) where
  lock_now-Establishes : Establishes (IsLocked lock_name) (lock_now api clock lock_name)
  lock_now-Establishes n n' w h =
      let (e, l) = with_lock-IsLocked lock_name (clock.format (clock.now w)) n n' h in
      (e, (clock.format (clock.now w), l))

  set_tested-Holds :
      (lock : Option Str) (n : Node) (w w' : W)
      → n.name ≡ node_name
      → set_tested api clock node_name lock_name lock n w ≡ (done, w')
      → Holds holds (IsLocked lock_name) node_name w'
  unfolding set_tested
  set_tested-Holds (some _) n w w' e h = cc
  set_tested-Holds none n w w' e h =
      write_node-Holds api clock holds updates server (IsLocked lock_name) node_name
        (lock_now api clock lock_name) n w w' lock_now-Establishes e h

  set_read-Holds :
      (read : Option Node) (w w' : W)
      → ((n : Node) → read ≡ some n → n.name ≡ node_name)
      → set_read api clock node_name lock_name read w ≡ (done, w')
      → Holds holds (IsLocked lock_name) node_name w'
  unfolding set_read
  set_read-Holds none w w' e h = cc
  set_read-Holds (some n) w w' e h =
      set_tested-Holds (node_annotation lock_name n) n w w' (e n refl) h

  read_name : (w : W) (n : Node) → (api.get_node node_name w).0 ≡ some n → n.name ≡ node_name
  read_name w n e = server.get_name node_name w (api.get_node node_name w).1 n (ground arith)

  -- When setNodeLock returns no error, the server holds the node with the lock.
  pub set_node_lock-Holds :
      (w w' : W)
      → set_node_lock api clock node_name lock_name w ≡ (done, w')
      → Holds holds (IsLocked lock_name) node_name w'
  unfolding set_node_lock
  set_node_lock-Holds w w' h =
      set_read-Holds (api.get_node node_name w).0 (api.get_node node_name w).1 w' (read_name w) h

  lock_parsed-Holds :
      (time : Option ℕ) (w w' : W)
      → lock_parsed api clock node_name lock_name time w ≡ (done, w')
      → Holds holds (IsLocked lock_name) node_name w'
  unfolding lock_parsed
  lock_parsed-Holds none w w' h = cc
  lock_parsed-Holds (some t) w w' h = elim (Bool-cases (ltb lock_timeout (clock.now w - t))) [
    | inl e ↦ and_then-Holds (release_node_lock api clock node_name lock_name w) (rw e at h)
    | inr e ↦ ground arith
  ]
    where
      and_then-Holds :
          (r : Outcome × W)
          → and_then r (set_node_lock api clock node_name lock_name) ≡ (done, w')
          → Holds holds (IsLocked lock_name) node_name w'
      and_then-Holds (done, v) g = set_node_lock-Holds v w' g
      and_then-Holds (failed, v) g = cc
      and_then-Holds (panicked, v) g = cc

  lock_tested-Holds :
      (lock : Option Str) (w w' : W)
      → lock_tested api clock node_name lock_name lock w ≡ (done, w')
      → Holds holds (IsLocked lock_name) node_name w'
  unfolding lock_tested
  lock_tested-Holds none w w' h = set_node_lock-Holds w w' h
  lock_tested-Holds (some text) w w' h = lock_parsed-Holds (clock.parse text) w w' h

  lock_read-Holds :
      (read : Option Node) (w w' : W)
      → lock_read api clock node_name lock_name read w ≡ (done, w')
      → Holds holds (IsLocked lock_name) node_name w'
  unfolding lock_read
  lock_read-Holds none w w' h = cc
  lock_read-Holds (some n) w w' h = lock_tested-Holds (node_annotation lock_name n) w w' h

  -- When LockNode returns no error, the server holds the node with the lock, whether the node was
  -- free or an expired lock was replaced.
  pub lock_node-Holds :
      (w w' : W)
      → lock_node api clock node_name lock_name w ≡ (done, w')
      → Holds holds (IsLocked lock_name) node_name w'
  unfolding lock_node
  lock_node-Holds w w' h =
      lock_read-Holds (api.get_node node_name w).0 (api.get_node node_name w).1 w' h

  set_tested-updates :
      (lock : Option Str) (n : Node) (w : W)
      → updates (set_tested api clock node_name lock_name lock n w).1 ≤ updates w + 6
  unfolding set_tested
  set_tested-updates (some _) n w = omega arith
  set_tested-updates none n w =
      write_node-updates api clock holds updates server node_name (lock_now api clock lock_name) n w

  set_read-updates :
      (read : Option Node) (w : W)
      → updates (set_read api clock node_name lock_name read w).1 ≤ updates w + 6
  unfolding set_read
  set_read-updates none w = omega arith
  set_read-updates (some n) w = set_tested-updates (node_annotation lock_name n) n w

  -- setNodeLock sends at most six updates, whatever the server answers.
  pub set_node_lock-updates :
      (w : W) → updates (set_node_lock api clock node_name lock_name w).1 ≤ updates w + 6
  unfolding set_node_lock
  set_node_lock-updates w = omega (
    arith,
    set_read-updates (api.get_node node_name w).0 (api.get_node node_name w).1,
    server.get_updates node_name w,
  )

  -- The lock is no time, or one at most 300 seconds ago.
  abbrev pub IsFresh : Str → W → Type 0
  IsFresh text w = (t : ℕ) → clock.parse text ≡ some t → clock.now w ≤ t + 300

  -- A node without the lock is locked.
  abbrev pub LocksFree : Node → W → Outcome × W → Type 0
  LocksFree n w r =
      (node_annotation lock_name n ≡ none) × (r ≡ set_node_lock api clock node_name lock_name w)

  -- A lock more than 300 seconds old is released, and the node is locked unless that fails.
  abbrev pub TakesOver : Node → W → Outcome × W → Type 0
  TakesOver n w r =
      (text : Str) × (t : ℕ) × (node_annotation lock_name n ≡ some text)
      × (clock.parse text ≡ some t)
      × (t + 300 < clock.now w)
      × (r
          ≡ and_then (release_node_lock api clock node_name lock_name w)
              (set_node_lock api clock node_name lock_name))

  -- Another lock is respected: an error, without an update.
  abbrev pub Respects : ℕ → Node → W → Outcome × W → Type 0
  Respects sent n w r =
      (text : Str) × (node_annotation lock_name n ≡ some text)
      × IsFresh text w
      × (r.0 ≡ failed)
      × (updates r.1 ≡ sent)

  -- A second holder is not excluded. The lock is absent from the first read, the first update is
  -- refused, and the second read shows that another one has taken the lock meanwhile: setNodeLock
  -- overwrites that lock and returns no error, if its second update is accepted.
  pub set_node_lock-overwrites :
      (w w₁ w₂ w₃ w₄ : W) (n n₁ m m₁ : Node) (theirs : Str)
      → api.get_node node_name w ≡ (some n, w₁)
      → node_annotation lock_name n ≡ none
      → lock_now api clock lock_name n w₁ ≡ some n₁
      → api.update_node n₁ w₁ ≡ (false, w₂)
      → api.get_node node_name w₂ ≡ (some m, w₃)
      → node_annotation lock_name m ≡ some theirs
      → lock_now api clock lock_name m w₃ ≡ some m₁
      → api.update_node m₁ w₃ ≡ (true, w₄)
      → (set_node_lock api clock node_name lock_name w ≡ (done, w₄))
        × (node_annotation lock_name m₁ ≡ some (clock.format (clock.now w₃)))
  set_node_lock-overwrites w w₁ w₂ w₃ w₄ n n₁ m m₁ theirs r₁ free c₁ u₁ r₂ taken c₂ u₂ = (
    unfold set_node_lock set_read set_tested write_node retry update_with in ground arith,
    (with_lock-IsLocked lock_name (clock.format (clock.now w₃)) m m₁ c₂).1,
  )
