-- ===== src/NodeLock.antt =====
-- pkg/util/nodelock/nodelock.go: the lock of a node is an annotation with the time at which it was
-- taken. The API server is a `Client`, whose errors are outcomes; time.Now and the RFC 3339 text of
-- a time are a `Clock`.
pub mod Server
mod Retry
pub mod Release
pub mod Acquire
use volcano_vgpu_device_plug.Prelude.{
  ℕ, zero, suc, ◌+◌, ◌-◌, ◌≡◌, Bool, true, false, Option, none, some, ltb, if◌then◌else◌,
}
use volcano_vgpu_device_plug.GoText.{Str}
use volcano_vgpu_device_plug.Kube.Dict.{Dict, lookup, insert, remove}
use volcano_vgpu_device_plug.Kube.Objects.{Node, node_annotation}
use volcano_vgpu_device_plug.Kube.Client.{Client}

abbrev pub max_lock_retry : ℕ
max_lock_retry = 5

-- time.Minute * 5, in seconds
abbrev pub lock_timeout : ℕ
lock_timeout = 300

-- Times in seconds, with their texts.
pub record Clock (W : Type 0) : Type 0 where
  pub now : W → ℕ
  pub format : ℕ → Str
  pub parse : Str → Option ℕ

-- What a call did: it returned no error, it returned an error, or it wrote to a nil map.
pub data Outcome : Type 0 where
  done failed panicked : Outcome

-- The rest of a function behind a call that must not fail.
abbrev pub and_then : {W : Type 0} → Outcome × W → (W → Outcome × W) → Outcome × W
and_then (done, w) rest = rest w
and_then (failed, w) rest = (failed, w)
and_then (panicked, w) rest = (panicked, w)

-- newNode.ObjectMeta.Annotations[lockName] = text
unfoldable pub with_lock : Str → Str → Node → Option Node
with_lock lock_name text n = elim (n.annotations) [
  | none ↦ none
  | some m ↦ some (record n { annotations = some (insert lock_name text m) })
]

-- delete(newNode.ObjectMeta.Annotations, lockName)
unfoldable pub without_lock : Str → Node → Option Node
without_lock lock_name n = elim (n.annotations) [
  | none ↦ some n
  | some m ↦ some (record n { annotations = some (remove lock_name m) })
]

module _ {W : Type 0} (api : Client W) (clock : Clock W) where
  -- The update that follows a change of the node; a change that panics ends the call.
  unfoldable pub update_with : Option Node → W → Option Bool × W
  update_with none w = (none, w)
  update_with (some n) w = let (updated, w') = api.update_node n w in (some updated, w')

  -- The loop `for i := 0; i < MaxLockRetry && err != nil; i++` with the rounds that are left. The
  -- flag says that the last call succeeded, and `change` is what a round does to the node it reads.
  unfoldable pub retry : ℕ → Str → (Node → W → Option Node) → Option Bool → W → Outcome × W
  unfolding update_with
  retry rounds node_name change none w = (panicked, w)
  retry rounds node_name change (some true) w = (done, w)
  retry zero node_name change (some false) w = (failed, w)
  retry (suc rounds) node_name change (some false) w =
      let (read, w') = api.get_node node_name w in
      elim read [
        | none ↦ retry rounds node_name change (some false) w'
        | some n ↦
            let (updated, w'') = update_with (change n w') w' in
            retry rounds node_name change updated w''
      ]

  -- The first update of a node that was read, and the retries.
  unfoldable pub write_node : Str → (Node → W → Option Node) → Node → W → Outcome × W
  unfolding retry
  write_node node_name change n w =
      let (updated, w') = update_with (change n w) w in
      retry max_lock_retry node_name change updated w'

  abbrev pub lock_now : Str → Node → W → Option Node
  lock_now lock_name n w = with_lock lock_name (clock.format (clock.now w)) n

  abbrev pub unlock : Str → Node → W → Option Node
  unlock lock_name n w = without_lock lock_name n

  -- The parts of setNodeLock behind its read and behind its test for the lock.
  unfoldable pub set_tested : Str → Str → Option Str → Node → W → Outcome × W
  unfolding write_node
  set_tested node_name lock_name (some _) n w = (failed, w)
  set_tested node_name lock_name none n w = write_node node_name (lock_now lock_name) n w

  unfoldable pub set_read : Str → Str → Option Node → W → Outcome × W
  unfolding set_tested
  set_read node_name lock_name none w = (failed, w)
  set_read node_name lock_name (some n) w =
      set_tested node_name lock_name (node_annotation lock_name n) n w

  unfoldable pub set_node_lock : Str → Str → W → Outcome × W
  unfolding set_read
  set_node_lock node_name lock_name w =
      let (read, w') = api.get_node node_name w in set_read node_name lock_name read w'

  -- The same of ReleaseNodeLock: a node without the lock is left alone.
  unfoldable pub release_tested : Str → Str → Option Str → Node → W → Outcome × W
  unfolding write_node
  release_tested node_name lock_name none n w = (done, w)
  release_tested node_name lock_name (some _) n w = write_node node_name (unlock lock_name) n w

  unfoldable pub release_read : Str → Str → Option Node → W → Outcome × W
  unfolding release_tested
  release_read node_name lock_name none w = (failed, w)
  release_read node_name lock_name (some n) w =
      release_tested node_name lock_name (node_annotation lock_name n) n w

  unfoldable pub release_node_lock : Str → Str → W → Outcome × W
  unfolding release_read
  release_node_lock node_name lock_name w =
      let (read, w') = api.get_node node_name w in release_read node_name lock_name read w'

  -- LockNode behind its read, its test for the lock, and time.Parse of the lock.
  unfoldable pub lock_parsed : Str → Str → Option ℕ → W → Outcome × W
  unfolding set_node_lock release_node_lock
  lock_parsed node_name lock_name none w = (failed, w)
  lock_parsed node_name lock_name (some lock_time) w =
      if ltb lock_timeout (clock.now w - lock_time)
      then and_then (release_node_lock node_name lock_name w) (set_node_lock node_name lock_name)
      else (failed, w)

  unfoldable pub lock_tested : Str → Str → Option Str → W → Outcome × W
  unfolding lock_parsed
  lock_tested node_name lock_name none w = set_node_lock node_name lock_name w
  lock_tested node_name lock_name (some text) w =
      lock_parsed node_name lock_name (clock.parse text) w

  unfoldable pub lock_read : Str → Str → Option Node → W → Outcome × W
  unfolding lock_tested
  lock_read node_name lock_name none w = (failed, w)
  lock_read node_name lock_name (some n) w =
      lock_tested node_name lock_name (node_annotation lock_name n) w

  unfoldable pub lock_node : Str → Str → W → Outcome × W
  unfolding lock_read
  lock_node node_name lock_name w =
      let (read, w') = api.get_node node_name w in lock_read node_name lock_name read w'
