-- ===== src/Tests/Lock.antt =====
-- pkg/util/nodelock: a server with one node, which refuses an update while others change the node.
use volcano_vgpu_device_plug.Prelude.{
  ℕ, ◌+◌, ◌≤◌, ◌≡◌, refl, Bool, true, false, Option, none, some, List, [], ◌∷◌, arith,
  if◌then◌else◌,
}
use volcano_vgpu_device_plug.GoText.{
  Str, codes, contains, has_prefix, str_eq, str_eq_iff, str_eq_refl,
}
use volcano_vgpu_device_plug.GoNum.{format_uint, parse_uint, max_uint64}
use volcano_vgpu_device_plug.Kube.Dict.{lookup, insert, remove}
use volcano_vgpu_device_plug.Util.Types.{assigned_ids_to_allocate_annotations}
use volcano_vgpu_device_plug.Kube.Objects.{annotation, Node, Pod, node_annotation}
use volcano_vgpu_device_plug.Kube.Client.{Client}
use volcano_vgpu_device_plug.NodeLock.{
  Clock, done, with_lock, without_lock, update_with, retry, write_node, lock_now, set_tested,
  set_read, set_node_lock, release_tested, release_read, release_node_lock, lock_tested, lock_read,
  lock_node,
}
use volcano_vgpu_device_plug.NodeLock.Server.{IsServer, Holds}
use volcano_vgpu_device_plug.NodeLock.Acquire.{
  IsLocked, set_node_lock-updates, lock_node-Holds, set_node_lock-overwrites,
}
use volcano_vgpu_device_plug.Util.Allocation.{
  end_allocation, pod_allocation_success, pod_allocation_try_success,
}
use volcano_vgpu_device_plug.Util.Allocation.Released.{Settles, pod_allocation_try_success-Settles}
use volcano_vgpu_device_plug.NodeLock.Release.{IsFree, release_node_lock-Holds}

-- The node, what others make of it at each refused update, and the number of updates.
pub record World : Type 0 where
  pub node : Node
  pub changes : List Node
  pub sent : ℕ

abbrev read_node : Str → World → Option Node × World
read_node name w = (if str_eq w.node.name name then some w.node else none, w)

abbrev write_to : List Node → Node → World → Bool × World
write_to [] n w = (true, record { node = n; changes = []; sent = w.sent + 1 })
write_to (m ∷ changes) n w = (false, record { node = m; changes = changes; sent = w.sent + 1 })

abbrev pub server : Client World
server = record {
  list_pods = λ w. (none, w);
  get_pod = λ p w. (some p, w);
  patch_pod = λ p annotations w. (false, w);
  get_node = read_node;
  update_node = λ n w. write_to w.changes n w;
  patch_node = λ n annotations w. (false, w);
}

abbrev pub clock : Clock World
clock = record {
  now = λ w. 1000;
  format = format_uint;
  parse = λ text. (let (t, bad) = parse_uint max_uint64 text in if bad then none else some t);
}

abbrev pub node_of : World → Str → Option Node
node_of w name = if str_eq w.node.name name then some w.node else none

write_holds :
    (changes : List Node) (n : Node) (w w' : World)
    → write_to changes n w ≡ (true, w')
    → node_of w' n.name ≡ some n
write_holds [] n w w' h = ground (arith, str_eq_refl n.name)
write_holds (m ∷ changes) n w w' h = cc

write_sent :
    (changes : List Node) (n : Node) (w : World) → (write_to changes n w).1.sent ≡ w.sent + 1
write_sent [] n w = refl
write_sent (m ∷ changes) n w = refl

pub server-IsServer : IsServer server node_of (λ w. w.sent)
server-IsServer = record {
  get_name = λ name w w' n h. ground (arith, str_eq_iff w.node.name name);
  get_holds = λ name w w' n h. ground arith;
  update_holds = λ n w w' h. write_holds w.changes n w w' h;
  get_updates = λ name w. refl;
  update_updates = λ n w. write_sent w.changes n w;
}

abbrev pub lock_key : Str
lock_key = codes "hamivgpu"

abbrev pub free_node : Node
free_node = record { name = codes "n1"; annotations = some [] }

abbrev pub locked_node : Str → Node
locked_node text = record { name = codes "n1"; annotations = some ((lock_key, text) ∷ []) }

abbrev pub world : Node → List Node → ℕ → World
world n changes sent = record { node = n; changes = changes; sent = sent }

abbrev pub start : World
start = world free_node [] 0

abbrev pub locked : World
locked = world (locked_node (format_uint 1000)) [] 1

lock_start : lock_node server clock (codes "n1") lock_key start ≡ (done, locked)
unfolding lock_node lock_read lock_tested set_node_lock set_read set_tested write_node update_with
    retry with_lock node_annotation lookup insert str_eq
lock_start = refl

lock_node-Holds_example : Holds node_of (IsLocked lock_key) (codes "n1") locked
lock_node-Holds_example =
    lock_node-Holds server clock node_of (λ w. w.sent) server-IsServer (codes "n1") lock_key start
      locked lock_start

unlock_locked :
    release_node_lock server clock (codes "n1") lock_key locked ≡ (done, world free_node [] 2)
unfolding release_node_lock release_read release_tested write_node update_with retry without_lock
    node_annotation lookup remove str_eq
unlock_locked = refl

release_node_lock-Holds_example :
    Holds node_of (IsFree lock_key) (codes "n1") (world free_node [] 2)
release_node_lock-Holds_example =
    release_node_lock-Holds server clock node_of (λ w. w.sent) server-IsServer (codes "n1") lock_key
      locked (world free_node [] 2) unlock_locked

-- others keep the updates from the server
abbrev busy : World
busy =
    world free_node
      (free_node ∷ free_node ∷ free_node ∷ free_node ∷ free_node ∷ free_node ∷ free_node ∷ []) 0

set_node_lock-updates_example :
    (set_node_lock server clock (codes "n1") lock_key busy).1.sent ≤ 0 + 6
set_node_lock-updates_example =
    set_node_lock-updates server clock node_of (λ w. w.sent) server-IsServer (codes "n1") lock_key
      busy

abbrev contended : World
contended = world free_node (locked_node (codes "999") ∷ []) 0

abbrev ours : Node
ours = locked_node (format_uint 1000)

abbrev theirs : Node
theirs = locked_node (codes "999")

read_free : server.get_node (codes "n1") contended ≡ (some free_node, contended)
unfolding str_eq
read_free = refl

read_taken : server.get_node (codes "n1") (world theirs [] 1) ≡ (some theirs, world theirs [] 1)
unfolding str_eq
read_taken = refl

free_lock : node_annotation lock_key free_node ≡ none
unfolding node_annotation lookup
free_lock = refl

taken_lock : node_annotation lock_key theirs ≡ some (codes "999")
unfolding node_annotation lookup str_eq
taken_lock = refl

lock_free : lock_now server clock lock_key free_node contended ≡ some ours
unfolding with_lock insert
lock_free = refl

lock_taken : lock_now server clock lock_key theirs (world theirs [] 1) ≡ some ours
unfolding with_lock insert str_eq
lock_taken = refl

set_node_lock-overwrites_example :
    (set_node_lock server clock (codes "n1") lock_key contended ≡ (done, world ours [] 2))
    × (node_annotation lock_key ours ≡ some (format_uint 1000))
set_node_lock-overwrites_example =
    set_node_lock-overwrites server clock node_of (λ w. w.sent) server-IsServer (codes "n1")
      lock_key contended contended (world theirs [] 1) (world theirs [] 1) (world ours [] 2)
      free_node ours theirs ours (codes "999") read_free free_lock lock_free refl read_taken
      taken_lock lock_taken refl

abbrev finished_pod : Pod
finished_pod = record {
  name = codes "p";
  uid = codes "u";
  annotations = (assigned_ids_to_allocate_annotations, codes ";") ∷ [];
  containers = [];
}

-- a pod with a device left
abbrev unfinished_pod : Pod
unfinished_pod = record finished_pod {
  annotations = (assigned_ids_to_allocate_annotations, codes "g1,NVIDIA-GPU,1000,30:;") ∷ [];
}

allocation_goes_on :
    pod_allocation_try_success server clock (codes "n1") unfinished_pod locked ≡ (none, locked)
unfolding pod_allocation_try_success contains has_prefix annotation lookup str_eq
allocation_goes_on = refl

allocation_ended :
    pod_allocation_try_success server clock (codes "n1") finished_pod locked
    ≡ (some done, world free_node [] 2)
unfolding pod_allocation_try_success pod_allocation_success end_allocation contains has_prefix
    annotation release_node_lock release_read release_tested write_node update_with retry
    without_lock node_annotation lookup remove str_eq
allocation_ended = refl

pod_allocation_try_success-Settles_example :
    let (refreshed, w') = server.get_pod finished_pod locked in
    let (outcome, w'') = pod_allocation_try_success server clock (codes "n1") finished_pod locked in
    Settles server clock node_of
      (λ w. w.sent)
      server-IsServer
      (codes "n1")
      finished_pod
      refreshed
      outcome
      w'
      w''
pod_allocation_try_success-Settles_example =
    pod_allocation_try_success-Settles server clock node_of (λ w. w.sent) server-IsServer
      (codes "n1") finished_pod locked
