-- ===== src/NodeLock/Server.antt =====
-- What the lock relies on of the API server: a read returns the node of that name which the server
-- holds, an accepted update is what the server holds behind it, and how many updates were sent.
use volcano_vgpu_device_plug.Prelude.{ℕ, ◌+◌, ◌≡◌, true, Option, some}
use volcano_vgpu_device_plug.GoText.{Str}
use volcano_vgpu_device_plug.Kube.Objects.{Node}
use volcano_vgpu_device_plug.Kube.Client.{Client}

pub record IsServer {W : Type 0} (api : Client W) (holds : W → Str → Option Node) (updates : W → ℕ)
    : Type 0 where
  pub get_name :
      (name : Str) (w w' : W) (n : Node) → api.get_node name w ≡ (some n, w') → n.name ≡ name
  pub get_holds :
      (name : Str) (w w' : W) (n : Node)
      → api.get_node name w ≡ (some n, w')
      → holds w' name ≡ some n
  pub update_holds :
      (n : Node) (w w' : W) → api.update_node n w ≡ (true, w') → holds w' n.name ≡ some n
  pub get_updates : (name : Str) (w : W) → updates (api.get_node name w).1 ≡ updates w
  pub update_updates : (n : Node) (w : W) → updates (api.update_node n w).1 ≡ updates w + 1

-- The server holds a node of that name with the property.
abbrev pub Holds : {W : Type 0} → (W → Str → Option Node) → (Node → Type 0) → Str → W → Type 0
Holds holds Q name w = (n : Node) × (holds w name ≡ some n) × Q n

-- A change keeps the name of a node and establishes the property.
abbrev pub Establishes : {W : Type 0} → (Node → Type 0) → (Node → W → Option Node) → Type 0
Establishes {W} Q change = (n n' : Node) (w : W) → change n w ≡ some n' → (n'.name ≡ n.name) × Q n'
