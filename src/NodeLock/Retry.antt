-- ===== src/NodeLock/Retry.antt =====
-- The retry loop that setNodeLock and ReleaseNodeLock share.
use mathlib.Core.Path.{subst}
use volcano_vgpu_device_plug.Prelude.{
  ℕ, zero, suc, ◌+◌, ◌≤◌, ◌≡◌, refl, sym, ap, ◌∙◌, Bool, true, false, Option, none, some, arith,
  Option-cases, inl, inr,
}
use volcano_vgpu_device_plug.GoText.{Str}
use volcano_vgpu_device_plug.Kube.Objects.{Node}
use volcano_vgpu_device_plug.Kube.Client.{Client}
use volcano_vgpu_device_plug.NodeLock.{
  Clock, Outcome, done, update_with, retry, write_node, max_lock_retry,
}
use volcano_vgpu_device_plug.NodeLock.Server.{IsServer, Holds, Establishes}

module _ {W : Type 0} (api : Client W) (clock : Clock W) (holds : W → Str → Option Node)
    (updates : W → ℕ) (server : IsServer api holds updates) where
  pub update_with-Holds :
      (Q : Node → Type 0) (name : Str) (o : Option Node) (w w' : W)
      → ((n' : Node) → o ≡ some n' → (n'.name ≡ name) × Q n')
      → update_with api clock o w ≡ (some true, w')
      → Holds holds Q name w'
  unfolding update_with
  update_with-Holds Q name none w w' good h = cc
  update_with-Holds Q name (some n) w w' good h =
      let (e, q) = good n refl in
      let accepted : api.update_node n w ≡ (true, w') = ground arith in
      (n, ap (holds w') (sym e) ∙ server.update_holds n w w' accepted, q)

  retry_unread :
      (rounds : ℕ) (name : Str) (change : Node → W → Option Node) (w : W)
      → (api.get_node name w).0 ≡ none
      → retry api clock (suc rounds) name change (some false) w
        ≡ retry api clock rounds name change (some false) (api.get_node name w).1
  unfolding retry
  retry_unread rounds name change w e = rw (e, retry)

  -- The update of a round.
  abbrev sent : Str → (Node → W → Option Node) → Node → W → Option Bool × W
  sent name change n w =
      update_with api clock (change n (api.get_node name w).1) (api.get_node name w).1

  retry_read :
      (rounds : ℕ) (name : Str) (change : Node → W → Option Node) (w : W) (n : Node)
      → (api.get_node name w).0 ≡ some n
      → retry api clock (suc rounds) name change (some false) w
        ≡ retry api clock rounds name change (sent name change n w).0 (sent name change n w).1
  unfolding retry
  retry_read rounds name change w n e = rw (e, retry)

  -- The node that the last round wrote is the one that the server holds.
  pub retry-Holds :
      (Q : Node → Type 0) (name : Str) (change : Node → W → Option Node) (rounds : ℕ)
      (cur : Option Bool) (w w' : W)
      → Establishes Q change
      → (cur ≡ some true → Holds holds Q name w)
      → retry api clock rounds name change cur w ≡ (done, w')
      → Holds holds Q name w'
  unfolding retry
  retry-Holds Q name change rounds none w w' est now h = cc
  retry-Holds Q name change zero (some true) w w' est now h =
      subst (Holds holds Q name) (ap (λ (p : Outcome × W). p.1) h) (now refl)
  retry-Holds Q name change (suc rounds) (some true) w w' est now h =
      subst (Holds holds Q name) (ap (λ (p : Outcome × W). p.1) h) (now refl)
  retry-Holds Q name change zero (some false) w w' est now h = cc
  retry-Holds Q name change (suc rounds) (some false) w w' est now h =
      elim (Option-cases (api.get_node name w).0) [
        | inl e ↦
            retry-Holds Q name change rounds (some false) (api.get_node name w).1 w' est (λ p. cc)
              (sym (retry_unread rounds name change w e) ∙ h)
        | inr (n, e) ↦
            retry-Holds Q name change rounds (sent name change n w).0 (sent name change n w).1 w'
              est
              (λ p.
                update_with-Holds Q name (change n (api.get_node name w).1) (api.get_node name w).1
                  (sent name change n w).1
                  (λ n' c.
                    let (kept, q) = est n n' (api.get_node name w).1 c in
                    (kept ∙ server.get_name name w (api.get_node name w).1 n (ground arith), q))
                  (ground arith))
              (sym (retry_read rounds name change w n e) ∙ h)
      ]

  pub update_with-updates :
      (o : Option Node) (w : W) → updates (update_with api clock o w).1 ≤ updates w + 1
  unfolding update_with
  update_with-updates none w = omega arith
  update_with-updates (some n) w = omega (arith, server.update_updates n w)

  -- A loop sends at most one update for each round that is left.
  pub retry-updates :
      (name : Str) (change : Node → W → Option Node) (rounds : ℕ) (cur : Option Bool) (w : W)
      → updates (retry api clock rounds name change cur w).1 ≤ updates w + rounds
  unfolding retry
  retry-updates name change rounds none w = omega arith
  retry-updates name change zero (some true) w = omega arith
  retry-updates name change (suc rounds) (some true) w = omega arith
  retry-updates name change zero (some false) w = omega arith
  retry-updates name change (suc rounds) (some false) w =
      elim (Option-cases (api.get_node name w).0) [
        | inl e ↦ rw (retry_unread rounds name change w e) (
            omega (
              arith,
              retry-updates name change rounds (some false) (api.get_node name w).1,
              server.get_updates name w,
            ))
        | inr (n, e) ↦ rw (retry_read rounds name change w n e) (
            omega (
              arith,
              retry-updates name change rounds (sent name change n w).0 (sent name change n w).1,
              update_with-updates (change n (api.get_node name w).1) (api.get_node name w).1,
              server.get_updates name w,
            ))
      ]

  -- A write that returns no error leaves a node with the property.
  pub write_node-Holds :
      (Q : Node → Type 0) (name : Str) (change : Node → W → Option Node) (n : Node) (w w' : W)
      → Establishes Q change
      → n.name ≡ name
      → write_node api clock name change n w ≡ (done, w')
      → Holds holds Q name w'
  unfolding write_node
  write_node-Holds Q name change n w w' est e h =
      retry-Holds Q name change max_lock_retry _ (update_with api clock (change n w) w).1 w' est
        (λ p.
          update_with-Holds Q name (change n w) w (update_with api clock (change n w) w).1
            (λ n' c. let (kept, q) = est n n' w c in (kept ∙ e, q)) (ground arith))
        h

  -- A write sends at most six updates.
  pub write_node-updates :
      (name : Str) (change : Node → W → Option Node) (n : Node) (w : W)
      → updates (write_node api clock name change n w).1 ≤ updates w + 6
  unfolding write_node
  write_node-updates name change n w = omega (
    arith,
    retry-updates name change max_lock_retry (update_with api clock (change n w) w).0
        (update_with api clock (change n w) w).1,
    update_with-updates (change n w) w,
  )
