-- ===== src/Vgpu/Capability.antt =====
-- The walk over the chain of capabilities, with the positions that it has not visited.
use volcano_vgpu_device_plug.Prelude.{
  ℕ, zero, suc, ◌+◌, ◌≤◌, ◌<◌, ◌≡◌, ◌≢◌, refl, ap, Bool, false, none, some, List, [], ◌∷◌, arith,
  ltb, ◌==◌, ==_iff, if◌then◌else◌, length, All, Bool-cases, inl, inr,
}
use volcano_vgpu_device_plug.Vgpu.{
  Loop, ended, out_of_fuel, uint8, byte, has_capability_list, visit, cut_capability, chain_loop,
  chain_fuel, vendor_specific_capability,
}

-- How many of the positions below `n` are not visited.
unfoldable unvisited : ℕ → (ℕ → Bool) → ℕ
unvisited zero visited = 0
unvisited (suc n) visited = if visited n then unvisited n visited else suc (unvisited n visited)

unvisited-le : (n : ℕ) (visited : ℕ → Bool) → unvisited n visited ≤ n
unfolding unvisited
unvisited-le zero visited = omega arith
unvisited-le (suc n) visited = ground (arith, unvisited-le n visited)

-- Visiting a position at or above `n` changes nothing below.
unvisited-visit_above :
    (n pos : ℕ) (visited : ℕ → Bool)
    → n ≤ pos
    → unvisited n (visit visited pos) ≡ unvisited n visited
unfolding unvisited
unvisited-visit_above zero pos visited h = refl
unvisited-visit_above (suc n) pos visited h =
    ground (arith, unvisited-visit_above n pos visited (omega arith))

-- A first visit leaves one position less.
unvisited-visit :
    (n pos : ℕ) (visited : ℕ → Bool)
    → pos < n
    → visited pos ≡ false
    → unvisited n (visit visited pos) + 1 ≡ unvisited n visited
unfolding unvisited
unvisited-visit zero pos visited h new = absurd (omega arith)
unvisited-visit (suc n) pos visited h new = elim (Bool-cases (pos == n)) [
  | inl e ↦ ground (
    arith,
    unvisited-visit_above n pos visited (ground arith),
    new,
    ap visited ((==_iff pos n).0 e),
  )
  | inr e ↦ ground (arith, unvisited-visit n pos visited (ground arith) new)
]

byte-lt : (config : List ℕ) (pos : ℕ) → All (λ b. b < 256) config → byte config pos < 256
unfolding byte
byte-lt [] pos h = omega arith
byte-lt (b ∷ config) zero (hb, h) = hb
byte-lt (b ∷ config) (suc pos) (hb, h) = byte-lt config pos h

cut_capability-ends : (config : List ℕ) (pos : ℕ) → cut_capability config pos ≢ out_of_fuel
cut_capability-ends config pos e = ground arith

chain_loop-ends :
    (config : List ℕ) (fuel : ℕ) (visited : ℕ → Bool) (pos : ℕ)
    → All (λ b. b < 256) config
    → pos < 256
    → unvisited 256 visited < fuel
    → chain_loop config fuel visited pos ≢ out_of_fuel
unfolding chain_loop
chain_loop-ends config zero visited pos bytes h enough = absurd (omega arith)
chain_loop-ends config (suc fuel) visited pos bytes h enough = ground (
  arith,
  cut_capability-ends config pos,
  unvisited-visit 256 pos visited h,
  λ (next : unvisited 256 (visit visited pos) < fuel).
      chain_loop-ends config fuel (visit visited pos) (byte config (uint8 (pos + 1))) bytes
        (byte-lt config (uint8 (pos + 1)) bytes) next,
)

chain_loop-ends_start :
    (config : List ℕ) (pos : ℕ)
    → All (λ b. b < 256) config
    → pos < 256
    → chain_loop config chain_fuel (λ _. false) pos ≢ out_of_fuel
chain_loop-ends_start config pos bytes h =
    let few = unvisited-le 256 (λ _. false) in
    chain_loop-ends config chain_fuel (λ _. false) pos bytes h (omega arith)

guarded-ends :
    (short listed : Bool) (loop : Loop (List ℕ))
    → loop ≢ out_of_fuel
    → (if short then none else if listed then some loop else some ended) ≢ some out_of_fuel
guarded-ends short listed loop ends e = ground arith

-- GetVendorSpecificCapability returns on every configuration of bytes: the walk over the chain of
-- capabilities never needs more steps than the fuel gives.
pub vendor_specific_capability-ends :
    (config : List ℕ)
    → All (λ b. b < 256) config
    → vendor_specific_capability config ≢ some out_of_fuel
unfolding vendor_specific_capability
vendor_specific_capability-ends config bytes e =
    guarded-ends (ltb (length config) 256) (has_capability_list (byte config 6))
      (chain_loop config chain_fuel (λ _. false) (byte config 52))
      (chain_loop-ends_start config (byte config 52) bytes (byte-lt config 52 bytes)) e
