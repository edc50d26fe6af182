-- ===== src/Monitor/Blocking.antt =====
-- What a round of Observe leaves behind of each container.
use mathlib.Core.Path.{subst}
use volcano_vgpu_device_plug.Prelude.{
  ◌≡◌, refl, sym, ap, ◌∙◌, Bool, true, false, some, List, [], ◌∷◌, arith, >>=-eq-some, some_eq, All,
}
use volcano_vgpu_device_plug.Prelude.Int.{ℤ, pos, negsuc, is_neg}
use volcano_vgpu_device_plug.GoText.{Str}
use volcano_vgpu_device_plug.Monitor.{
  Usage, SwitchOn, any_active, check_blocking, check_priority, count_active, set_blocking,
  switch_value, set_switches, observe,
}

-- What Observe leaves behind of a container.
abbrev pub IsSettled : SwitchOn → Usage → Type 0
IsSettled on c =
    (check_blocking on c.priority c.uuids ≡ some (is_neg c.recent_kernel))
    × ((throttled : Bool) × (check_priority on c.priority c.uuids ≡ some throttled)
        × (c.utilization_switch ≡ switch_value throttled))

is_neg-set_blocking : (b : Bool) (z : ℤ) → is_neg (set_blocking b z) ≡ b
unfolding set_blocking
is_neg-set_blocking true (pos n) = refl
is_neg-set_blocking true (negsuc n) = refl
is_neg-set_blocking false (pos n) = refl
is_neg-set_blocking false (negsuc n) = refl

set_switches-IsSettled :
    (on : SwitchOn) (cs : List Usage) {cs' : List Usage}
    → set_switches on cs ≡ some cs'
    → All (IsSettled on) cs'
unfolding set_switches
set_switches-IsSettled on [] h = subst (All (IsSettled on)) (some_eq h) tt
set_switches-IsSettled on (c ∷ cs) h =
    let (blocking, b, h₁) = >>=-eq-some (check_blocking on c.priority c.uuids) _ h in
    let (throttled, t, h₂) = >>=-eq-some (check_priority on c.priority c.uuids) _ h₁ in
    let (rest, r, h₃) = >>=-eq-some (set_switches on cs) _ h₂ in
    subst (All (IsSettled on)) (some_eq h₃) (
      (b ∙ ap some (sym (is_neg-set_blocking blocking c.recent_kernel)), (throttled, t, refl)),
      set_switches-IsSettled on cs r,
    )

-- A container of priority 0 is never blocked.
check_blocking_top :
    (on : SwitchOn) (uuids : List Str) → check_blocking on (pos 0) uuids ≡ some false
unfolding check_blocking any_active
check_blocking_top on [] = refl
check_blocking_top on (u ∷ us) = ground (arith, check_blocking_top on us)

-- A round of Observe that does not panic counts the active containers once, and then leaves every
-- container blocked exactly if CheckBlocking says so on those counts, and with its switch on exactly
-- if CheckPriority says so; so no container of priority 0 is blocked.
pub observe-IsSettled :
    (cs : List Usage) {cs' : List Usage}
    → observe cs ≡ some cs'
    → (counted : List Usage) × (on : SwitchOn) × (count_active cs [] ≡ some (counted, on))
      × All (IsSettled on) cs'
      × All (λ c. c.priority ≡ pos 0 → is_neg c.recent_kernel ≡ false) cs'
unfolding observe
observe-IsSettled cs {cs'} h =
    let ((counted, on), e, h₁) = >>=-eq-some (count_active cs []) _ h in
    let settled = set_switches-IsSettled on counted h₁ in
    (counted, on, e, settled, never_blocked on cs' settled)
  where
    never_blocked :
        (on : SwitchOn) (l : List Usage)
        → All (IsSettled on) l
        → All (λ c. c.priority ≡ pos 0 → is_neg c.recent_kernel ≡ false) l
    never_blocked on [] s = tt
    never_blocked on (c ∷ l) (s, ss) = (
      λ top.
          some_eq
            (sym s.0 ∙ ap (λ p. check_blocking on p c.uuids) top ∙ check_blocking_top on c.uuids),
      never_blocked on l ss,
    )
