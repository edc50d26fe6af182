-- ===== src/Monitor/Priority.antt =====
-- The priorities that index the counters of Observe.
use volcano_vgpu_device_plug.Prelude.{
  ℕ, zero, suc, ◌+◌, ◌<◌, ◌≡◌, refl, ap, ◌∙◌, Bool, true, false, Option, none, some, List, [], ◌∷◌,
  arith, ltb, ◌>>=◌, length, get_elem?, set, All, inl, inr, Bool-cases, Option-cases,
}
use volcano_vgpu_device_plug.Prelude.Int.{ℤ, pos, negsuc, pos_part}
use volcano_vgpu_device_plug.GoText.{Str}
use volcano_vgpu_device_plug.Kube.Dict.{lookup, insert, lookup-insert}
use volcano_vgpu_device_plug.Monitor.{
  Usage, SwitchOn, is_valid_uuid, counter, any_active, check_blocking, shared, check_priority,
  or_two, counters_of, bump, bump_all, decay, is_active, count_active, set_blocking, switch_value,
  set_switches, observe,
}

-- The priorities for which a device has a counter.
abbrev pub IsPriority : ℤ → Type 0
IsPriority (pos n) = n < 2
IsPriority (negsuc n) = ⊥

-- Every device that has counters has two.
abbrev IsCounted : SwitchOn → Type 0
IsCounted on = (u : Str) (ns : List ℕ) → lookup u on ≡ some ns → length ns ≡ 2

length-counters_of : (u : Str) (on : SwitchOn) → IsCounted on → length (counters_of u on) ≡ 2
length-counters_of u on k = go (lookup u on) refl
  where
    go : (o : Option (List ℕ)) → lookup u on ≡ o → length (or_two o) ≡ 2
    go none e = refl
    go (some []) e = refl
    go (some (n ∷ ns)) e = k u (n ∷ ns) e

IsCounted-nil : IsCounted []
IsCounted-nil u ns m = unfold lookup in cc

IsCounted-insert :
    (u : Str) (ns : List ℕ) (on : SwitchOn)
    → length ns ≡ 2
    → IsCounted on
    → IsCounted (insert u ns on)
IsCounted-insert u ns on l k v ms h = ground (arith, lookup-insert u v ns on, k v ms)

get_two : (ns : List ℕ) (i : ℕ) → i < 2 → length ns ≡ 2 → (n : ℕ) × (get_elem? ns i ≡ some n)
get_two [] i h l = absurd (omega arith)
get_two (a ∷ []) i h l = absurd (omega arith)
get_two (a ∷ b ∷ ns) zero h l = (a, refl)
get_two (a ∷ b ∷ ns) (suc zero) h l = (b, refl)
get_two (a ∷ b ∷ ns) (suc (suc i)) h l = absurd (omega arith)

length-set : (ns : List ℕ) (i v : ℕ) → length (set ns i v) ≡ length ns
length-set [] i v = refl
length-set (n ∷ ns) zero v = refl
length-set (n ∷ ns) (suc i) v = ap suc (length-set ns i v)

-- A step that succeeds and keeps two counters for every device.
abbrev Succeeds : Option SwitchOn → Type 0
Succeeds o = (on : SwitchOn) × (o ≡ some on) × IsCounted on

bump-Succeeds :
    (p : ℤ) (u : Str) (on : SwitchOn) → IsPriority p → IsCounted on → Succeeds (bump p u on)
unfolding bump
bump-Succeeds (negsuc n) u on h k = absurd h
bump-Succeeds (pos i) u on h k =
    let (n, e) = get_two (counters_of u on) i h (length-counters_of u on k) in
    (
      insert u (set (counters_of u on) i (n + 1)) on,
      rw (e, ◌>>=◌),
      IsCounted-insert u (set (counters_of u on) i (n + 1)) on
          (length-set (counters_of u on) i (n + 1) ∙ length-counters_of u on k) k,
    )

bump_all-Succeeds :
    (p : ℤ) (us : List Str) (on : SwitchOn)
    → IsPriority p
    → IsCounted on
    → Succeeds (bump_all p us on)
unfolding bump_all
bump_all-Succeeds p [] on h k = (on, refl, k)
bump_all-Succeeds p (u ∷ us) on h k = elim (Bool-cases (is_valid_uuid u)) [
  | inl e ↦
      let (on₁, e₁, k₁) = bump-Succeeds p u on h k in
      let (on₂, e₂, k₂) = bump_all-Succeeds p us on₁ h k₁ in (on₂, ground arith, k₂)
  | inr e ↦ let (on₂, e₂, k₂) = bump_all-Succeeds p us on h k in (on₂, ground arith, k₂)
]

any_active_total :
    (rounds i : ℕ) (ns : List ℕ)
    → rounds + i < 3
    → length ns ≡ 2
    → (b : Bool) × (any_active rounds i ns ≡ some b)
unfolding any_active
any_active_total zero i ns h l = (false, refl)
any_active_total (suc rounds) i ns h l =
    let (n, e) = get_two ns i (omega arith) l in
    elim (Bool-cases (ltb 0 n)) [
      | inl t ↦ (true, ground arith)
      | inr t ↦ let (b, r) = any_active_total rounds (suc i) ns (omega arith) l in (b, ground arith)
    ]

counter_total :
    (p : ℤ) (ns : List ℕ) → IsPriority p → length ns ≡ 2 → (n : ℕ) × (counter p ns ≡ some n)
unfolding counter
counter_total (pos i) ns h l = get_two ns i h l
counter_total (negsuc i) ns h l = absurd h

rounds_fit : (p : ℤ) → IsPriority p → pos_part p + 0 < 3
rounds_fit (pos n) h = omega arith
rounds_fit (negsuc n) h = absurd h

check_blocking_total :
    (on : SwitchOn) (p : ℤ) (us : List Str)
    → IsPriority p
    → IsCounted on
    → (b : Bool) × (check_blocking on p us ≡ some b)
unfolding check_blocking
check_blocking_total on p [] h k = (false, refl)
check_blocking_total on p (u ∷ us) h k = elim (Option-cases (lookup u on)) [
  | inl e ↦ let (b, r) = check_blocking_total on p us h k in (b, ground arith)
  | inr (ns, e) ↦
      let (b, r) = any_active_total (pos_part p) 0 ns (rounds_fit p h) (k u ns e) in
      (b, ground arith)
]

check_priority_total :
    (on : SwitchOn) (p : ℤ) (us : List Str)
    → IsPriority p
    → IsCounted on
    → (b : Bool) × (check_priority on p us ≡ some b)
unfolding check_priority shared
check_priority_total on p [] h k = (false, refl)
check_priority_total on p (u ∷ us) h k =
    let (b, r) = check_priority_total on p us h k in
    elim (Option-cases (lookup u on)) [
      | inl e ↦ (b, ground arith)
      | inr (ns, e) ↦
          let (a, s) = any_active_total (pos_part p) 0 ns (rounds_fit p h) (k u ns e) in
          let (n, t) = counter_total p ns h (k u ns e) in
          elim (Bool-cases a) [
            | inl higher ↦ (true, ground arith)
            | inr lower ↦ elim (Bool-cases (ltb 1 n)) [
              | inl more ↦ (true, ground arith)
              | inr alone ↦ (b, ground arith)
            ]
          ]
    ]

abbrev pub HasPriority : Usage → Type 0
HasPriority c = IsPriority c.priority

count_active-Succeeds :
    (cs : List Usage) (on : SwitchOn)
    → All HasPriority cs
    → IsCounted on
    → (cs' : List Usage) × (on' : SwitchOn) × (count_active cs on ≡ some (cs', on'))
      × All HasPriority cs'
      × IsCounted on'
unfolding count_active
count_active-Succeeds [] on h k = ([], on, refl, tt, k)
count_active-Succeeds (c ∷ cs) on (hc, h) k = elim (Bool-cases (is_active c.recent_kernel)) [
  | inl e ↦
      let (on₁, e₁, k₁) = bump_all-Succeeds c.priority c.uuids on hc k in
      let (cs', on₂, e₂, h₂, k₂) = count_active-Succeeds cs on₁ h k₁ in
      (record c { recent_kernel = decay c.recent_kernel } ∷ cs', on₂, ground arith, (hc, h₂), k₂)
  | inr e ↦
      let (cs', on₂, e₂, h₂, k₂) = count_active-Succeeds cs on h k in
      (record c { recent_kernel = decay c.recent_kernel } ∷ cs', on₂, ground arith, (hc, h₂), k₂)
]

set_switches_total :
    (on : SwitchOn) (cs : List Usage)
    → All HasPriority cs
    → IsCounted on
    → (cs' : List Usage) × (set_switches on cs ≡ some cs')
unfolding set_switches
set_switches_total on [] h k = ([], refl)
set_switches_total on (c ∷ cs) (hc, h) k =
    let (b, r) = check_blocking_total on c.priority c.uuids hc k in
    let (t, s) = check_priority_total on c.priority c.uuids hc k in
    let (cs', q) = set_switches_total on cs h k in
    (
      record c {
        recent_kernel = set_blocking b c.recent_kernel;
        utilization_switch = switch_value t;
      }
          ∷ cs',
      ground arith,
    )

-- If every container has priority 0 or 1, a round of Observe ends without a panic.
pub observe_total :
    (cs : List Usage) → All HasPriority cs → (cs' : List Usage) × (observe cs ≡ some cs')
unfolding observe
observe_total cs h =
    let (counted, on, e, h', k) = count_active-Succeeds cs [] h IsCounted-nil in
    let (cs', s) = set_switches_total on counted h' k in (cs', ground arith)
