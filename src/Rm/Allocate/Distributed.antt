-- ===== src/Rm/Allocate/Distributed.antt =====
-- distributedAlloc as a greedy choice among candidates, with any sort that is one.
use mathlib.Core.List.Perm
use mathlib.Core.List.{Perm}
use mathlib.Core.Path.{subst, fun_ext}
use volcano_vgpu_device_plug.Prelude.{
  ℕ, zero, suc, ◌+◌, ◌-◌, ◌≤◌, ◌≡◌, refl, sym, ap, ◌∙◌, some, List, [], ◌∷◌, ◌++◌, arith, le→ltb,
  ◌>>=◌, length, Member, filter, filter_yes, filter_no, map, Bool-cases, inl, inr,
}
use mathlib.Core.List.{Permᴰ}
use mathlib.Core.Logic.{∥∥₁_elim}
use volcano_vgpu_device_plug.Prelude.Int.{ℤ, ◌≤ℤ◌, sub_ℕ}
use volcano_vgpu_device_plug.GoText.{Str, str_eq}
use volcano_vgpu_device_plug.Rm.AnnotatedId.{get_id}
use volcano_vgpu_device_plug.Rm.Devices.{Device, Devices, subset, difference, device_ids}
use volcano_vgpu_device_plug.Rm.Allocate.{
  difference_of, decrement, count_of, keys, alloc_loop, distributed_alloc,
}

-- A sort permutes the list and puts an entry with a least key first.
pub record IsSort (sort : (Str → ℤ) → List Str → List Str) : Type 0 where
  pub perm : (key : Str → ℤ) (l : List Str) → Perm (sort key l) l
  pub same_length : (key : Str → ℤ) (l : List Str) → length (sort key l) ≡ length l
  pub least :
      (key : Str → ℤ) (l rest : List Str) (x y : Str)
      → sort key l ≡ x ∷ rest
      → Member y l
      → key x ≤ℤ key y

-- How many of the ids are replicas of a device.
abbrev pub replicas_of : Str → List Str → ℕ
replicas_of id ids = length (filter (λ x. str_eq (get_id x) id) ids)

count_of-replicas : (id : Str) (ids : List Str) → count_of id ids ≡ replicas_of id ids
count_of-replicas id [] = refl
count_of-replicas id (x ∷ ids) = elim (Bool-cases (str_eq (get_id x) id)) [
  | inl e ↦
      rw (e, filter_yes (λ x. str_eq (get_id x) id) x ids e) (ap suc (count_of-replicas id ids))
  | inr e ↦ rw (e, filter_no (λ x. str_eq (get_id x) id) x ids e) (count_of-replicas id ids)
]

keys-map : (devices : Devices) → keys devices ≡ map (λ (e : Str × Device). e.0) devices
keys-map [] = refl
keys-map ((k, d) ∷ devices) = ap (λ l. k ∷ l) (keys-map devices)

count_of-Permᴰ : (id : Str) {l m : List Str} → Permᴰ l m → count_of id l ≡ count_of id m
count_of-Permᴰ id Permᴰ.nil = refl
count_of-Permᴰ id (Permᴰ.cons {a} {b} e p) = ground (arith, ap get_id e, count_of-Permᴰ id p)
count_of-Permᴰ id (Permᴰ.swap {a} {b} {a'} {b'} e f) = ground (arith, ap get_id e, ap get_id f)
count_of-Permᴰ id (Permᴰ.trans p q) = count_of-Permᴰ id p ∙ count_of-Permᴰ id q

count_of-perm : (id : Str) {l m : List Str} → Perm l m → count_of id l ≡ count_of id m
count_of-perm id {l} {m} p =
    ∥∥₁_elim p (numbers (count_of id l) (count_of id m)) (count_of-Permᴰ id)
  where
    numbers : IsSet ℕ
    numbers = hlevel

sub_ℕ-le : (a b c d : ℕ) → sub_ℕ a b ≤ℤ sub_ℕ c d → a + d ≤ c + b
sub_ℕ-le a b c d h = ground arith

-- The chosen ids are candidates, each taken once, and when an id was taken, no candidate that was
-- left had a device with fewer replicas in use: of the replicas that the map has of a device, those
-- are in use that are not among the candidates left.
abbrev pub IsGreedy : (Str → ℕ) → List Str → List Str → Type 0
IsGreedy totals [] candidates = Unit
IsGreedy totals (c ∷ chosen) candidates =
    (rest : List Str) × Perm (c ∷ rest) candidates
    × ((y : Str)
        → Member y candidates
        → totals (get_id c) + replicas_of (get_id y) candidates
          ≤ totals (get_id y) + replicas_of (get_id c) candidates)
    × IsGreedy totals chosen rest

-- Greedily chosen ids are a part of the candidates.
IsGreedy-perm :
    (totals : Str → ℕ) (chosen candidates : List Str)
    → IsGreedy totals chosen candidates
    → (rest : List Str) × Perm (chosen ++ rest) candidates
IsGreedy-perm totals [] candidates g = (candidates, Perm.refl candidates)
IsGreedy-perm totals (c ∷ chosen) candidates (left, p, _, g) =
    let (rest, q) = IsGreedy-perm totals chosen left g in (rest, Perm.trans (Perm.cons c q) p)

-- The counts of the loop are those of the candidates.
abbrev Counts : (Str → ℕ) → List Str → Type 0
Counts available candidates = (id : Str) → available id ≡ count_of id candidates

Counts-decrement :
    (available : Str → ℕ) (c : Str) (rest candidates : List Str)
    → Perm (c ∷ rest) candidates
    → Counts available candidates
    → Counts (decrement (get_id c) available) rest
Counts-decrement available c rest candidates p h id = ground (arith, h id, count_of-perm id p)

module _ (sort : (Str → ℤ) → List Str → List Str) (is_sort : IsSort sort) where
  -- What a run of the loop has to achieve.
  abbrev Chooses : (Str → ℕ) → ℕ → (Str → ℕ) → List Str → Type 0
  Chooses totals needed available candidates =
      (chosen : List Str) × (alloc_loop sort totals needed available candidates ≡ some chosen)
      × (length chosen ≡ needed)
      × IsGreedy totals chosen candidates

  least-used :
      (totals available : Str → ℕ) (candidates rest : List Str) (c y : Str)
      → Counts available candidates
      → sort (difference_of totals available) candidates ≡ c ∷ rest
      → Member y candidates
      → totals (get_id c) + replicas_of (get_id y) candidates
        ≤ totals (get_id y) + replicas_of (get_id c) candidates
  least-used totals available candidates rest c y counts e m = omega (
    arith,
    sub_ℕ-le (totals (get_id c)) (available (get_id c)) (totals (get_id y)) (available (get_id y))
        (is_sort.least (difference_of totals available) candidates rest c y e m),
    counts (get_id c),
    counts (get_id y),
    count_of-replicas (get_id c) candidates,
    count_of-replicas (get_id y) candidates,
  )

  -- One round, from the sorted candidates and what the later rounds achieve.
  Chooses-suc :
      (totals : Str → ℕ) (needed : ℕ) (available : Str → ℕ) (candidates sorted : List Str)
      → suc needed ≤ length candidates
      → Counts available candidates
      → sort (difference_of totals available) candidates ≡ sorted
      → ((c : Str) (rest : List Str)
          → needed ≤ length rest
          → Counts (decrement (get_id c) available) rest
          → Chooses totals needed (decrement (get_id c) available) rest)
      → Chooses totals (suc needed) available candidates
  unfolding alloc_loop
  Chooses-suc totals needed available candidates [] h counts e ih =
      absurd (
        omega (arith, is_sort.same_length (difference_of totals available) candidates, ap length e))
  Chooses-suc totals needed available candidates (c ∷ rest) h counts e ih =
      let key = difference_of totals available in
      let size : length (c ∷ rest) ≡ length candidates =
        sym (ap length e) ∙ is_sort.same_length key candidates in
      let p : Perm (c ∷ rest) candidates =
        subst (λ l. Perm l candidates) e (is_sort.perm key candidates) in
      let (chosen, runs, count, greedy) =
        ih c rest (omega arith) (Counts-decrement available c rest candidates p counts) in
      (
        c ∷ chosen,
        rw (e, alloc_loop) (rw (runs, ◌>>=◌)),
        omega arith,
        (rest, p, (λ y m. least-used totals available candidates rest c y counts e m), greedy),
      )

  alloc_loop-Chooses :
      (totals : Str → ℕ) (needed : ℕ) (available : Str → ℕ) (candidates : List Str)
      → needed ≤ length candidates
      → Counts available candidates
      → Chooses totals needed available candidates
  alloc_loop-Chooses totals zero available candidates h counts =
      ([], unfold alloc_loop in refl, refl, tt)
  alloc_loop-Chooses totals (suc needed) available candidates h counts =
      Chooses-suc totals needed available candidates _ h counts refl
        (λ c rest. alloc_loop-Chooses totals needed (decrement (get_id c) available) rest)

  IsGreedy-totals :
      (totals totals' : Str → ℕ) (chosen candidates : List Str)
      → ((id : Str) → totals id ≡ totals' id)
      → IsGreedy totals chosen candidates
      → IsGreedy totals' chosen candidates
  IsGreedy-totals totals totals' chosen candidates same g =
      subst (λ t. IsGreedy t chosen candidates) (fun_ext same) g

  module _ (order : List Str → List Str) (devices : Devices) (available required : List Str)
      (size : ℕ) where
    abbrev pub candidates_of : List Str
    candidates_of =
        order (device_ids (difference (subset devices available) (subset devices required)))

    -- If there are enough candidates, distributedAlloc returns the required ids and behind them as
    -- many candidates as are needed, each taken once, and each taken when its device had the fewest
    -- replicas in use of all the candidates left: those of its replicas in the map of devices that
    -- are not among the candidates left.
    pub distributed_alloc-IsGreedy :
        size ≤ length candidates_of + length required
        → (chosen : List Str) × (distributed_alloc sort order devices available required size
            ≡ some (some (required ++ chosen)))
          × (length chosen ≡ size - length required)
          × IsGreedy
              (λ id. replicas_of id (map (λ (e : Str × Device). e.0) devices))
              chosen
              candidates_of
          × ((rest : List Str) × Perm (chosen ++ rest) candidates_of)
    unfolding distributed_alloc
    distributed_alloc-IsGreedy h =
        let totals : Str → ℕ = λ id. count_of id (keys devices) in
        let (chosen, runs, count, greedy) =
          alloc_loop-Chooses totals (size - length required) (λ id. count_of id candidates_of)
            candidates_of (omega arith) (λ id. refl) in
        (
          chosen,
          rw (le→ltb (length candidates_of) (size - length required) (omega arith))
              (rw (runs, ◌>>=◌)),
          count,
          IsGreedy-totals totals (λ id. replicas_of id (map (λ (e : Str × Device). e.0) devices))
              chosen candidates_of
              (λ id. count_of-replicas id (keys devices) ∙ ap (replicas_of id) (keys-map devices))
              greedy,
          IsGreedy-perm totals chosen candidates_of greedy,
        )
