-- ===== src/GoText/Split.antt =====
-- Laws of `split`, `join` and `cut`.
use volcano_vgpu_device_plug.Prelude.{
  ℕ, ◌≡◌, ◌≢◌, refl, true, false, List, [], ◌∷◌, ◌++◌, arith, ◌==◌, if◌then◌else◌, All, All-append,
  length, suc, Bool-cases, inl, inr, ap,
}
use volcano_vgpu_device_plug.GoText.{Str, Lacks, split, join, push, contains}

-- A text without the separator is one part.
pub split_one : (sep : ℕ) (p : Str) → Lacks sep p → split sep p ≡ p ∷ []
unfolding split
split_one sep [] h = refl
split_one sep (c ∷ p) (hc, hp) = ground (arith, split_one sep p hp)

-- Up to the first separator the text is the first part.
pub split-append : (sep : ℕ) (p s : Str) → Lacks sep p → split sep (p ++ sep ∷ s) ≡ p ∷ split sep s
unfolding split
split-append sep [] s h = ground arith
split-append sep (c ∷ p) s (hc, hp) = ground (arith, split-append sep p s hp)

-- Splitting a join gives the parts back, if there is a part and none holds the separator.
pub split-join :
    (sep : ℕ) (p : Str) (ps : List Str)
    → All (Lacks sep) (p ∷ ps)
    → split sep (join (sep ∷ []) (p ∷ ps)) ≡ p ∷ ps
unfolding join
split-join sep p [] (h, _) = split_one sep p h
split-join sep p (q ∷ ps) (h, hs) =
    ground (arith, split-append sep p (join (sep ∷ []) (q ∷ ps)) h, split-join sep q ps hs)

-- A join holds no byte that neither its parts nor its separator hold.
pub join-Lacks :
    (b sep : ℕ) (ps : List Str) → sep ≢ b → All (Lacks b) ps → Lacks b (join (sep ∷ []) ps)
unfolding join
join-Lacks b sep [] ne h = tt
join-Lacks b sep (p ∷ []) ne (hp, _) = hp
join-Lacks b sep (p ∷ q ∷ ps) ne (hp, hs) =
    All-append (λ c. c ≢ b) p _ hp (ne, join-Lacks b sep (q ∷ ps) ne hs)

-- strings.Contains at one byte.
pub contains_one :
    (c : ℕ) (s : Str) (b : ℕ)
    → contains (c ∷ s) (b ∷ []) ≡ (if c == b then true else contains s (b ∷ []))
unfolding contains
contains_one c s b = ground arith

pub contains-Lacks : (b : ℕ) (s : Str) → Lacks b s → contains s (b ∷ []) ≡ false
contains-Lacks b [] h = unfold contains in refl
contains-Lacks b (c ∷ s) (hc, hs) = ground (arith, contains_one c s b, contains-Lacks b s hs)

pub Lacks-contains : (b : ℕ) (s : Str) → contains s (b ∷ []) ≡ false → Lacks b s
Lacks-contains b [] h = tt
Lacks-contains b (c ∷ s) h =
    (ground (arith, contains_one c s b), Lacks-contains b s (ground (arith, contains_one c s b)))

pub contains-append : (b : ℕ) (p s : Str) → contains (p ++ b ∷ s) (b ∷ []) ≡ true
contains-append b [] s = ground (arith, contains_one b s b)
contains-append b (c ∷ p) s = ground (arith, contains_one c (p ++ b ∷ s) b, contains-append b p s)

-- How often a byte occurs.
abbrev pub occurrences : ℕ → Str → ℕ
occurrences b [] = 0
occurrences b (c ∷ s) = if c == b then suc (occurrences b s) else occurrences b s

-- A text has one part more than it has separators.
pub length-split : (sep : ℕ) (s : Str) → length (split sep s) ≡ suc (occurrences sep s)
unfolding split
length-split sep [] = refl
length-split sep (c ∷ s) = elim (Bool-cases (c == sep)) [
  | inl e ↦ rw e (ap suc (length-split sep s))
  | inr e ↦ rw e (length-push c (split sep s) (length-split sep s))
]
  where
    length-push : (c : ℕ) (ps : List Str) {n : ℕ} → length ps ≡ suc n → length (push c ps) ≡ suc n
    length-push c [] h = omega arith
    length-push c (p ∷ ps) h = h
