-- ===== src/Spec/Resources/Patterns.antt =====
-- What a pattern matches.
use volcano_vgpu_device_plug.Spec.Resources.Literals.{follow, match_parts, match_string-literals}
use volcano_vgpu_device_plug.Prelude.{
  ◌≡◌, ◌≢◌, ◌↔◌, refl, sym, ap, ◌∙◌, Bool, true, ◌&&◌, List, [], ◌∷◌, ◌++◌, All, length, drop,
  arith, Bool-cases, inl, inr, Option, none, some, false,
}
use mathlib.Core.Path.{subst}
use volcano_vgpu_device_plug.GoText.{Str, has_prefix, split}
use volcano_vgpu_device_plug.GoText.Regexp.{anywhere, in_line}
use volcano_vgpu_device_plug.Spec.Resources.{wild_card_to_regexp, matches}

-- The literals occur in the text one behind the other, with no newline between them.
abbrev pub Follows : List Str → Str → Type 0
Follows [] s = Unit
Follows (p ∷ ps) s =
    (gap : Str) × (rest : Str) × (s ≡ gap ++ (p ++ rest)) × All (λ c. c ≢ 10) gap × Follows ps rest

abbrev pub MatchesParts : List Str → Str → Type 0
MatchesParts [] s = Unit
MatchesParts (p ∷ ps) s =
    (before : Str) × (rest : Str) × (s ≡ before ++ (p ++ rest)) × Follows ps rest

has_prefix-rest : (p s : Str) → has_prefix s p ≡ true → s ≡ p ++ drop (length p) s
unfolding has_prefix
has_prefix-rest [] s h = refl
has_prefix-rest (d ∷ p) [] h = ground arith
has_prefix-rest (d ∷ p) (c ∷ s) h = ground (arith, has_prefix-rest p s)

has_prefix-append : (p s : Str) → has_prefix (p ++ s) p ≡ true
unfolding has_prefix
has_prefix-append [] s = refl
has_prefix-append (d ∷ p) s = ground (arith, has_prefix-append p s)

drop-append : (p s : Str) → drop (length p) (p ++ s) ≡ s
drop-append [] s = refl
drop-append (d ∷ p) s = drop-append p s

anywhere-at :
    (test : Str → Bool) (before s : Str) → test s ≡ true → anywhere test (before ++ s) ≡ true
anywhere-at test [] [] h = h
anywhere-at test [] (c ∷ s) h = ground arith
anywhere-at test (c ∷ before) s h = ground (arith, anywhere-at test before s h)

at-anywhere :
    (test : Str → Bool) (s : Str)
    → anywhere test s ≡ true
    → (before : Str) × (t : Str) × (s ≡ before ++ t) × (test t ≡ true)
at-anywhere test [] h = ([], [], refl, h)
at-anywhere test (c ∷ s) h = elim (Bool-cases (test (c ∷ s))) [
  | inl e ↦ ([], c ∷ s, refl, e)
  | inr e ↦
      let (before, t, same, k) = at-anywhere test s (ground arith) in
      (c ∷ before, t, ap (λ x. c ∷ x) same, k)
]

in_line-at :
    (test : Str → Bool) (gap s : Str)
    → All (λ c. c ≢ 10) gap
    → test s ≡ true
    → in_line test (gap ++ s) ≡ true
in_line-at test [] [] a h = h
in_line-at test [] (c ∷ s) a h = ground arith
in_line-at test (c ∷ gap) s (a, ns) h = ground (arith, in_line-at test gap s ns h)

at-in_line :
    (test : Str → Bool) (s : Str)
    → in_line test s ≡ true
    → (gap : Str) × (t : Str) × (s ≡ gap ++ t) × All (λ c. c ≢ 10) gap × (test t ≡ true)
at-in_line test [] h = ([], [], refl, tt, h)
at-in_line test (c ∷ s) h = elim (Bool-cases (test (c ∷ s))) [
  | inl e ↦ ([], c ∷ s, refl, tt, e)
  | inr e ↦
      let (gap, t, same, a, k) = at-in_line test s (ground arith) in
      (c ∷ gap, t, ap (λ x. c ∷ x) same, (ground arith, a), k)
]

both : {a b : Bool} → (a && b) ≡ true → (a ≡ true) × (b ≡ true)
both h = (ground arith, ground arith)

pair : {a b : Bool} → a ≡ true → b ≡ true → (a && b) ≡ true
pair h k = ground arith

-- The test at one position, for a literal and the literals behind it.
follow-Follows : (ps : List Str) (s : Str) → follow ps s ≡ true → Follows ps s
unfolding follow
follow-Follows [] s h = tt
follow-Follows (p ∷ ps) s h =
    let (gap, t, same, a, k) =
      at-in_line (λ t. has_prefix t p && follow ps (drop (length p) t)) s h in
    let (starts, rest) = both k in
    (
      gap,
      drop (length p) t,
      same ∙ ap (λ x. gap ++ x) (has_prefix-rest p t starts),
      a,
      follow-Follows ps _ rest,
    )

Follows-follow : (ps : List Str) (s : Str) → Follows ps s → follow ps s ≡ true
unfolding follow
Follows-follow [] s h = refl
Follows-follow (p ∷ ps) s (gap, rest, same, a, h) =
    subst (λ x. in_line (λ t. has_prefix t p && follow ps (drop (length p) t)) x ≡ true) (sym same)
      (in_line-at (λ t. has_prefix t p && follow ps (drop (length p) t)) gap (p ++ rest) a
        (pair (has_prefix-append p rest)
          (ap (follow ps) (drop-append p rest) ∙ Follows-follow ps rest h)))

match_parts_iff : (ps : List Str) (s : Str) → (match_parts ps s ≡ true) ↔ MatchesParts ps s
unfolding match_parts
match_parts_iff [] s = (λ h. tt, λ h. refl)
match_parts_iff (p ∷ ps) s = (
  λ h.
      let (before, t, same, k) =
        at-anywhere (λ t. has_prefix t p && follow ps (drop (length p) t)) s h in
      let (starts, rest) = both k in
      (
        before,
        drop (length p) t,
        same ∙ ap (λ x. before ++ x) (has_prefix-rest p t starts),
        follow-Follows ps _ rest,
      ),
  λ (before, rest, same, h).
      subst (λ x. anywhere (λ t. has_prefix t p && follow ps (drop (length p) t)) x ≡ true)
        (sym same)
        (anywhere-at (λ t. has_prefix t p && follow ps (drop (length p) t)) before (p ++ rest)
          (pair (has_prefix-append p rest)
            (ap (follow ps) (drop-append p rest) ∙ Follows-follow ps rest h))),
)

-- Matches accepts exactly the texts in which the literals of the pattern between its stars occur one
-- behind the other, the first one anywhere, with no newline between two of them; so no character of
-- a literal has a meaning in the regular expression of the pattern.
pub matches_iff : (pattern s : Str) → (matches pattern s ≡ true) ↔ MatchesParts (split 42 pattern) s
unfolding matches wild_card_to_regexp
matches_iff pattern s =
    subst
      (λ (o : Option Bool).
        (elim o [ none ↦ false | some b ↦ b ] ≡ true) ↔ MatchesParts (split 42 pattern) s)
      (sym (match_string-literals (split 42 pattern) s)) (match_parts_iff (split 42 pattern) s)
