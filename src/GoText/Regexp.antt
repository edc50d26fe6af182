-- ===== src/GoText/Regexp.antt =====
-- The parts of package regexp that the patterns of resources use: QuoteMeta, and MatchString at
-- expressions of literals, escaped metacharacters, `.` and `.*`. Any other expression is `none`, as
-- one that does not compile. Texts are ASCII.
use volcano_vgpu_device_plug.Prelude.{
  ℕ, Bool, true, false, not, ◌&&◌, ◌||◌, Option, none, some, List, [], ◌∷◌, any, ◌==◌,
}
use volcano_vgpu_device_plug.GoText.{Str}

-- \.+*?()|[]{}^$
unfoldable pub is_meta : ℕ → Bool
is_meta c =
    any (λ d. d == c) (92 ∷ 46 ∷ 43 ∷ 42 ∷ 63 ∷ 40 ∷ 41 ∷ 124 ∷ 91 ∷ 93 ∷ 123 ∷ 125 ∷ 94 ∷ 36 ∷ [])

-- QuoteMeta
unfoldable pub quote_meta : Str → Str
unfolding is_meta
quote_meta [] = []
quote_meta (c ∷ s) =
    let rest = quote_meta s in elim (is_meta c) [ true ↦ 92 ∷ c ∷ rest | false ↦ c ∷ rest ]

pub data Token : Type 0 where
  one : ℕ → Token
  any_char any_run : Token

-- What stands before the next character: nothing that waits for it, a backslash, or a dot.
pub data Pending : Type 0 where
  plain escaped dotted : Pending

abbrev pub token : Token → Option (List Token) → Option (List Token)
token t none = none
token t (some ts) = some (t ∷ ts)

-- A character with nothing before it, and what the rest is in each state.
abbrev pub read_char : ℕ → (Pending → Option (List Token)) → Option (List Token)
read_char c rest = elim (c == 92) [
  | true ↦ rest escaped
  | false ↦ elim (c == 46) [
    | true ↦ rest dotted
    | false ↦ elim (is_meta c) [ true ↦ none | false ↦ token (one c) (rest plain) ]
  ]
]

unfoldable pub compile : Pending → Str → Option (List Token)
unfolding is_meta
compile plain [] = some []
compile escaped [] = none
compile dotted [] = some (any_char ∷ [])
compile plain (c ∷ s) = read_char c (λ p. compile p s)
compile escaped (c ∷ s) = elim (is_meta c) [ true ↦ token (one c) (compile plain s) | false ↦ none ]
compile dotted (c ∷ s) = elim (c == 42) [
  | true ↦ token any_run (compile plain s)
  | false ↦ token any_char (read_char c (λ p. compile p s))
]

-- At some position of the text.
abbrev pub anywhere : (Str → Bool) → Str → Bool
anywhere test [] = test []
anywhere test (c ∷ s) = test (c ∷ s) || anywhere test s

-- At some position before the first newline is passed.
abbrev pub in_line : (Str → Bool) → Str → Bool
in_line test [] = test []
in_line test (c ∷ s) = test (c ∷ s) || (not (c == 10) && in_line test s)

-- The expression matches a beginning of the text.
unfoldable pub match_tokens : List Token → Str → Bool
match_tokens [] s = true
match_tokens (one d ∷ ts) [] = false
match_tokens (one d ∷ ts) (c ∷ s) = c == d && match_tokens ts s
match_tokens (any_char ∷ ts) [] = false
match_tokens (any_char ∷ ts) (c ∷ s) = not (c == 10) && match_tokens ts s
match_tokens (any_run ∷ ts) s = in_line (λ t. match_tokens ts t) s

-- MatchString: `none` is its error.
unfoldable pub match_string : Str → Str → Option Bool
unfolding compile match_tokens
match_string expression s = elim (compile plain expression) [
  | none ↦ none
  | some ts ↦ some (anywhere (λ t. match_tokens ts t) s)
]
