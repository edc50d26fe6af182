-- ===== src/Spec/Resources/Literals.antt =====
-- What the regular expression of a pattern does, literal by literal.
use volcano_vgpu_device_plug.Prelude.{
  ℕ, ◌==◌, ◌≡◌, refl, ap, ◌∙◌, Bool, true, ◌&&◌, List, [], ◌∷◌, ◌++◌, length, drop, arith, Option,
  none, some, false, map,
}
use mathlib.Core.Path.{fun_ext}
use volcano_vgpu_device_plug.GoText.{Str, has_prefix}
use volcano_vgpu_device_plug.GoText.Regexp.{
  is_meta, quote_meta, Token, one, any_run, Pending, plain, token, read_char, compile, anywhere,
  in_line, match_tokens, match_string,
}
use volcano_vgpu_device_plug.Spec.Resources.{wild_rest, wild_literals}

-- The tests for literals that occur one behind the other, behind a star and at the start.
unfoldable pub follow : List Str → Str → Bool
follow [] s = true
follow (p ∷ ps) s = in_line (λ t. has_prefix t p && follow ps (drop (length p) t)) s

unfoldable pub match_parts : List Str → Str → Bool
match_parts [] s = true
match_parts (p ∷ ps) s = anywhere (λ t. has_prefix t p && follow ps (drop (length p) t)) s

-- What the expressions of the literals compile to.
abbrev run_tokens : List Str → List Token
run_tokens [] = []
run_tokens (p ∷ ps) = any_run ∷ (map one p ++ run_tokens ps)

-- Tokens in front of an expression that compiles.
abbrev tokens : List Token → Option (List Token) → Option (List Token)
tokens ts none = none
tokens ts (some us) = some (ts ++ us)

token-tokens :
    (t : Token) (ts : List Token) (o : Option (List Token))
    → token t (tokens ts o) ≡ tokens (t ∷ ts) o
token-tokens t ts none = refl
token-tokens t ts (some us) = refl

is_meta-false : (c : ℕ) → is_meta c ≡ false → ((c == 92) ≡ false) × ((c == 46) ≡ false)
unfolding is_meta
is_meta-false c h = (ground arith, ground arith)

read_char-plain :
    (c : ℕ) (rest : Pending → Option (List Token))
    → (c == 92) ≡ false
    → (c == 46) ≡ false
    → is_meta c ≡ false
    → read_char c rest ≡ token (one c) (rest plain)
read_char-plain c rest h k l = rw (h, read_char) (rw k (rw l refl))

-- A quoted character in front of an expression.
compile-quoted :
    (c : ℕ) (s : Str) (b : Bool)
    → is_meta c ≡ b
    → compile plain (elim b [ true ↦ 92 ∷ c ∷ s | false ↦ c ∷ s ]) ≡ token (one c) (compile plain s)
unfolding compile
compile-quoted c s true h =
    ap
      (λ b. elim b as (λ _. Option (List Token)) [
        | true ↦ token (one c) (compile plain s)
        | false ↦ none
      ])
      h
compile-quoted c s false h =
    read_char-plain c (λ p. compile p s) (is_meta-false c h).0 (is_meta-false c h).1 h

quote_meta-cons :
    (c : ℕ) (p s : Str) (b : Bool)
    → (elim b as (λ _. Str) [ true ↦ 92 ∷ c ∷ quote_meta p | false ↦ c ∷ quote_meta p ]) ++ s
      ≡ elim b [ true ↦ 92 ∷ c ∷ (quote_meta p ++ s) | false ↦ c ∷ (quote_meta p ++ s) ]
quote_meta-cons c p s true = refl
quote_meta-cons c p s false = refl

tokens-nil : (o : Option (List Token)) → o ≡ tokens [] o
tokens-nil none = refl
tokens-nil (some us) = refl

compile-quote_meta :
    (p s : Str) → compile plain (quote_meta p ++ s) ≡ tokens (map one p) (compile plain s)
unfolding quote_meta
compile-quote_meta [] s = tokens-nil (compile plain s)
compile-quote_meta (c ∷ p) s =
    ap (compile plain) (quote_meta-cons c p s (is_meta c))
    ∙ compile-quoted c (quote_meta p ++ s) (is_meta c) refl
    ∙ ap (token (one c)) (compile-quote_meta p s)
    ∙ token-tokens (one c) (map one p) (compile plain s)

compile-wild_rest : (ps : List Str) → compile plain (wild_rest ps) ≡ some (run_tokens ps)
unfolding compile wild_rest
compile-wild_rest [] = refl
compile-wild_rest (p ∷ ps) =
    ground (arith, compile-quote_meta p (wild_rest ps), compile-wild_rest ps)

match_tokens-literal :
    (p : Str) (ts : List Token) (s : Str)
    → match_tokens (map one p ++ ts) s ≡ (has_prefix s p && match_tokens ts (drop (length p) s))
unfolding match_tokens has_prefix
match_tokens-literal [] ts s = refl
match_tokens-literal (d ∷ p) ts [] = refl
match_tokens-literal (d ∷ p) ts (c ∷ s) = ground (arith, match_tokens-literal p ts s)

match_tokens-follow : (ps : List Str) (s : Str) → match_tokens (run_tokens ps) s ≡ follow ps s
unfolding match_tokens follow
match_tokens-follow [] s = refl
match_tokens-follow (p ∷ ps) s =
    ap (λ test. in_line test s)
      (fun_ext (λ t.
        match_tokens-literal p (run_tokens ps) t
        ∙ ap (λ b. has_prefix t p && b) (match_tokens-follow ps (drop (length p) t))))

-- The expression of the literals compiles and tells the texts that they match.
pub match_string-literals :
    (ps : List Str) (s : Str) → match_string (wild_literals ps) s ≡ some (match_parts ps s)
unfolding match_string wild_literals match_parts match_tokens
match_string-literals [] s = ap some (always s)
  where
    always : (t : Str) → anywhere (λ u. true) t ≡ true
    always [] = refl
    always (c ∷ t) = refl
match_string-literals (p ∷ ps) s =
    ap (λ o. elim o [ none ↦ none | some ts ↦ some (anywhere (λ t. match_tokens ts t) s) ])
      (compile-quote_meta p (wild_rest ps) ∙ ap (tokens (map one p)) (compile-wild_rest ps))
    ∙ ap (λ test. some (anywhere test s))
        (fun_ext (λ t.
          match_tokens-literal p (run_tokens ps) t
          ∙ ap (λ b. has_prefix t p && b) (match_tokens-follow ps (drop (length p) t))))
