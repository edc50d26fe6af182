-- ===== src/Prelude/Members.antt =====
-- Membership that computes, and what filtering does to it.
use mathlib.Core.Path.{subst}
use mathlib.Core.Bool.{false≢true}
use mathlib.Core.Path.{◌≡◌, refl, sym, ap, ◌∙◌}
use mathlib.Core.Logic.{◌⊎◌, inl, inr, ◌↔◌}
use mathlib.Core.Bool.{Bool, true, false}
use mathlib.Core.List.{List, [], ◌∷◌}
use volcano_vgpu_device_plug.Prelude.Tests.{Bool-cases}
use volcano_vgpu_device_plug.Prelude.Lists.{filter, All}

module _ {A : Type 0} where
  abbrev pub Member : A → List A → Type 0
  Member x [] = ⊥
  Member x (y ∷ ys) = (x ≡ y) ⊎ Member x ys

  pub filter_yes :
      (f : A → Bool) (x : A) (xs : List A) → f x ≡ true → filter f (x ∷ xs) ≡ x ∷ filter f xs
  filter_yes f x xs e = rw (e, filter)

  pub filter_no :
      (f : A → Bool) (x : A) (xs : List A) → f x ≡ false → filter f (x ∷ xs) ≡ filter f xs
  filter_no f x xs e = rw (e, filter)

  pub Member-filter :
      (f : A → Bool) (p : A) (xs : List A) → Member p (filter f xs) ↔ Member p xs × (f p ≡ true)
  Member-filter f p [] = (λ m. elim m [ ], λ m. m.0)
  Member-filter f p (q ∷ xs) = elim (Bool-cases (f q)) [
    | inl e ↦ (
      (λ m.
          elim (let m' : Member p (q ∷ filter f xs) = subst (Member p) (filter_yes f q xs e) m in
            m') [
              | inl d ↦ (inl d, ap f d ∙ e)
              | inr m' ↦ (inr ((Member-filter f p xs).0 m').0, ((Member-filter f p xs).0 m').1)
            ]),
      (λ (m, c).
          subst (Member p) (sym (filter_yes f q xs e))
            (elim m [ inl d ↦ inl d | inr m' ↦ inr ((Member-filter f p xs).1 (m', c)) ])),
    )
    | inr e ↦ (
      (λ m.
          let (m', c) = (Member-filter f p xs).0 (subst (Member p) (filter_no f q xs e) m) in
          (inr m', c)),
      (λ (m, c). elim m [
        | inl d ↦ absurd (false≢true (sym e ∙ sym (ap f d) ∙ c))
        | inr m' ↦ subst (Member p) (sym (filter_no f q xs e)) ((Member-filter f p xs).1 (m', c))
      ]),
    )
  ]

  pub All-filter : (P : A → Type 0) (f : A → Bool) (xs : List A) → All P xs → All P (filter f xs)
  All-filter P f [] h = tt
  All-filter P f (x ∷ xs) (px, h) = elim (Bool-cases (f x)) [
    | inl e ↦ subst (All P) (sym (filter_yes f x xs e)) (px, All-filter P f xs h)
    | inr e ↦ subst (All P) (sym (filter_no f x xs e)) (All-filter P f xs h)
  ]

  pub All-of-Member : (P : A → Type 0) (xs : List A) → ((x : A) → Member x xs → P x) → All P xs
  All-of-Member P [] h = tt
  All-of-Member P (x ∷ xs) h = (h x (inl refl), All-of-Member P xs (λ y m. h y (inr m)))

  pub Member-All : (P : A → Type 0) (x : A) (xs : List A) → All P xs → Member x xs → P x
  Member-All P x [] h m = elim m [ ]
  Member-All P x (y ∷ xs) (py, h) (inl e) = subst P (sym e) py
  Member-All P x (y ∷ xs) (py, h) (inr m) = Member-All P x xs h m
