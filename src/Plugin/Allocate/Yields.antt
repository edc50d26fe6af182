-- ===== src/Plugin/Allocate/Yields.antt =====
-- What the value of an action of the handler satisfies.
use volcano_vgpu_device_plug.Prelude.{
  ◌≡◌, refl, Bool, true, false, Option, none, some, if◌then◌else◌,
}
use volcano_vgpu_device_plug.Plugin.Action.{
  or_crash, Result, ok, failed, crashed, State, Action, continue, ◌>>=◌,
}

module _ {W A : Type 0} where
  abbrev pub Gives : (A → Type 0) → Result A × State W → Type 0
  Gives P (ok a, s) = P a
  Gives P (crashed, s) = Unit
  Gives P (failed e, s) = Unit

  -- Whatever state an action starts in, a value that it returns satisfies the predicate.
  abbrev pub Yields : (A → Type 0) → Action W A → Type 0
  Yields P m = (s : State W) → Gives P (m s)

  pub if-Yields :
      (P : A → Type 0) (b : Bool) (m n : Action W A)
      → (b ≡ true → Yields P m)
      → (b ≡ false → Yields P n)
      → Yields P (if b then m else n)
  if-Yields P true m n hm hn = hm refl
  if-Yields P false m n hm hn = hn refl

  pub weaken-Gives :
      (P Q : A → Type 0) → ((a : A) → P a → Q a) → (p : Result A × State W) → Gives P p → Gives Q p
  weaken-Gives P Q f (ok a, s) h = f a h
  weaken-Gives P Q f (failed e, s) h = tt
  weaken-Gives P Q f (crashed, s) h = tt

  pub or_crash-Yields : (o : Option A) → Yields (λ a. o ≡ some a) (or_crash o)
  or_crash-Yields none s = tt
  or_crash-Yields (some a) s = refl

pub continue-Yields :
    {W A B : Type 0} (P : A → Type 0) (Q : B → Type 0) (r : Result A) (s : State W)
    (f : A → Action W B)
    → Gives P (r, s)
    → ((a : A) → P a → Yields Q (f a))
    → Gives Q (continue r s f)
continue-Yields P Q (ok a) s f h k = k a h s
continue-Yields P Q (failed e) s f h k = tt
continue-Yields P Q crashed s f h k = tt

pub >>=-Yields :
    {W A B : Type 0} (P : A → Type 0) (Q : B → Type 0) (m : Action W A) (f : A → Action W B)
    → Yields P m
    → ((a : A) → P a → Yields Q (f a))
    → Yields Q (m >>= f)
>>=-Yields P Q m f h k s = continue-Yields P Q (m s).0 (m s).1 f (h s) k

-- An action of which nothing is known but that the next one may use its value.
pub any-Yields : {W A : Type 0} (m : Action W A) → Yields (λ _. Unit {0}) m
any-Yields {W = W} {A = A} m s = given (m s)
  where
    given : (p : Result A × State W) → Gives (λ _. Unit {0}) p
    given (ok a, s) = tt
    given (failed e, s) = tt
    given (crashed, s) = tt
