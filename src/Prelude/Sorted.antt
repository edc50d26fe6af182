-- ===== src/Prelude/Sorted.antt =====
-- Lists in ascending order of a key.
use mathlib.Core.Logic.Or
use mathlib.Core.List.{Mem, Perm, mem-cons, not-mem-nil, mem-cons_self, mem-cons_of_mem, perm-cons}
use mathlib.Core.List.Perm
use mathlib.Core.Path.{subst}
use native.Mathlib.Bridge.{le_prop}
use volcano_vgpu_device_plug.Prelude.{◌≡◌, sym, ap, ◌∙◌, List, [], ◌∷◌, All, arith}
use volcano_vgpu_device_plug.Prelude.Int.{ℤ, pos, negsuc, ◌≤ℤ◌}

≤ℤ-refl : (a : ℤ) → a ≤ℤ a
≤ℤ-refl (pos n) = omega arith
≤ℤ-refl (negsuc n) = omega arith

≤ℤ-antisym : (a b : ℤ) → a ≤ℤ b → b ≤ℤ a → a ≡ b
≤ℤ-antisym (pos n) (pos m) h k = ap pos (omega arith)
≤ℤ-antisym (pos n) (negsuc m) h k = absurd (omega arith)
≤ℤ-antisym (negsuc n) (pos m) h k = absurd (omega arith)
≤ℤ-antisym (negsuc n) (negsuc m) h k = ap negsuc (omega arith)

module _ {A : Type 0} (key : A → ℤ) where
  abbrev pub IsAscending : List A → Type 0
  IsAscending [] = Unit
  IsAscending (x ∷ l) = All (λ y. key x ≤ℤ key y) l × IsAscending l

  -- Elements of the list with the same key are the same.
  abbrev pub IsKeyed : List A → Type 0
  IsKeyed l = (x y : A) → Mem x l → Mem y l → key x ≡ key y → x ≡ y

  least_key : (x y : A) (l : List A) → All (λ y. key x ≤ℤ key y) l → Mem y l → key x ≤ℤ key y
  least_key x y [] h m = absurd (not-mem-nil m)
  least_key x y (z ∷ l) (h, hs) m =
      Or.elim le_prop (mem-cons.0 m) (λ e. subst (λ w. key x ≤ℤ key w) (sym e) h)
        (least_key x y l hs)

  head_key : (x y : A) (l : List A) → All (λ y. key x ≤ℤ key y) l → Mem y (x ∷ l) → key x ≤ℤ key y
  head_key x y l h m = least_key x y (x ∷ l) (≤ℤ-refl (key x), h) m

  -- Two ascending lists of the same elements are the same, if their keys tell the elements apart.
  pub ascending_unique :
      (l l' : List A) → IsAscending l → IsAscending l' → IsKeyed l → Perm l l' → l ≡ l'
  ascending_unique [] l' h h' k p = Perm.nil-eq p
  ascending_unique (x ∷ l) [] h h' k p = Perm.eq-nil p
  ascending_unique (x ∷ l) (y ∷ l') (hx, hl) (hy, hl') k p =
      let here = mem-cons_self {a = x} {l = l} in
      let there : Mem y (x ∷ l) = (Perm.mem_iff {a = y} p).1 mem-cons_self in
      let below = head_key x y l hx there in
      let above = head_key y x l' hy ((Perm.mem_iff {a = x} p).0 here) in
      let same : x ≡ y = k x y here there (≤ℤ-antisym (key x) (key y) below above) in
      let tails : Perm l l' = (perm-cons x).0 (subst (λ z. Perm (x ∷ l) (z ∷ l')) (sym same) p) in
      let rest =
        ascending_unique l l' hl hl'
          (λ a b ma mb e. k a b (mem-cons_of_mem x ma) (mem-cons_of_mem x mb) e) tails in
      ap (λ z. z ∷ l) same ∙ ap (λ r. y ∷ r) rest
