-- ===== src/GoNum/Decimal.antt =====
-- Laws of the decimal conversions.
use volcano_vgpu_device_plug.Prelude.{
  ℕ, zero, suc, ◌+◌, ◌-◌, ◌*◌, ◌/◌, ◌<◌, ◌≤◌, ◌≡◌, ◌≢◌, refl, false, ◌⊎◌, inl, inr, [], ◌∷◌, ◌++◌,
  ltb, arith, All, All-append, Bool-cases,
}
use volcano_vgpu_device_plug.Prelude.Int.{ℤ, pos, negsuc, InRange}
use volcano_vgpu_device_plug.GoText.{Str, Lacks}
use volcano_vgpu_device_plug.GoNum.{
  decimal_fuel, format_uint, itoa, value, scan, scan_all, parse_uint, parse_int, signed,
}

abbrev pub IsDigit : ℕ → Type 0
IsDigit c = (48 ≤ c) × (c ≤ 57)

decimal_fuel-digits : (f n : ℕ) → All IsDigit (decimal_fuel f n)
unfolding decimal_fuel
decimal_fuel-digits zero n = tt
decimal_fuel-digits (suc f) n = elim (Bool-cases (ltb n 10)) [
  | inl e ↦ rw e (ground arith)
  | inr e ↦ rw e (
      All-append IsDigit (decimal_fuel f (n / 10)) _ (decimal_fuel-digits f (n / 10)) (omega arith))
]

-- The print of a number consists of digits.
pub format_uint-digits : (n : ℕ) → All IsDigit (format_uint n)
unfolding format_uint
format_uint-digits n = decimal_fuel-digits (suc n) n

digits-Lacks : (b : ℕ) (s : Str) → (b < 48) ⊎ (57 < b) → All IsDigit s → Lacks b s
digits-Lacks b [] h _ = tt
digits-Lacks b (c ∷ s) h (hc, hs) = (omega arith, digits-Lacks b s h hs)

-- A print holds no byte but digits and the minus sign.
pub itoa-Lacks : (b : ℕ) (z : ℤ) → (b < 48) ⊎ (57 < b) → b ≢ 45 → Lacks b (itoa z)
unfolding itoa
itoa-Lacks b (pos n) h m = digits-Lacks b _ h (format_uint-digits n)
itoa-Lacks b (negsuc n) h m = (ground arith, digits-Lacks b _ h (format_uint-digits (suc n)))

-- Reading the digits of `n` behind the value `a`.
scan-append :
    (limit : ℕ) (s t : Str) (a b : ℕ)
    → scan limit s a ≡ value b
    → scan limit (s ++ t) a ≡ scan limit t b
unfolding scan
scan-append limit [] t a b h = ground arith
scan-append limit (c ∷ s) t a b h = ground (arith, scan-append limit s t (a * 10 + (c - 48)) b)

scan-decimal_fuel : (limit f n : ℕ) → n < f → n ≤ limit → scan limit (decimal_fuel f n) 0 ≡ value n
unfolding decimal_fuel
scan-decimal_fuel limit zero n h fits = elim h [ ]
scan-decimal_fuel limit (suc f) n h fits = elim (Bool-cases (ltb n 10)) [
  | inl e ↦ rw e (unfold scan in ground arith)
  | inr e ↦
      rw
        (
          e,
          scan-append limit (decimal_fuel f (n / 10)) _ 0 (n / 10)
              (scan-decimal_fuel limit f (n / 10) (ground arith) (omega arith)),
        )
        (unfold scan in ground arith)
]

decimal_fuel-ne-nil : (f n : ℕ) → n < f → decimal_fuel f n ≢ []
unfolding decimal_fuel
decimal_fuel-ne-nil zero n h = elim h [ ]
decimal_fuel-ne-nil (suc f) n h = elim (Bool-cases (ltb n 10)) [
  | inl e ↦ rw e (λ p. cc)
  | inr e ↦ rw e (append-ne-nil (decimal_fuel f (n / 10)) _)
]
  where
    append-ne-nil : (xs : Str) (x : ℕ) → xs ++ x ∷ [] ≢ []
    append-ne-nil [] x p = cc
    append-ne-nil (y ∷ ys) x p = cc

scan_all-ne-nil : (limit : ℕ) (s : Str) → s ≢ [] → scan_all limit s ≡ scan limit s 0
unfolding scan_all
scan_all-ne-nil limit [] h = absurd (h refl)
scan_all-ne-nil limit (c ∷ s) h = refl

scan_all-format_uint : (limit n : ℕ) → n ≤ limit → scan_all limit (format_uint n) ≡ value n
unfolding format_uint
scan_all-format_uint limit n h =
    rw (scan_all-ne-nil limit _ (decimal_fuel-ne-nil (suc n) n (omega arith)))
      (scan-decimal_fuel limit (suc n) n (omega arith) h)

-- A number that fits is read back from its print, with no error.
pub parse_uint-format_uint :
    (limit n : ℕ) → n ≤ limit → parse_uint limit (format_uint n) ≡ (n, false)
unfolding parse_uint
parse_uint-format_uint limit n h = ground (arith, scan_all-format_uint limit n h)

parse_int_unsigned :
    (half : ℕ) (s : Str)
    → All IsDigit s
    → s ≢ []
    → parse_int half s ≡ signed half false (scan_all (2 * half - 1) s)
unfolding parse_int
parse_int_unsigned half [] d h = absurd (h refl)
parse_int_unsigned half (c ∷ s) (dc, ds) h = ground arith

-- An integer that fits is read back from its print, with no error.
pub parse_int-itoa : (half : ℕ) (z : ℤ) → InRange half z → parse_int half (itoa z) ≡ (z, false)
unfolding itoa
parse_int-itoa half (pos n) h =
    rw
      (parse_int_unsigned half (format_uint n) (format_uint-digits n)
        (unfold format_uint in decimal_fuel-ne-nil (suc n) n (omega arith)))
      (ground (arith, scan_all-format_uint (2 * half - 1) n (omega arith)))
parse_int-itoa half (negsuc n) h =
    unfold parse_int in ground (arith, scan_all-format_uint (2 * half - 1) (suc n) (omega arith))
