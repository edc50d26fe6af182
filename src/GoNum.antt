-- ===== src/GoNum.antt =====
-- The conversions of package strconv that the plugin calls, in base 10.
pub mod Decimal
use volcano_vgpu_device_plug.Prelude.{
  ℕ, zero, suc, ◌+◌, ◌-◌, ◌*◌, ◌/◌, ◌%◌, ◌<◌, ◌≡◌, refl, Bool, true, false, ◌&&◌, ◌||◌, List, [],
  ◌∷◌, ◌++◌, ltb, leb, ◌==◌, if◌then◌else◌,
}
use volcano_vgpu_device_plug.Prelude.Int.{ℤ, pos, negsuc}
use volcano_vgpu_device_plug.GoText.{Str, codes, str_eq}

abbrev pub is_digit : ℕ → Bool
is_digit c = leb 48 c && leb c 57

-- The digits of `n`, the last one behind the others. The fuel bounds the number of digits.
unfoldable pub decimal_fuel : ℕ → ℕ → Str
decimal_fuel zero n = []
decimal_fuel (suc f) n =
    let front = decimal_fuel f (n / 10) in
    if ltb n 10 then (48 + n) ∷ [] else front ++ (48 + n % 10) ∷ []

-- strconv.FormatUint(n, 10); a number has fewer digits than its successor counts.
unfoldable pub format_uint : ℕ → Str
unfolding decimal_fuel
format_uint n = decimal_fuel (suc n) n

-- strconv.Itoa, strconv.FormatInt(z, 10) and the verb %d
unfoldable pub itoa : ℤ → Str
unfolding format_uint
itoa (pos n) = format_uint n
itoa (negsuc n) = 45 ∷ format_uint (suc n)

-- The outcome of a scan: the value, a byte that is no digit, or a value above the largest.
pub data Scanned : Type 0 where
  value : ℕ → Scanned
  bad_syntax : Scanned
  out_of_range : Scanned

-- The loop of strconv.ParseUint: it stops at the first byte that is no digit, and as soon as the
-- value passes `limit`.
unfoldable pub scan : ℕ → Str → ℕ → Scanned
scan limit [] n = value n
scan limit (c ∷ s) n =
    let n' = n * 10 + (c - 48) in
    let rest = scan limit s n' in
    if is_digit c then (if ltb limit n' then out_of_range else rest) else bad_syntax

unfoldable pub scan_all : ℕ → Str → Scanned
unfolding scan
scan_all limit [] = bad_syntax
scan_all limit (c ∷ s) = scan limit (c ∷ s) 0

-- strconv.ParseUint(s, 10, w) at `limit` = 2 ^ w - 1: the value and whether there was an error.
unfoldable pub parse_uint : ℕ → Str → ℕ × Bool
unfolding scan_all
parse_uint limit s = elim (scan_all limit s) [
  | value n ↦ (n, false)
  | bad_syntax ↦ (0, true)
  | out_of_range ↦ (limit, true)
]

-- A magnitude at most `half` below zero, and less than `half` from zero on. Outside of that the
-- nearest value comes back with an error.
abbrev pub signed : ℕ → Bool → Scanned → ℤ × Bool
signed half neg bad_syntax = (pos 0, true)
signed half false out_of_range = (pos (half - 1), true)
signed half true out_of_range = (negsuc (half - 1), true)
signed half false (value n) = if ltb n half then (pos n, false) else (pos (half - 1), true)
signed half true (value zero) = (pos 0, false)
signed half true (value (suc n)) =
    if ltb n half then (negsuc n, false) else (negsuc (half - 1), true)

-- strconv.ParseInt(s, 10, w) at `half` = 2 ^ (w - 1): the value and whether there was an error.
-- strconv.Atoi(s) is the same at `half` = 2 ^ 63.
unfoldable pub parse_int : ℕ → Str → ℤ × Bool
unfolding scan_all
parse_int half [] = (pos 0, true)
parse_int half (c ∷ s) =
    if c == 45
    then signed half true (scan_all (2 * half - 1) s)
    else if c == 43
    then signed half false (scan_all (2 * half - 1) s)
    else signed half false (scan_all (2 * half - 1) (c ∷ s))

abbrev pub half32 : ℕ
half32 = 2147483648

abbrev pub half64 : ℕ
half64 = 9223372036854775808

abbrev pub max_uint64 : ℕ
max_uint64 = 18446744073709551615

-- strconv.FormatBool
abbrev pub format_bool : Bool → Str
format_bool true = codes "true"
format_bool false = codes "false"

-- strconv.ParseBool, whose value is false beside an error
unfoldable pub parse_bool : Str → Bool
unfolding str_eq
parse_bool s =
    str_eq s (codes "1")
    || str_eq s (codes "t")
    || str_eq s (codes "T")
    || str_eq s (codes "TRUE")
    || str_eq s (codes "true")
    || str_eq s (codes "True")
