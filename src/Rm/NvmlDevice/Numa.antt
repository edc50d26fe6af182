-- ===== src/Rm/NvmlDevice/Numa.antt =====
-- The NUMA node of a device.
use volcano_vgpu_device_plug.Prelude.{
  ℕ, ◌≡◌, refl, ap, ◌∙◌, true, false, Option, none, some, [], ◌∷◌, ◌++◌, All, suc, ◌>>=◌,
  if◌then◌else◌, arith,
}
use volcano_vgpu_device_plug.Prelude.Int.{ℤ, pos, negsuc, InRange}
use volcano_vgpu_device_plug.GoText.{
  Str, codes, is_space, trim_left, trim_right, trim_space, trim_prefix, to_lower,
}
use volcano_vgpu_device_plug.GoNum.{itoa, format_uint, parse_int, half64}
use volcano_vgpu_device_plug.GoNum.Decimal.{IsDigit, format_uint-digits, parse_int-itoa}
use volcano_vgpu_device_plug.Rm.NvmlDevice.{Handle, node_of, numa_of_file, get_numa_node}

abbrev NoSpace : Str → Type 0
NoSpace s = All (λ c. is_space c ≡ false) s

digits-NoSpace : (s : Str) → All IsDigit s → NoSpace s
digits-NoSpace [] h = tt
digits-NoSpace (c ∷ s) (h, hs) = (ground arith, digits-NoSpace s hs)

itoa-NoSpace : (z : ℤ) → NoSpace (itoa z)
unfolding itoa
itoa-NoSpace (pos n) = digits-NoSpace (format_uint n) (format_uint-digits n)
itoa-NoSpace (negsuc n) =
    (ground arith, digits-NoSpace (format_uint (suc n)) (format_uint-digits (suc n)))

trim_right-line : (s : Str) → NoSpace s → trim_right is_space (s ++ 10 ∷ []) ≡ s
unfolding trim_right
trim_right-line [] h = refl
trim_right-line (c ∷ s) (h, hs) =
    ap (λ r. elim r [ [] ↦ (if is_space c then [] else c ∷ []) | d ∷ t ↦ c ∷ d ∷ t ])
      (trim_right-line s hs)
    ∙ kept s
  where
    kept :
        (r : Str)
        → (elim r [ [] ↦ (if is_space c then [] else c ∷ []) | d ∷ t ↦ c ∷ d ∷ t ]) ≡ c ∷ r
    kept [] = ap (λ b. if b then [] else c ∷ []) h
    kept (d ∷ t) = refl

trim_left-line :
    (s : Str)
    → NoSpace s
    → trim_right is_space (trim_left is_space (s ++ 10 ∷ [])) ≡ trim_right is_space (s ++ 10 ∷ [])
unfolding trim_left trim_right
trim_left-line [] h = refl
trim_left-line (c ∷ s) (h, hs) =
    ap
      (λ b.
        trim_right is_space
          (elim b [ true ↦ trim_left is_space (s ++ 10 ∷ []) | false ↦ c ∷ (s ++ 10 ∷ []) ]))
      h

-- The node of a number, if it is not below zero.
abbrev pub as_node : ℤ → Option ℕ
as_node (pos n) = some n
as_node (negsuc n) = none

node_of-number : (z : ℤ) → node_of (z, false) ≡ some (as_node z)
node_of-number (pos n) = refl
node_of-number (negsuc n) = refl

-- When the file of the device's bus holds a number of 64 bits and a newline, GetNumaNode returns that
-- node, and none for a number below zero.
pub get_numa_node-file :
    (file : Str → Option Str) (d : Handle) (bus_id : Str) (z : ℤ)
    → d.bus_id ≡ some bus_id
    → file (to_lower (trim_prefix bus_id (codes "0000"))) ≡ some (itoa z ++ 10 ∷ [])
    → InRange half64 z
    → get_numa_node file d ≡ some (as_node z)
unfolding get_numa_node trim_space
get_numa_node-file file d bus_id z b f h =
    ap (λ o. o >>= λ bus_id. numa_of_file (file (to_lower (trim_prefix bus_id (codes "0000"))))) b
    ∙ ap numa_of_file f
    ∙ ap (λ s. node_of (parse_int half64 s))
        (trim_left-line (itoa z) (itoa-NoSpace z) ∙ trim_right-line (itoa z) (itoa-NoSpace z))
    ∙ ap node_of (parse_int-itoa half64 z h)
    ∙ node_of-number z
