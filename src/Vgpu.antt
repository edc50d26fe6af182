-- ===== src/Vgpu.antt =====
-- pkg/vgpu: the PCI configuration space of a GPU and the capability record of a vGPU. Positions are
-- uint8 and wrap around at 256; an index or a slice out of range is a panic.
pub mod Capability
pub mod Records
use volcano_vgpu_device_plug.Prelude.{
  ℕ, zero, suc, ◌+◌, ◌-◌, ◌/◌, ◌%◌, ◌≤◌, Bool, true, false, not, ◌&&◌, ◌||◌, Option, none, some,
  List, [], ◌∷◌, ◌++◌, ltb, leb, ◌==◌, if◌then◌else◌, length, get_elem?, take, drop,
}
use volcano_vgpu_device_plug.GoText.{Str, trim_left, trim_right}

-- What a loop returned: a value, the end of the loop without one, a panic, or no fuel left.
pub data Loop {ℓ} (A : Type ℓ) : Type ℓ where
  found : A → Loop A
  ended panicked out_of_fuel : Loop A

abbrev pub uint8 : ℕ → ℕ
uint8 n = n % 256

-- buffer[low:high]
unfoldable pub slice : List ℕ → ℕ → ℕ → Option (List ℕ)
slice buffer low high =
    if leb low high && leb high (length buffer)
    then some (take (high - low) (drop low buffer))
    else none

-- PCIDevice.Config, of at least 256 bytes; the tested bit of the status byte is bit 4.
abbrev pub has_capability_list : ℕ → Bool
has_capability_list status = not ((status / 16) % 2 == 0)

-- the byte at a position, as GetByte returns it
unfoldable pub byte : List ℕ → ℕ → ℕ
byte buffer pos = elim (get_elem? buffer pos) [ none ↦ 0 | some b ↦ b ]

-- visited[pos]++
abbrev pub visit : (ℕ → Bool) → ℕ → ℕ → Bool
visit visited pos x = if pos == x then true else visited x

abbrev cut_capability : List ℕ → ℕ → Loop (List ℕ)
cut_capability config pos = elim (slice config pos (uint8 (pos + byte config (uint8 (pos + 2))))) [
  | none ↦ panicked
  | some capability ↦ found capability
]

-- The loop of GetVendorSpecificCapability; every read is below 256, so within the configuration.
unfoldable pub chain_loop : List ℕ → ℕ → (ℕ → Bool) → ℕ → Loop (List ℕ)
unfolding slice byte
chain_loop config zero visited pos = out_of_fuel
chain_loop config (suc fuel) visited pos =
    let rest = chain_loop config fuel (visit visited pos) (byte config (uint8 (pos + 1))) in
    if pos == 0
    then ended
    else if visited pos
    then ended
    else if byte config pos == 255
    then ended
    else if byte config pos == 9
    then cut_capability config pos
    else rest

-- A chain has at most 255 entries before one of them is met again.
abbrev pub chain_fuel : ℕ
chain_fuel = 257

-- GetVendorSpecificCapability: `none` is the error about a configuration that was not read whole.
unfoldable pub vendor_specific_capability : List ℕ → Option (Loop (List ℕ))
unfolding chain_loop
vendor_specific_capability config =
    if ltb (length config) 256
    then none
    else if has_capability_list (byte config 6)
    then some (chain_loop config chain_fuel (λ _. false) (byte config 52))
    else some ended

-- IsVGPUDevice
unfoldable pub is_vgpu_device : List ℕ → Bool
unfolding byte
is_vgpu_device capability =
    not (ltb (length capability) 5) && (byte capability 3 == 86) && (byte capability 4 == 70)

-- The loop of GetInfo over the records, with the position and the record's id: it ends at the
-- record 0 or behind the capability, and a read behind the capability is a panic.
unfoldable pub record_loop : List ℕ → ℕ → ℕ → ℕ → Loop (ℕ × ℕ)
record_loop capability zero pos record_id = out_of_fuel
record_loop capability (suc fuel) pos record_id =
    if not (record_id == 0) && ltb pos (length capability)
    then elim (get_elem? capability (uint8 (pos + 1))) [
      | none ↦ panicked
      | some record_length ↦ elim (get_elem? capability (uint8 (pos + record_length))) [
        | none ↦ panicked
        | some next_id ↦ record_loop capability fuel (uint8 (pos + record_length)) next_id
      ]
    ]
    else found (pos, record_id)

-- strings.Trim(s, "\x00")
unfoldable pub trim_zeros : Str → Str
unfolding trim_left trim_right
trim_zeros s = trim_right (λ c. c == 0) (trim_left (λ c. c == 0) s)

pub record Info : Type 0 where
  pub host_driver_version : Str
  pub host_driver_branch : Str

-- string(b) of a byte: its code point in UTF-8
abbrev pub utf8 : ℕ → Str
utf8 b = if ltb b 128 then b ∷ [] else (192 + b / 64) ∷ (128 + b % 64) ∷ []

unfoldable pub utf8_all : List ℕ → Str
utf8_all [] = []
utf8_all (b ∷ bs) = utf8 b ++ utf8_all bs

-- The text that `for ; i < high; i++` collects; a byte behind the capability is a panic.
unfoldable pub read_range : List ℕ → ℕ → ℕ → Option Str
unfolding slice utf8_all
read_range capability i high =
    if ltb i high
    then elim (slice capability i high) [ none ↦ none | some bs ↦ some (utf8_all bs) ]
    else some []

abbrev info_of : Option Str → Option Str → Loop Info
info_of (some version) (some branch) =
    found
      (record { host_driver_version = trim_zeros version; host_driver_branch = trim_zeros branch })
info_of _ _ = panicked

-- Behind the loop: the version and the branch, if the record has room for both. The second loop goes
-- on where the first one stopped.
unfoldable pub read_version : List ℕ → ℕ → ℕ → Loop Info
unfolding trim_zeros read_range
read_version capability pos record_id =
    let i = uint8 (pos + 2) in
    let middle = uint8 (pos + 12) in
    let high = uint8 (pos + 22) in
    if (record_id == 0) && leb high (length capability)
    then info_of (read_range capability i middle)
        (read_range capability (if ltb i middle then middle else i) high)
    else ended

abbrev pub then_read : List ℕ → Loop (ℕ × ℕ) → Loop Info
then_read capability (found (pos, record_id)) = read_version capability pos record_id
then_read capability ended = ended
then_read capability panicked = panicked
then_read capability out_of_fuel = out_of_fuel

-- GetInfo; `ended` is an error.
unfoldable pub get_info : ℕ → List ℕ → Loop Info
unfolding record_loop read_version
get_info fuel [] = ended
get_info fuel (b ∷ capability) = elim (get_elem? (b ∷ capability) 5) [
  | none ↦ panicked
  | some record_id ↦ then_read (b ∷ capability) (record_loop (b ∷ capability) fuel 5 record_id)
]
