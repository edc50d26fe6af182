-- ===== src/Tests/Vgpu.antt =====
-- pkg/vgpu: the walk over the capabilities, and the records of one.
use volcano_vgpu_device_plug.Prelude.{
  ℕ, zero, suc, ◌++◌, ◌<◌, ◌≡◌, ◌≢◌, refl, some, List, [], ◌∷◌, All, arith, replicate,
}
use volcano_vgpu_device_plug.Vgpu.{out_of_fuel, record_loop, vendor_specific_capability}
use volcano_vgpu_device_plug.Vgpu.Capability.{vendor_specific_capability-ends}
use volcano_vgpu_device_plug.Vgpu.Records.{record_loop-zero_length}

-- A configuration whose status announces a list, and whose list is one capability that is its own
-- next one.
abbrev capability : List ℕ
capability = 1 ∷ 64 ∷ (replicate 190 0 ++ [])

abbrev pointer : List ℕ
pointer = 64 ∷ (replicate 11 0 ++ capability)

abbrev status : List ℕ
status = 16 ∷ (replicate 45 0 ++ pointer)

abbrev looping : List ℕ
looping = replicate 6 0 ++ status

zeros-bytes : (n : ℕ) (l : List ℕ) → All (λ b. b < 256) l → All (λ b. b < 256) (replicate n 0 ++ l)
zeros-bytes zero l h = h
zeros-bytes (suc n) l h = (omega arith, zeros-bytes n l h)

looping-bytes : All (λ b. b < 256) looping
looping-bytes = zeros-bytes 6 status (
  omega arith,
  zeros-bytes 45 pointer
      (omega arith, zeros-bytes 11 capability (omega arith, (omega arith, zeros-bytes 190 [] tt))),
)

vendor_specific_capability-ends_example : vendor_specific_capability looping ≢ some out_of_fuel
vendor_specific_capability-ends_example = vendor_specific_capability-ends looping looping-bytes

-- a record with id 1 and length 0 behind the signature
abbrev empty_record : List ℕ
empty_record = 9 ∷ 0 ∷ 8 ∷ 86 ∷ 70 ∷ 1 ∷ 0 ∷ 0 ∷ []

record_loop-zero_length_example : record_loop empty_record 1000 5 1 ≡ out_of_fuel
record_loop-zero_length_example =
    record_loop-zero_length empty_record 1000 5 1 (λ e. cc) (omega arith) (omega arith) refl refl
