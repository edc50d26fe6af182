-- ===== src/Vgpu/Records.antt =====
-- The loop over the records of a vGPU capability.
use volcano_vgpu_device_plug.Prelude.{
  ℕ, zero, suc, ◌+◌, ◌<◌, ◌≡◌, ◌≢◌, refl, some, List, arith, length, get_elem?,
}
use volcano_vgpu_device_plug.Vgpu.{out_of_fuel, uint8, record_loop}

-- A record that is not the version record and gives 0 as its length is read again and again: no
-- number of steps ends the loop.
pub record_loop-zero_length :
    (capability : List ℕ) (fuel pos record_id : ℕ)
    → record_id ≢ 0
    → pos < 256
    → pos < length capability
    → get_elem? capability pos ≡ some record_id
    → get_elem? capability (uint8 (pos + 1)) ≡ some 0
    → record_loop capability fuel pos record_id ≡ out_of_fuel
unfolding record_loop
record_loop-zero_length capability zero pos record_id other byte inside here empty = refl
record_loop-zero_length capability (suc fuel) pos record_id other byte inside here empty = ground (
  arith,
  here,
  empty,
  record_loop-zero_length capability fuel pos record_id other byte inside here empty,
)
