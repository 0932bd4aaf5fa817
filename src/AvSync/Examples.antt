-- ===== src/AvSync/Examples.antt =====
-- The theorems of AvSync at small inputs.
use multi_hardware.Base.{ℕ, ◌≡◌, ◌≢◌, ◌<◌, refl, true, false, [], ◌∷◌, arith}
use multi_hardware.AvSync.Bytes.{Bytes, u8_to_u64}
use multi_hardware.AvSync.Memory.{
  map_memory, is_invalid_shared_memory, success, AvTransSharedMemory, AvSyncClockUnit, Ashmem,
  slot_pts, write_clock_unit, read_clock_unit, max_clock_unit_count, is_invalid_clock_unit,
}
use multi_hardware.AvSync.Clock.{read_clock_unit-write_clock_unit}

abbrev os : Ashmem
os = record { size_of = λ fd. 600; set_prot = λ fd. true; mapped = true; memset = true }

abbrev sink_memory : AvTransSharedMemory
sink_memory = record { fd = 3; size = 600; name = 1 ∷ [] }

abbrev zeros : Bytes
zeros i = 0

abbrev unit : AvSyncClockUnit
unit = record { index = 0; frame_num = 7; pts = 1000 }

zeros-older : (k : ℕ) → k < max_clock_unit_count → k ≢ unit.index → slot_pts k zeros < unit.pts
unfolding u8_to_u64
zeros-older k b ne = omega arith

read_clock_unit-write_clock_unit_example :
    let (mem', u', written) = write_clock_unit os sink_memory unit zeros in
    (written ≡ success)
    × (u' ≡ record unit { index = 1 })
    × (is_invalid_clock_unit u' ≡ false)
    × (read_clock_unit os sink_memory unit mem' ≡ (unit, success))
unfolding is_invalid_clock_unit is_invalid_shared_memory map_memory
read_clock_unit-write_clock_unit_example =
    read_clock_unit-write_clock_unit os sink_memory unit unit zeros (refl, refl) (refl, omega arith)
      (omega arith) (λ ne. elim (ne refl) [ ]) zeros-older
