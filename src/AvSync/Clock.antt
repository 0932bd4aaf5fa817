-- ===== src/AvSync/Clock.antt =====
-- Writing to the shared memory and reading it again.
use multi_hardware.Base.{ℕ, ◌+◌, ◌*◌, ◌^◌, ◌≤◌, ◌<◌, ◌≡◌, ◌≢◌, ◌⊎◌, true, false, arith, nat_eq}
use multi_hardware.AvSync.Bytes.{
  Bytes, u32_to_u8, u64_to_u8, u8_to_u32, u8_to_u32-u32_to_u8, u8_to_u32-u64_to_u8,
  u8_to_u64-u64_to_u8, u32_to_u8-apart, u64_to_u8-apart,
}
use multi_hardware.AvSync.Memory.{
  success, master_not_ready, AvTransSharedMemory, AvSyncClockUnit, Ashmem, max_clock_unit_count,
  unit_size, is_invalid_shared_memory, is_invalid_clock_unit, map_memory, next_index,
  write_clock_unit, latest_unit, slot_frame, slot_pts, read_clock_unit, write_frame_info,
  read_frame_info, reset_shared_memory,
}
use multi_hardware.AvSync.Slots.{
  write_slot, slot-write_slot, slot-write_slot_ne, IsNewest, latest_unit-newest,
}

-- The system maps the memory.
abbrev pub IsMapped : Ashmem → AvTransSharedMemory → Type 0
IsMapped os m = (is_invalid_shared_memory m ≡ false) × (map_memory os m ≡ success)

-- A unit that WriteClockUnitToMemory takes, with the range of a uint32_t.
abbrev pub IsUnit : AvSyncClockUnit → Type 0
IsUnit u = (is_invalid_clock_unit u ≡ false) × (u.frame_num < 2 ^ 32)

IsNewest-write_slot :
    (i frame_num pts : ℕ) (mem : Bytes)
    → pts < 2 ^ 63
    → ((k : ℕ) → k < max_clock_unit_count → k ≢ i → slot_pts k mem < pts)
    → IsNewest max_clock_unit_count i (write_slot i frame_num pts mem)
IsNewest-write_slot i frame_num pts mem small older k b ne = ground (
  arith,
  older k b ne,
  slot-write_slot i frame_num pts mem,
  slot-write_slot_ne i k frame_num pts mem,
)

latest_unit-write_slot :
    (u v : AvSyncClockUnit) (mem : Bytes)
    → IsUnit u
    → ((k : ℕ) → k < max_clock_unit_count → k ≢ u.index → slot_pts k mem < u.pts)
    → latest_unit max_clock_unit_count 0 0 v (write_slot u.index u.frame_num u.pts mem)
      ≡ record v { frame_num = u.frame_num; pts = u.pts }
unfolding is_invalid_clock_unit
latest_unit-write_slot u v mem unit older =
    let mem' = write_slot u.index u.frame_num u.pts mem in
    let wrote = slot-write_slot u.index u.frame_num u.pts mem in
    let bounds : (u.index < 50) × (0 < u.pts) × (u.pts < 2 ^ 63) = ground (arith, unit) in
    ground (
      arith,
      wrote,
      unit,
      latest_unit-newest 50 0 0 u.index v mem' (omega arith) (omega arith)
          (ground (arith, wrote, bounds)) (ground (arith, wrote, bounds))
          (IsNewest-write_slot u.index u.frame_num u.pts mem (omega arith) older),
    )

first_frame :
    (u : AvSyncClockUnit) (mem : Bytes)
    → IsUnit u
    → (u.index ≢ 0 → slot_frame 0 mem ≢ 0)
    → slot_frame 0 (write_slot u.index u.frame_num u.pts mem) ≢ 0
unfolding is_invalid_clock_unit
first_frame u mem unit first = ground (
  arith,
  first,
  slot-write_slot u.index u.frame_num u.pts mem,
  slot-write_slot_ne u.index 0 u.frame_num u.pts mem,
)

-- A valid unit is written to a mapped memory whose other units are older, and whose first unit is
-- there or is the one written; the unit that the reader passes has a frame number other than zero,
-- which the read asks for. Then the writer's index goes on to the next of the 50 positions, and
-- a read of the memory gives the frame number and the time stamp written.
pub read_clock_unit-write_clock_unit :
    (os : Ashmem) (m : AvTransSharedMemory) (u v : AvSyncClockUnit) (mem : Bytes)
    → IsMapped os m
    → IsUnit u
    → v.frame_num ≢ 0
    → (u.index ≢ 0 → slot_frame 0 mem ≢ 0)
    → ((k : ℕ) → k < max_clock_unit_count → k ≢ u.index → slot_pts k mem < u.pts)
    → let (mem', u', written) = write_clock_unit os m u mem in
      (written ≡ success)
      × (u' ≡ record u { index = next_index u.index })
      × (is_invalid_clock_unit u' ≡ false)
      × (read_clock_unit os m v mem' ≡ (record v { frame_num = u.frame_num; pts = u.pts }, success))
unfolding write_clock_unit read_clock_unit is_invalid_clock_unit
read_clock_unit-write_clock_unit os m u v mem mapped unit wanted first older =
    ground (arith, latest_unit-write_slot u v mem unit older, first_frame u mem unit first)

-- Writing a valid unit to a mapped memory changes the 12 bytes of its position only, which lie
-- within the 600 bytes of the memory.
pub write_clock_unit-within :
    (os : Ashmem) (m : AvTransSharedMemory) (u : AvSyncClockUnit) (mem : Bytes) (j : ℕ)
    → IsMapped os m
    → IsUnit u
    → (j < unit_size * u.index) ⊎ (unit_size * u.index + unit_size ≤ j)
    → ((write_clock_unit os m u mem).0 j ≡ mem j)
      × (unit_size * u.index + unit_size ≤ unit_size * max_clock_unit_count)
unfolding write_clock_unit is_invalid_clock_unit
write_clock_unit-within os m u mem j mapped unit h =
    let offset = unit_size * u.index in
    ground (
      arith,
      u32_to_u8-apart offset u.frame_num j (u64_to_u8 (offset + 4) u.pts mem),
      u64_to_u8-apart (offset + 4) u.pts j mem,
    )

-- A frame number other than 0 and a time stamp that are written to a mapped memory are read again,
-- each within its width.
pub read_frame_info-write_frame_info :
    (os : Ashmem) (m : AvTransSharedMemory) (frame_num timestamp f t : ℕ) (mem : Bytes)
    → IsMapped os m
    → frame_num ≢ 0
    → frame_num < 2 ^ 32
    → timestamp < 2 ^ 64
    → let (mem', written) = write_frame_info os m frame_num timestamp mem in
      (written ≡ success) × (read_frame_info os m f t mem' ≡ ((frame_num, timestamp), success))
unfolding write_frame_info read_frame_info
read_frame_info-write_frame_info os m frame_num timestamp f t mem mapped some_frame fits fits' =
    ground (
      arith,
      u8_to_u32-u64_to_u8 4 timestamp 0 (u32_to_u8 0 frame_num mem),
      u8_to_u32-u32_to_u8 0 frame_num mem,
      u8_to_u64-u64_to_u8 4 timestamp (u32_to_u8 0 frame_num mem),
    )

-- After a successful reset of a mapped memory of at least 4 bytes neither kind of read succeeds
-- until something is written: both answer that the master is not ready.
pub reset_shared_memory-not_ready :
    (os : Ashmem) (m : AvTransSharedMemory) (v : AvSyncClockUnit) (f t : ℕ) (mem : Bytes)
    → IsMapped os m
    → os.memset ≡ true
    → 4 ≤ m.size
    → v.frame_num ≢ 0
    → let (mem', result) = reset_shared_memory os m mem in
      (result ≡ success)
      × (read_clock_unit os m v mem' ≡ (v, master_not_ready))
      × ((read_frame_info os m f t mem').1 ≡ master_not_ready)
unfolding reset_shared_memory read_clock_unit read_frame_info u8_to_u32
reset_shared_memory-not_ready os m v f t mem mapped cleared size wanted = ground arith
