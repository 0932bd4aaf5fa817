-- ===== src/AvSync/Memory.antt =====
-- av_sync_utils.cpp: the operations on a shared memory. A descriptor or size that is not positive
-- is 0, since no code tells such numbers apart, and an int64_t is its 64 bits, so the positive ones
-- are those from 1 to 2 ^ 63 - 1.
use multi_hardware.Base.{
  ℕ, suc, zero, ◌+◌, ◌*◌, ◌^◌, Bool, true, false, not, ◌&&◌, ◌||◌, ◌==◌, nat_eq, if◌then◌else◌,
  is_empty, ltb, leb,
}
use multi_hardware.Base.Str.{Str}
use multi_hardware.AvSync.Bytes.{Bytes, u32_to_u8, u64_to_u8, u8_to_u32, u8_to_u64}

pub data AvErrno : Type 0 where
  success invalid_param shared_memory_failed master_not_ready : AvErrno

pub record AvTransSharedMemory : Type 0 where
  pub fd : ℕ
  pub size : ℕ
  pub name : Str

pub record AvSyncClockUnit : Type 0 where
  pub index : ℕ
  pub frame_num : ℕ
  pub pts : ℕ

abbrev pub max_clock_unit_count : ℕ
max_clock_unit_count = 50

-- sizeof(uint32_t) + sizeof(int64_t).
abbrev pub unit_size : ℕ
unit_size = 12

-- What the system's calls return for the memory: AshmemGetSize, whether AshmemSetProt, mmap and
-- memset_s succeed.
pub record Ashmem : Type 0 where
  pub size_of : ℕ → ℕ
  pub set_prot : ℕ → Bool
  pub mapped : Bool
  pub memset : Bool

unfoldable pub is_invalid_shared_memory : AvTransSharedMemory → Bool
is_invalid_shared_memory m = (m.fd == 0) || ((m.size == 0) || is_empty m.name)

abbrev pub is_positive : ℕ → Bool
is_positive pts = ltb 0 pts && ltb pts (2 ^ 63)

unfoldable pub is_invalid_clock_unit : AvSyncClockUnit → Bool
is_invalid_clock_unit u =
    leb max_clock_unit_count u.index || ((u.frame_num == 0) || not (is_positive u.pts))

-- The checks of the size, the protection and the mapping that every operation makes.
unfoldable pub map_memory : Ashmem → AvTransSharedMemory → AvErrno
map_memory os m =
    if not (os.size_of m.fd == m.size)
    then shared_memory_failed
    else if not (os.set_prot m.fd)
    then shared_memory_failed
    else if not os.mapped
    then shared_memory_failed
    else success

abbrev pub is_ok : AvErrno → Bool
is_ok success = true
is_ok _ = false

abbrev pub next_index : ℕ → ℕ
next_index i = if (i + 1) == max_clock_unit_count then 0 else i + 1

-- The memory and the unit afterwards, and the result.
unfoldable pub write_clock_unit :
    Ashmem → AvTransSharedMemory → AvSyncClockUnit → Bytes → Bytes × AvSyncClockUnit × AvErrno
write_clock_unit os m u mem =
    let opened = map_memory os m in
    if is_invalid_shared_memory m
    then (mem, u, invalid_param)
    else if is_invalid_clock_unit u
    then (mem, u, invalid_param)
    else if not (is_ok opened)
    then (mem, u, opened)
    else let offset = unit_size * u.index in
      (
        u32_to_u8 offset u.frame_num (u64_to_u8 (offset + 4) u.pts mem),
        record u { index = next_index u.index },
        success,
      )

-- The unit at a position of the memory.
abbrev pub slot_frame : ℕ → Bytes → ℕ
slot_frame i mem = u8_to_u32 (unit_size * i) mem

abbrev pub slot_pts : ℕ → Bytes → ℕ
slot_pts i mem = u8_to_u64 (unit_size * i + 4) mem

-- The loop of ReadClockUnitFromMemory from `index` on, with `left` positions left.
unfoldable pub latest_unit : ℕ → ℕ → ℕ → AvSyncClockUnit → Bytes → AvSyncClockUnit
latest_unit zero index latest_pts u mem = u
latest_unit (suc left) index latest_pts u mem =
    let pts = slot_pts index mem in
    let newer =
      latest_unit left (index + 1) pts (record u { frame_num = slot_frame index mem; pts = pts })
        mem in
    let same = latest_unit left (index + 1) latest_pts u mem in
    if ltb latest_pts pts && ltb pts (2 ^ 63) then newer else same

unfoldable pub read_clock_unit :
    Ashmem → AvTransSharedMemory → AvSyncClockUnit → Bytes → AvSyncClockUnit × AvErrno
read_clock_unit os m u mem =
    let opened = map_memory os m in
    if is_invalid_shared_memory m
    then (u, invalid_param)
    else if u.frame_num == 0
    then (u, invalid_param)
    else if not (is_ok opened)
    then (u, opened)
    else if u8_to_u32 0 mem == 0
    then (u, master_not_ready)
    else (latest_unit max_clock_unit_count 0 0 u mem, success)

unfoldable pub write_frame_info : Ashmem → AvTransSharedMemory → ℕ → ℕ → Bytes → Bytes × AvErrno
write_frame_info os m frame_num timestamp mem =
    let opened = map_memory os m in
    if is_invalid_shared_memory m
    then (mem, invalid_param)
    else if frame_num == 0
    then (mem, invalid_param)
    else if not (is_ok opened)
    then (mem, opened)
    else (u64_to_u8 4 timestamp (u32_to_u8 0 frame_num mem), success)

-- The out parameters are written also where the frame number is 0.
unfoldable pub read_frame_info : Ashmem → AvTransSharedMemory → ℕ → ℕ → Bytes → (ℕ × ℕ) × AvErrno
read_frame_info os m frame_num timestamp mem =
    let opened = map_memory os m in
    if is_invalid_shared_memory m
    then ((frame_num, timestamp), invalid_param)
    else if not (is_ok opened)
    then ((frame_num, timestamp), opened)
    else (
      (u8_to_u32 0 mem, u8_to_u64 4 mem),
      if u8_to_u32 0 mem == 0 then master_not_ready else success,
    )

unfoldable pub reset_shared_memory : Ashmem → AvTransSharedMemory → Bytes → Bytes × AvErrno
reset_shared_memory os m mem =
    let opened = map_memory os m in
    if is_invalid_shared_memory m
    then (mem, invalid_param)
    else if not (is_ok opened)
    then (mem, opened)
    else if not os.memset
    then (mem, shared_memory_failed)
    else ((λ i. if ltb i m.size then 0 else mem i), success)
