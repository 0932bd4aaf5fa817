-- ===== src/AvSync/Slots.antt =====
-- The units of the shared memory, and the loop that looks for the latest one.
use multi_hardware.Base.{
  ℕ, suc, zero, ◌+◌, ◌*◌, ◌^◌, ◌%◌, ◌≤◌, ◌<◌, ◌≡◌, ◌≢◌, refl, ◌⊎◌, inl, inr, Bool, false, ◌&&◌,
  arith, ltb,
}
use multi_hardware.AvSync.Bytes.{
  Bytes, u32_to_u8, u64_to_u8, u8_to_u32-u32_to_u8, u8_to_u32-apart, u8_to_u64-u64_to_u8,
  u8_to_u32-u64_to_u8, u8_to_u64-u32_to_u8, u8_to_u64-apart,
}
use multi_hardware.AvSync.Memory.{AvSyncClockUnit, unit_size, slot_frame, slot_pts, latest_unit}

abbrev pub write_slot : ℕ → ℕ → ℕ → Bytes → Bytes
write_slot i frame_num pts mem =
    u32_to_u8 (unit_size * i) frame_num (u64_to_u8 (unit_size * i + 4) pts mem)

pub slot-write_slot :
    (i frame_num pts : ℕ) (mem : Bytes)
    → (slot_frame i (write_slot i frame_num pts mem) ≡ frame_num % 2 ^ 32)
      × (slot_pts i (write_slot i frame_num pts mem) ≡ pts % 2 ^ 64)
slot-write_slot i frame_num pts mem =
    let stamped = u64_to_u8 (unit_size * i + 4) pts mem in
    ground (
      arith,
      u8_to_u32-u32_to_u8 (unit_size * i) frame_num stamped,
      u8_to_u64-u32_to_u8 (unit_size * i) frame_num (unit_size * i + 4) stamped,
      u8_to_u64-u64_to_u8 (unit_size * i + 4) pts mem,
    )

pub slot-write_slot_ne :
    (i j frame_num pts : ℕ) (mem : Bytes)
    → (j < i) ⊎ (i < j)
    → (slot_frame j (write_slot i frame_num pts mem) ≡ slot_frame j mem)
      × (slot_pts j (write_slot i frame_num pts mem) ≡ slot_pts j mem)
slot-write_slot_ne i j frame_num pts mem h =
    let stamped = u64_to_u8 (unit_size * i + 4) pts mem in
    ground (
      arith,
      u8_to_u32-apart (unit_size * i) frame_num (unit_size * j) stamped,
      u8_to_u64-u32_to_u8 (unit_size * i) frame_num (unit_size * j + 4) stamped,
      u8_to_u32-u64_to_u8 (unit_size * i + 4) pts (unit_size * j) mem,
      u8_to_u64-apart (unit_size * i + 4) pts (unit_size * j + 4) mem,
    )

-- Whether the loop takes a time stamp after one that is not negative.
abbrev pub is_newer : ℕ → ℕ → Bool
is_newer latest_pts pts = ltb latest_pts pts && ltb pts (2 ^ 63)

latest_unit-none :
    (left index latest_pts : ℕ) (u : AvSyncClockUnit) (mem : Bytes)
    → ((k : ℕ) → index ≤ k → k < index + left → is_newer latest_pts (slot_pts k mem) ≡ false)
    → latest_unit left index latest_pts u mem ≡ u
unfolding latest_unit
latest_unit-none zero index latest_pts u mem h = refl
latest_unit-none (suc left) index latest_pts u mem h = ground (
  arith,
  h index,
  latest_unit-none left (index + 1) latest_pts u mem (λ k p q. h k (omega arith) (omega arith)),
)

≤-cases : (a b : ℕ) → a ≤ b → (a ≡ b) ⊎ (a < b)
≤-cases a b h = ground arith

-- The time stamps of the other positions are smaller or negative.
abbrev pub IsNewest : ℕ → ℕ → Bytes → Type 0
IsNewest bound i mem =
    (k : ℕ) → k < bound → k ≢ i → (slot_pts k mem < slot_pts i mem) ⊎ (2 ^ 63 ≤ slot_pts k mem)

after_newest :
    (left index i : ℕ) (u : AvSyncClockUnit) (mem : Bytes)
    → index ≡ i
    → IsNewest (index + suc left) i mem
    → latest_unit left (index + 1) (slot_pts i mem) u mem ≡ u
after_newest left index i u mem e h =
    latest_unit-none left (index + 1) (slot_pts i mem) u mem
      (λ k p q. ground (arith, h k (omega arith) (omega arith)))

-- The loop gives the unit at `i` where all others are older.
pub latest_unit-newest :
    (left index latest_pts i : ℕ) (u : AvSyncClockUnit) (mem : Bytes)
    → index ≤ i
    → i < index + left
    → latest_pts < slot_pts i mem
    → slot_pts i mem < 2 ^ 63
    → IsNewest (index + left) i mem
    → latest_unit left index latest_pts u mem
      ≡ record u { frame_num = slot_frame i mem; pts = slot_pts i mem }
unfolding latest_unit
latest_unit-newest zero index latest_pts i u mem p q n m h = ground arith
latest_unit-newest (suc left) index latest_pts i u mem p q n m h = elim (≤-cases index i p) [
  | inl e ↦ ground (
    arith,
    after_newest left index i
        (record u { frame_num = slot_frame index mem; pts = slot_pts index mem }) mem e h,
  )
  | inr d ↦
      let taken : AvSyncClockUnit = record u {
        frame_num = slot_frame index mem;
        pts = slot_pts index mem;
      } in
      let rest : IsNewest (index + 1 + left) i mem = λ k b. h k (omega arith) in
      ground (
        arith,
        h index (omega arith) (omega arith),
        (λ (lt : slot_pts index mem < slot_pts i mem).
            latest_unit-newest left (index + 1) (slot_pts index mem) i taken mem (omega arith)
              (omega arith) lt m rest),
        latest_unit-newest left (index + 1) latest_pts i u mem (omega arith) (omega arith) n m rest,
      )
]
