-- ===== src/AvSync/Bytes.antt =====
-- av_sync_utils.cpp: integers in little-endian bytes. A memory is a function from offsets to bytes,
-- and `|` of shifted bytes, which share no bit, is their sum.
use multi_hardware.Base.{
  ℕ, ◌+◌, ◌*◌, ◌/◌, ◌%◌, ◌^◌, ◌≤◌, ◌<◌, ◌≡◌, ◌⊎◌, arith, nat_beq, if◌then◌else◌,
}

abbrev pub Bytes : Type 0
Bytes = ℕ → ℕ

-- `ptr[i] = (uint8_t)value`.
unfoldable pub poke : ℕ → ℕ → Bytes → Bytes
poke i value mem j = if nat_beq i j then value % 256 else mem j

unfoldable pub u32_to_u8 : ℕ → ℕ → Bytes → Bytes
u32_to_u8 ptr value mem =
    poke (ptr + 3) (value / 2 ^ 24)
      (poke (ptr + 2) (value / 2 ^ 16) (poke (ptr + 1) (value / 2 ^ 8) (poke ptr value mem)))

unfoldable pub u64_to_u8 : ℕ → ℕ → Bytes → Bytes
u64_to_u8 ptr value mem = u32_to_u8 (ptr + 4) (value / 2 ^ 32) (u32_to_u8 ptr value mem)

unfoldable pub u8_to_u32 : ℕ → Bytes → ℕ
u8_to_u32 ptr mem =
    mem ptr % 256
    + mem (ptr + 1) % 256 * 2 ^ 8
    + mem (ptr + 2) % 256 * 2 ^ 16
    + mem (ptr + 3) % 256 * 2 ^ 24

unfoldable pub u8_to_u64 : ℕ → Bytes → ℕ
unfolding u8_to_u32
u8_to_u64 ptr mem = u8_to_u32 ptr mem + u8_to_u32 (ptr + 4) mem * 2 ^ 32

-- The four bytes that are written, and every other byte.
u32_bytes :
    (ptr value : ℕ) (mem : Bytes)
    → let mem' = u32_to_u8 ptr value mem in
      (mem' ptr ≡ value % 256)
      × (mem' (ptr + 1) ≡ value / 2 ^ 8 % 256)
      × (mem' (ptr + 2) ≡ value / 2 ^ 16 % 256)
      × (mem' (ptr + 3) ≡ value / 2 ^ 24 % 256)
unfolding u32_to_u8 poke
u32_bytes ptr value mem = ground arith

pub u32_to_u8-apart :
    (ptr value j : ℕ) (mem : Bytes) → (j < ptr) ⊎ (ptr + 4 ≤ j) → u32_to_u8 ptr value mem j ≡ mem j
unfolding u32_to_u8 poke
u32_to_u8-apart ptr value j mem h = ground arith

pub u8_to_u32-u32_to_u8 :
    (ptr value : ℕ) (mem : Bytes) → u8_to_u32 ptr (u32_to_u8 ptr value mem) ≡ value % 2 ^ 32
unfolding u8_to_u32
u8_to_u32-u32_to_u8 ptr value mem = ground (arith, u32_bytes ptr value mem)

pub u8_to_u32-apart :
    (ptr value other : ℕ) (mem : Bytes)
    → (other + 4 ≤ ptr) ⊎ (ptr + 4 ≤ other)
    → u8_to_u32 other (u32_to_u8 ptr value mem) ≡ u8_to_u32 other mem
unfolding u8_to_u32
u8_to_u32-apart ptr value other mem h = ground (
  arith,
  u32_to_u8-apart ptr value other mem,
  u32_to_u8-apart ptr value (other + 1) mem,
  u32_to_u8-apart ptr value (other + 2) mem,
  u32_to_u8-apart ptr value (other + 3) mem,
)

-- Eight bytes hold an integer of 64 bits.
pub u8_to_u64-u64_to_u8 :
    (ptr value : ℕ) (mem : Bytes) → u8_to_u64 ptr (u64_to_u8 ptr value mem) ≡ value % 2 ^ 64
unfolding u8_to_u64 u64_to_u8
u8_to_u64-u64_to_u8 ptr value mem =
    let low = u32_to_u8 ptr value mem in
    ground (
      arith,
      u8_to_u32-apart (ptr + 4) (value / 2 ^ 32) ptr low,
      u8_to_u32-u32_to_u8 ptr value mem,
      u8_to_u32-u32_to_u8 (ptr + 4) (value / 2 ^ 32) low,
    )

pub u64_to_u8-apart :
    (ptr value j : ℕ) (mem : Bytes) → (j < ptr) ⊎ (ptr + 8 ≤ j) → u64_to_u8 ptr value mem j ≡ mem j
unfolding u64_to_u8
u64_to_u8-apart ptr value j mem h = ground (
  arith,
  u32_to_u8-apart (ptr + 4) (value / 2 ^ 32) j (u32_to_u8 ptr value mem),
  u32_to_u8-apart ptr value j mem,
)

pub u8_to_u32-u64_to_u8 :
    (ptr value other : ℕ) (mem : Bytes)
    → (other + 4 ≤ ptr) ⊎ (ptr + 8 ≤ other)
    → u8_to_u32 other (u64_to_u8 ptr value mem) ≡ u8_to_u32 other mem
unfolding u64_to_u8
u8_to_u32-u64_to_u8 ptr value other mem h = ground (
  arith,
  u8_to_u32-apart (ptr + 4) (value / 2 ^ 32) other (u32_to_u8 ptr value mem),
  u8_to_u32-apart ptr value other mem,
)

pub u8_to_u64-u32_to_u8 :
    (ptr value other : ℕ) (mem : Bytes)
    → (other + 8 ≤ ptr) ⊎ (ptr + 4 ≤ other)
    → u8_to_u64 other (u32_to_u8 ptr value mem) ≡ u8_to_u64 other mem
unfolding u8_to_u64
u8_to_u64-u32_to_u8 ptr value other mem h =
    ground (arith, u8_to_u32-apart ptr value other mem, u8_to_u32-apart ptr value (other + 4) mem)

pub u8_to_u64-apart :
    (ptr value other : ℕ) (mem : Bytes)
    → (other + 8 ≤ ptr) ⊎ (ptr + 8 ≤ other)
    → u8_to_u64 other (u64_to_u8 ptr value mem) ≡ u8_to_u64 other mem
unfolding u8_to_u64
u8_to_u64-apart ptr value other mem h =
    ground (
      arith,
      u8_to_u32-u64_to_u8 ptr value other mem,
      u8_to_u32-u64_to_u8 ptr value (other + 4) mem,
    )
