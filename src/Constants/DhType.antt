-- ===== src/Constants/DhType.antt =====
-- enum class DHType : uint32_t of the common device types; the enumerators that the code names.
use multi_hardware.Base.{ℕ}

abbrev pub unknown : ℕ
unknown = 0

abbrev pub modem : ℕ
modem = 0x200

abbrev pub max_dh : ℕ
max_dh = 0x8000_0000

abbrev pub camera : ℕ
camera = 1

abbrev pub audio : ℕ
audio = 2
