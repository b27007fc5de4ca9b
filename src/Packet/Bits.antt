-- ===== src/Packet/Bits.antt =====
-- The masks and joins of src/packet.rs as arithmetic.
use mymuxer.Base.{ℕ, ◌+◌, ◌*◌, ◌/◌, ◌%◌, ◌^◌, ◌<◌, ◌≡◌, bit_and, bit_or, arith}
use mymuxer.Base.Bits.{bit_and_low, bit_and_mid, bit_or_disjoint}
use mymuxer.Packet.{pcr_of_bytes}

pub join_pid : (a b : ℕ) → b < 256 → bit_or (bit_and a 0x1F * 256) b ≡ a % 32 * 256 + b
join_pid a b h = rw (bit_and_low 5 a) (bit_or_disjoint 8 (a % 32 * 256) b (omega arith) h)

pub control_lem : (b : ℕ) → bit_and (b / 16) 0x03 ≡ b / 16 % 4
control_lem b = bit_and_low 2 (b / 16)

pub flag_10 : (b : ℕ) → bit_and b 0x10 ≡ b / 16 % 2 * 16
flag_10 b = bit_and_mid 4 1 b

pub flag_20 : (b : ℕ) → bit_and b 0x20 ≡ b / 32 % 2 * 32
flag_20 b = bit_and_mid 5 1 b

pub flag_40 : (b : ℕ) → bit_and b 0x40 ≡ b / 64 % 2 * 64
flag_40 b = bit_and_mid 6 1 b

pub flag_80 : (b : ℕ) → bit_and b 0x80 ≡ b / 128 % 2 * 128
flag_80 b = bit_and_mid 7 1 b

-- The six bytes of a PCR as a base of 33 bits and an extension of 9.
pub pcr_of_bytes_lem :
    (b6 b7 b8 b9 b10 b11 : ℕ)
    → b7 < 256
    → b8 < 256
    → b9 < 256
    → b10 < 256
    → b11 < 256
    → pcr_of_bytes b6 b7 b8 b9 b10 b11
      ≡ (b6 * 2 ^ 25 + b7 * 2 ^ 17 + b8 * 2 ^ 9 + b9 * 2 + b10 / 128) * 300 + (b10 % 2 * 256 + b11)
unfolding pcr_of_bytes
pcr_of_bytes_lem b6 b7 b8 b9 b10 b11 h7 h8 h9 h10 h11 = rw (
  bit_or_disjoint 25 (b6 * 2 ^ 25) (b7 * 2 ^ 17) (omega arith) (omega arith),
  bit_or_disjoint 17 (b6 * 2 ^ 25 + b7 * 2 ^ 17) (b8 * 2 ^ 9) (omega arith) (omega arith),
  bit_or_disjoint 9 (b6 * 2 ^ 25 + b7 * 2 ^ 17 + b8 * 2 ^ 9) (b9 * 2) (omega arith) (omega arith),
  bit_or_disjoint 1 (b6 * 2 ^ 25 + b7 * 2 ^ 17 + b8 * 2 ^ 9 + b9 * 2) (b10 / 128) (omega arith)
      (omega arith),
  bit_and_low 1 b10,
  bit_or_disjoint 8 (b10 % 2 * 256) b11 (omega arith) h11,
)

-- The byte between base and extension, as it is written.
pub middle_byte :
    (base ext : ℕ)
    → bit_or (bit_or (bit_and (base * 2 ^ 7 % 256) 0x80) 0x7E) (bit_and (ext / 2 ^ 8 % 256) 0x01)
      ≡ base % 2 * 128 + 126 + ext / 256 % 2
middle_byte base ext = ground (
  arith,
  flag_80 (base * 2 ^ 7 % 256),
  bit_and_low 1 (ext / 2 ^ 8 % 256),
  bit_or_disjoint 7 (base % 2 * 128) 126,
  bit_or_disjoint 1 (base % 2 * 128 + 126) (ext / 256 % 2),
)
