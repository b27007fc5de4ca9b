-- ===== src/Biss/Keys.antt =====
-- The digits of a key, and the bytes read from them.
use mymuxer.Base.{
  ℕ, ◌+◌, ◌*◌, ◌/◌, ◌%◌, ◌^◌, ◌<◌, ◌≡◌, refl, arith, bit_or, List, [], ◌∷◌, some, ltb,
  if◌then◌else◌, length, All,
}
use mymuxer.Base.Bits.{bit_or_disjoint}
use mymuxer.Packet.{IsByte}
use mymuxer.Biss.{hex_val, hex_pairs, parse_hex_bytes}

pub hex_digit : ℕ → ℕ
hex_digit n = if ltb n 10 then n + 48 else n + 87

pub hex : List ℕ → List ℕ
hex [] = []
hex (b ∷ bs) = hex_digit (b / 16) ∷ hex_digit (b % 16) ∷ hex bs

hex_val-hex_digit : (n : ℕ) → n < 16 → hex_val (hex_digit n) ≡ some n
unfolding hex_val hex_digit
hex_val-hex_digit n h = ground arith

join_nibbles : (b : ℕ) → b < 256 → bit_or (b / 16 * 2 ^ 4 % 256) (b % 16) ≡ b
join_nibbles b h = ground (arith, bit_or_disjoint 4 (b / 16 * 16) (b % 16))

hex_pairs-hex : (bs : List ℕ) → All IsByte bs → hex_pairs (hex bs) ≡ some bs
unfolding hex_pairs hex
hex_pairs-hex [] h = refl
hex_pairs-hex (b ∷ bs) h = rw (
  hex_val-hex_digit (b / 16) (omega (arith, h.0)),
  hex_val-hex_digit (b % 16) (omega arith),
  hex_pairs-hex bs h.1,
  join_nibbles b h.0,
)

length-hex : (bs : List ℕ) → length (hex bs) ≡ length bs * 2
unfolding hex
length-hex [] = refl
length-hex (b ∷ bs) = omega (arith, length-hex bs)

-- Bytes written as two hexadecimal digits each are read back.
pub parse_hex_bytes-hex : (bs : List ℕ) → All IsByte bs → parse_hex_bytes (hex bs) ≡ some bs
unfolding parse_hex_bytes
parse_hex_bytes-hex bs h = ground (arith, length-hex bs, hex_pairs-hex bs h)
