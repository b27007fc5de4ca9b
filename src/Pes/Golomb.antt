-- ===== src/Pes/Golomb.antt =====
-- src/pes/golomb.rs: BitReader. Shifts take their count modulo 64 (or 32), as in a release build.
pub mod Words
pub mod Reading
pub mod Codes
pub mod Zeros
use mymuxer.Base.{
  ℕ, zero, suc, ◌+◌, ◌-◌, ◌*◌, ◌/◌, ◌%◌, ◌^◌, bit_and, bit_or, List, Bool, true, false, Option,
  none, some, leb, ltb, ◌==◌, if◌then◌else◌, get_elem?,
}

pub record BitReader : Type 0 where
  pub data' : List ℕ
  pub pos : ℕ
  pub cache : ℕ
  pub cache_bits : ℕ

unfoldable pub new : List ℕ → BitReader
new bytes = record { data' = bytes; pos = 0; cache = 0; cache_bits = 0 }

-- One byte moved to the cache.
unfoldable pub load : BitReader → ℕ → BitReader
load r b = record r {
  cache = bit_or (r.cache * 2 ^ 8 % 2 ^ 64) b;
  cache_bits = r.cache_bits + 8;
  pos = r.pos + 8;
}

-- The loop of `refill`; eight rounds bring any cache above 56 bits.
unfoldable pub refill_loop : ℕ → BitReader → BitReader
refill_loop zero r = r
refill_loop (suc n) r = elim (leb r.cache_bits 56) [
  | false ↦ r
  | true ↦ elim (get_elem? r.data' (r.pos / 2 ^ 3)) [ none ↦ r | some b ↦ refill_loop n (load r b) ]
]

unfoldable pub refill : BitReader → BitReader
refill r = refill_loop 8 r

-- `read_bits` once the cache is filled.
unfoldable pub cut : BitReader → ℕ → BitReader × ℕ
cut r n =
    let left = (r.cache_bits + 2 ^ 8 - n) % 2 ^ 8 in
    let val = bit_and (r.cache / 2 ^ (left % 64)) (2 ^ (n % 64) - 1) in
    (record r { cache = bit_and r.cache (2 ^ (left % 64) - 1); cache_bits = left }, val % 2 ^ 32)

unfoldable pub read_bits : BitReader → ℕ → BitReader × ℕ
read_bits r n = cut (if ltb r.cache_bits n then refill r else r) n

unfoldable pub read_bit : BitReader → BitReader × ℕ
read_bit r = read_bits r 1

-- The loop of `read_ue`: how many zeros there are before the next one. `none` is the fuel run out.
unfoldable pub leading_zeros : ℕ → BitReader → ℕ → Option (BitReader × ℕ)
leading_zeros zero r count = none
leading_zeros (suc fuel) r count =
    let more = leading_zeros fuel ((read_bit r).0) (count + 1) in
    if (read_bit r).1 == 0 then more else some ((read_bit r).0, count)

-- `read_ue` after the loop; the count of zeros is an `i32` there.
unfoldable pub suffixed : BitReader → ℕ → BitReader × ℕ
suffixed r count =
    if count == 0
    then (r, 0)
    else let (r', suffix) = read_bits r (count % 2 ^ 8) in
      (r', (2 ^ (count % 32) - 1 + suffix) % 2 ^ 32)

unfoldable pub read_ue : ℕ → BitReader → Option (BitReader × ℕ)
read_ue fuel r = elim (leading_zeros fuel r 0) [
  | none ↦ none
  | some (r', count) ↦ some (suffixed r' count)
]
