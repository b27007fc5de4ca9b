-- ===== src/Base/Bits.antt =====
-- `&`, `|` and shifts of machine words as arithmetic, at every width.
use Prim.Native.Nat.{
  ℕ, zero, suc, ◌+◌, ◌-◌, ◌*◌, ◌/◌, ◌%◌, ◌^◌, ◌≤◌, ◌<◌, min, max, bit_and, bit_or, digits,
  bit_and-bitwise, bit_or-bitwise,
}
use mathlib.Core.Path.{◌≡◌, refl, ap}
use mathlib.Core.Bool.{Bool, true, ◌&&◌}
use mymuxer.Base.Tests.{◌==◌, ==_iff}
use native.Mathlib.Nat.{pow-suc, pow-succ', one-le-pow, div-div-eq-div-mul, div-one}
use native.Mathlib.Omega.{arith}

-- The recursion on digits, whatever the count that drives it.
module _ (z : ℕ → ℕ) (f : ℕ → ℕ → ℕ) where
  digits_count : (n m a b : ℕ) → a ≤ n → a ≤ m → digits z f n a b ≡ digits z f m a b
  digits_count zero zero a b p q = refl
  digits_count zero (suc m) zero b p q = refl
  digits_count zero (suc m) (suc a) b p q = absurd (omega arith)
  digits_count (suc n) zero zero b p q = refl
  digits_count (suc n) zero (suc a) b p q = absurd (omega arith)
  digits_count (suc n) (suc m) zero b p q = refl
  digits_count (suc n) (suc m) (suc a) b p q =
      omega (arith, digits_count n m (suc a / 2) (b / 2) (omega arith) (omega arith))

  digits_step :
      (a b : ℕ)
      → digits z f (suc a) (suc a) b
        ≡ digits z f (suc a / 2) (suc a / 2) (b / 2) * 2 + f (suc a % 2) (b % 2)
  digits_step a b =
      omega (arith, digits_count a (suc a / 2) (suc a / 2) (b / 2) (omega arith) (omega arith))

-- One binary digit at a time.
pub bit_and_step : (a b : ℕ) → bit_and a b ≡ bit_and (a / 2) (b / 2) * 2 + min (a % 2) (b % 2)
bit_and_step zero b = omega (arith, bit_and-bitwise 0 b, bit_and-bitwise 0 (b / 2))
bit_and_step (suc a) b = omega (
  arith,
  bit_and-bitwise (suc a) b,
  bit_and-bitwise (suc a / 2) (b / 2),
  digits_step (λ b. zero) min a b,
)

pub bit_or_step : (a b : ℕ) → bit_or a b ≡ bit_or (a / 2) (b / 2) * 2 + max (a % 2) (b % 2)
bit_or_step zero b = omega (arith, bit_or-bitwise 0 b, bit_or-bitwise 0 (b / 2))
bit_or_step (suc a) b = omega (
  arith,
  bit_or-bitwise (suc a) b,
  bit_or-bitwise (suc a / 2) (b / 2),
  digits_step (λ b. b) max a b,
)

bit_or-zero_count : (n a : ℕ) → a ≤ n → bit_or a 0 ≡ a
bit_or-zero_count n zero h = refl
bit_or-zero_count zero (suc a) h = absurd (omega arith)
bit_or-zero_count (suc n) (suc a) h =
    omega (arith, bit_or_step (suc a) 0, bit_or-zero_count n (suc a / 2) (omega arith))

bit_and-zero_count : (n a : ℕ) → a ≤ n → bit_and a 0 ≡ 0
bit_and-zero_count n zero h = refl
bit_and-zero_count zero (suc a) h = absurd (omega arith)
bit_and-zero_count (suc n) (suc a) h =
    omega (arith, bit_and_step (suc a) 0, bit_and-zero_count n (suc a / 2) (omega arith))

pub bit_or-zero : (a : ℕ) → bit_or a 0 ≡ a
bit_or-zero a = bit_or-zero_count a a (omega arith)

pub bit_and-zero : (a : ℕ) → bit_and a 0 ≡ 0
bit_and-zero a = bit_and-zero_count a a (omega arith)

bit_or_comm_count : (n a b : ℕ) → a ≤ n → bit_or a b ≡ bit_or b a
bit_or_comm_count n zero b h = omega (arith, bit_or-bitwise 0 b, bit_or-zero b)
bit_or_comm_count zero (suc a) b h = absurd (omega arith)
bit_or_comm_count (suc n) (suc a) b h = omega (
  arith,
  bit_or_step (suc a) b,
  bit_or_step b (suc a),
  bit_or_comm_count n (suc a / 2) (b / 2) (omega arith),
)

pub bit_or_comm : (a b : ℕ) → bit_or a b ≡ bit_or b a
bit_or_comm a b = bit_or_comm_count a a b (omega arith)

twice_pow : (q k : ℕ) → q * 2 ^ suc k ≡ 2 * (q * 2 ^ k)
twice_pow q k = omega (arith, ap (λ (t : ℕ). q * t) (pow-suc 2 k))

bit_or-mul_pow : (k q r : ℕ) → r < 2 ^ k → bit_or (q * 2 ^ k) r ≡ q * 2 ^ k + r
bit_or-mul_pow zero q r h = ground (arith, bit_or-zero q)
bit_or-mul_pow (suc k) q r h = ground (
  arith,
  bit_or_step (q * 2 ^ suc k) r,
  twice_pow q k,
  pow-suc 2 k,
  bit_or-mul_pow k q (r / 2) (omega (arith, pow-suc 2 k)),
)

-- `x | r` is a sum where `r` fits the `k` low bits and `x` leaves them clear.
pub bit_or_disjoint : (k x r : ℕ) → x ≡ x / 2 ^ k * 2 ^ k → r < 2 ^ k → bit_or x r ≡ x + r
bit_or_disjoint k x r e h = ground (arith, bit_or-mul_pow k (x / 2 ^ k) r h)

bit_and-mul_pow : (k x m : ℕ) → bit_and x (m * 2 ^ k) ≡ bit_and (x / 2 ^ k) m * 2 ^ k
bit_and-mul_pow zero x m = ground (arith, div-one x)
bit_and-mul_pow (suc k) x m = ground (
  arith,
  bit_and_step x (m * 2 ^ suc k),
  twice_pow m k,
  twice_pow (bit_and (x / 2 / 2 ^ k) m) k,
  bit_and-mul_pow k (x / 2) m,
  div-div-eq-div-mul x 2 (2 ^ k),
  pow-succ' 2 k,
)

-- A mask of `k` ones keeps the low part of a number split at `2 ^ k`.
bit_and-split : (k q r : ℕ) → r < 2 ^ k → bit_and (q * 2 ^ k + r) (2 ^ k - 1) ≡ r
bit_and-split zero q r h = omega (arith, bit_and-zero (q * 1 + r))
bit_and-split (suc k) q r h = ground (
  arith,
  bit_and_step (q * 2 ^ suc k + r) (2 ^ suc k - 1),
  twice_pow q k,
  pow-suc 2 k,
  one-le-pow k 2,
  bit_and-split k q (r / 2) (omega (arith, pow-suc 2 k)),
)

-- A mask of `k` low bits is the remainder by `2 ^ k`.
pub bit_and_low : (k x : ℕ) → bit_and x (2 ^ k - 1) ≡ x % 2 ^ k
bit_and_low k x = ground (arith, one-le-pow k 2, bit_and-split k (x / 2 ^ k) (x % 2 ^ k))

-- A mask of `w` bits from bit `k` on.
pub bit_and_mid : (k w x : ℕ) → bit_and x ((2 ^ w - 1) * 2 ^ k) ≡ x / 2 ^ k % 2 ^ w * 2 ^ k
bit_and_mid k w x =
    rw (bit_and-mul_pow k x (2 ^ w - 1)) (ap (λ t. t * 2 ^ k) (bit_and_low w (x / 2 ^ k)))

-- Facts about the bytes, checked value by value.
all_bytes : ℕ → (ℕ → Bool) → Bool
all_bytes zero p = true
all_bytes (suc n) p = p n && all_bytes n p

all_bytes_lem : (n : ℕ) (p : ℕ → Bool) (x : ℕ) → all_bytes n p ≡ true → x < n → p x ≡ true
unfolding all_bytes
all_bytes_lem zero p x h k = elim k [ ]
all_bytes_lem (suc n) p x h k = ground (arith, all_bytes_lem n p x)

set_top_table : all_bytes 256 (λ x. bit_or x 0x80 == x % 128 + 128) ≡ true
unfolding all_bytes
set_top_table = refl

pub bit_or_top : (x : ℕ) → x < 256 → bit_or x 0x80 ≡ x % 128 + 128
bit_or_top x h =
    (==_iff (bit_or x 0x80) (x % 128 + 128)).0
      (all_bytes_lem 256 (λ x. bit_or x 0x80 == x % 128 + 128) x set_top_table h)
