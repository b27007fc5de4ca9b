-- ===== src/Pes/Golomb/Words.antt =====
-- Arithmetic of a cache of bits: powers of two, quotients and remainders.
use mymuxer.Base.{ℕ, zero, suc, ◌+◌, ◌*◌, ◌/◌, ◌%◌, ◌^◌, ◌≤◌, ◌<◌, ◌≡◌, sym, ◌∙◌, ap, arith, bit_or}
use native.Mathlib.Nat.{
  div-eq_of_lt, div-add-mod', mod-lt, mul-le-mul_right, mod-eq_of_lt, pow-suc, pow-le-pow_right,
  mul-add-div_right, add-mul-mod_self_right,
}
use mymuxer.Base.Bits.{bit_or_disjoint}

pub pow_add : (a b : ℕ) → 2 ^ (a + b) ≡ 2 ^ a * 2 ^ b
pow_add zero b = let e : zero + b ≡ b = omega arith in rw e (omega arith)
pow_add (suc a) b =
    let e : suc a + b ≡ suc (a + b) = omega arith in
    rw e (grind (arith, pow-suc 2 (a + b), pow-suc 2 a, pow_add a b))

-- A cache of 56 bits has room for a byte.
pub shifted :
    (cache k b : ℕ)
    → cache < 2 ^ k
    → k ≤ 56
    → b < 256
    → bit_or (cache * 2 ^ 8 % 2 ^ 64) b ≡ cache * 256 + b
shifted cache k b h s i =
    let room : 2 ^ k ≤ 2 ^ 56 = pow-le-pow_right (omega arith) s in
    let e : cache * 2 ^ 8 % 2 ^ 64 ≡ cache * 256 = omega arith in
    rw e (bit_or_disjoint 8 (cache * 256) b (omega arith) i)

pub moved :
    (cache b p below : ℕ) → (cache * 256 + b) * p + below ≡ cache * (2 ^ 8 * p) + (b * p + below)
moved cache b p below = grind arith

-- The quotient and the remainder of a number that is already split.
pub div-split : (a q x : ℕ) → x < q → (a * q + x) / q ≡ a
div-split a q x h = mul-add-div_right {m = q} (omega arith) a x ∙ (omega (arith, div-eq_of_lt h))

pub mod-split : (a q x : ℕ) → x < q → (a * q + x) % q ≡ x
mod-split a q x h =
    ap (λ (t : ℕ). t % q) (omega arith) ∙ (add-mul-mod_self_right x a q ∙ mod-eq_of_lt h)

pub regroup : (a q c p below : ℕ) → a * (q * p) + (c * p + below) ≡ (a * q + c) * p + below
regroup a q c p below = grind arith

-- Where the bits left in the cache and the rest of the bytes are cut.
pub cut_value :
    (cache q p below : ℕ)
    → below < p
    → 0 < q
    → (cache / q * (q * p) + (cache % q * p + below) ≡ cache * p + below)
      × (cache % q * p + below < q * p)
cut_value cache q p below h i =
    let s : cache ≡ cache / q * q + cache % q = sym (div-add-mod' cache q) in
    let l : cache % q < q = mod-lt cache i in
    let m : suc (cache % q) * p ≤ q * p = mul-le-mul_right p l in
    let t : suc (cache % q) * p ≡ cache % q * p + p = grind arith in
    (regroup (cache / q) q (cache % q) p below ∙ ap (λ (t : ℕ). t * p + below) (sym s), omega arith)
