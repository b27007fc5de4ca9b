-- ===== src/Pes/Golomb/Codes.antt =====
-- Exponential Golomb codes: what `read_ue` reads.
use mymuxer.Base.{
  ℕ, zero, suc, ◌+◌, ◌-◌, ◌*◌, ◌/◌, ◌%◌, ◌^◌, ◌≤◌, ◌<◌, ◌≡◌, refl, ◌∙◌, ap, arith, false, some,
  ◌==◌,
}
use native.Mathlib.Nat.{pow-suc, one-le-pow, pow-le-pow_right, mod-eq_of_lt, mul-le-mul_right}
use mymuxer.Pes.Golomb.{BitReader, read_bits, read_bit, leading_zeros, suffixed, read_ue}
use mymuxer.Pes.Golomb.Reading.{View, IsReading, view, take_bits, read_bits-take_bits}
use mymuxer.Pes.Golomb.Words.{pow_add, div-split, mod-split}

-- A reader with so much left.
pub record Left (r : BitReader) (count value : ℕ) : Type 0 where
  pub reading : IsReading r
  pub has_view : ◌≡◌ {A = View} (view r) (record { count = count; value = value })

pub recount : {r : BitReader} {k k' w : ℕ} → Left r k w → k ≡ k' → Left r k' w
recount l e = rw (← e) l

-- A read where the number left is split at the bits read.
pub read-Left :
    (r : BitReader) (n c a x w : ℕ)
    → Left r (n + c) w
    → 0 < n
    → n ≤ 32
    → w ≡ a * 2 ^ c + x
    → x < 2 ^ c
    → Left ((read_bits r n).0) c x × ((read_bits r n).1 ≡ a)
read-Left r n c a x w l h i e k =
    let count : (view r).count ≡ n + c = ap (λ (v : View). v.count) l.has_view in
    let (v, t) = read_bits-take_bits r n l.reading h i (omega arith) in
    let u = t ∙ ap (λ (v : View). take_bits v n) l.has_view in
    let s : n + c - n ≡ c = omega arith in
    let low : w % 2 ^ c ≡ x = rw e (mod-split a (2 ^ c) x k) in
    let high : w / 2 ^ c ≡ a = rw e (div-split a (2 ^ c) x k) in
    let done = rw (s, low, high) at u in
    (
      record { reading = v; has_view = ap (λ (p : View × ℕ). p.0) done },
      ap (λ (p : View × ℕ). p.1) done,
    )

-- The zeros before the first one, and that one, are taken.
leading_zeros-Left :
    (z fuel c x count : ℕ) (r : BitReader)
    → Left r (z + 1 + c) (2 ^ c + x)
    → x < 2 ^ c
    → z < fuel
    → (r' : BitReader) × (leading_zeros fuel r count ≡ some (r', count + z)) × Left r' c x
unfolding leading_zeros read_bit
leading_zeros-Left z zero c x count r l k h = elim h [ ]
leading_zeros-Left zero (suc fuel) c x count r l k h =
    let (l', b) =
      read-Left r 1 c 1 x (2 ^ c + x) (recount l (omega arith)) (omega arith) (omega arith)
        (omega arith) k in
    ((read_bits r 1).0, rw b (ap (λ (t : ℕ). some ((read_bits r 1).0, t)) (omega arith)), l')
leading_zeros-Left (suc z) (suc fuel) c x count r l k h =
    let room : 2 ^ suc c ≤ 2 ^ (z + 1 + c) = pow-le-pow_right (omega arith) (omega arith) in
    let (l', b) =
      read-Left r 1 (z + 1 + c) 0 (2 ^ c + x) (2 ^ c + x) (recount l (omega arith)) (omega arith)
        (omega arith) (omega arith) (omega (arith, pow-suc 2 c)) in
    let (r', e, l'') =
      leading_zeros-Left z fuel c x (count + 1) ((read_bits r 1).0) l' k (omega arith) in
    (r', rw b (e ∙ ap (λ (t : ℕ). some (r', t)) (omega arith)), l'')

distrib : (a b u c : ℕ) → a ≡ b + u → a * c ≡ b * c + u * c
distrib a b u c e = rw e (grind arith)

read_ue-some :
    (fuel : ℕ) (r r' : BitReader) (count z : ℕ)
    → leading_zeros fuel r 0 ≡ some (r', count)
    → count ≡ z
    → read_ue fuel r ≡ some (suffixed r' z)
unfolding read_ue
read_ue-some fuel r r' count z e f = rw (e, read_ue) (ap (λ (t : ℕ). some (suffixed r' t)) f)

-- The last part of `read_ue`: as many bits behind the one as there were zeros before it.
suffixed-Left :
    (z c u x : ℕ) (r : BitReader)
    → Left r (z + c) (u * 2 ^ c + x)
    → x < 2 ^ c
    → u < 2 ^ z
    → z < 32
    → Left ((suffixed r z).0) c x × ((suffixed r z).1 ≡ 2 ^ z - 1 + u)
unfolding suffixed
suffixed-Left zero c u x r l h k i =
    let none_there : u ≡ 0 = omega arith in
    let value : u * 2 ^ c + x ≡ x = ap (λ (t : ℕ). t * 2 ^ c + x) none_there ∙ omega arith in
    let count : 0 + c ≡ c = omega arith in
    (
      record {
        reading = l.reading;
        has_view = l.has_view ∙ (λ i. record { count = count i; value = value i });
      },
      omega arith,
    )
suffixed-Left (suc z) c u x r l h k i =
    let n : suc z % 2 ^ 8 ≡ suc z = omega arith in
    let m : suc z % 32 ≡ suc z = omega arith in
    let twice : 2 ^ suc (suc z) ≡ 2 ^ suc z * 2 = pow-suc 2 (suc z) in
    let word : 2 ^ suc z ≤ 2 ^ 31 = pow-le-pow_right (omega arith) {j = 31} (omega arith) in
    let (l', b) = read-Left r (suc z) c u x (u * 2 ^ c + x) l (omega arith) (omega arith) refl h in
    let some_there : (suc z == 0) ≡ false = ground arith in
    let one : 0 < 2 ^ suc z = one-le-pow (suc z) 2 (omega arith) in
    let fits : (2 ^ suc z - 1 + u) % 2 ^ 32 ≡ 2 ^ suc z - 1 + u = mod-eq_of_lt (omega arith) in
    rw (n, m, some_there) (l', rw b fits)

-- `read_ue` takes the code of `v` off the front: where `v + 1` has `z + 1` bits, at most 32, these
-- bits behind `z` zeros, whatever follows them.
pub read_ue-code :
    (z fuel c v x : ℕ) (r : BitReader)
    → IsReading r
    → ◌≡◌ {A = View} (view r) (record { count = z + 1 + (z + c); value = (v + 1) * 2 ^ c + x })
    → x < 2 ^ c
    → 2 ^ z ≤ v + 1
    → v + 1 < 2 ^ (z + 1)
    → z < 32
    → z < fuel
    → (r' : BitReader) × (read_ue fuel r ≡ some (r', v))
      × IsReading r'
      × (◌≡◌ {A = View} (view r') (record { count = c; value = x }))
read_ue-code z fuel c v x r reading has h low high small enough =
    let w : 2 ^ (z + c) ≡ 2 ^ z * 2 ^ c = pow_add z c in
    let p : 2 ^ (z + 1) ≡ 2 ^ z * 2 = pow_add z 1 in
    let u = v + 1 - 2 ^ z in
    let dist : (v + 1) * 2 ^ c ≡ 2 ^ z * 2 ^ c + u * 2 ^ c =
      distrib (v + 1) (2 ^ z) u (2 ^ c) (omega arith) in
    let value : (v + 1) * 2 ^ c + x ≡ 2 ^ (z + c) + (u * 2 ^ c + x) = omega arith in
    let l : Left r (z + 1 + (z + c)) (2 ^ (z + c) + (u * 2 ^ c + x)) = record {
      reading = reading;
      has_view = rw (← value) has;
    } in
    let fewer : u < 2 ^ z = omega arith in
    let room : suc u * 2 ^ c ≤ 2 ^ z * 2 ^ c = mul-le-mul_right (2 ^ c) fewer in
    let next : suc u * 2 ^ c ≡ u * 2 ^ c + 2 ^ c = grind arith in
    let (r', e, l') =
      leading_zeros-Left z fuel (z + c) (u * 2 ^ c + x) 0 r l (omega arith) enough in
    let (l'', b) = suffixed-Left z c u x r' l' h fewer small in
    let number : 2 ^ z - 1 + u ≡ v = omega arith in
    (
      (suffixed r' z).0,
      read_ue-some fuel r r' (0 + z) z e (omega arith)
          ∙ ap (λ (t : ℕ). some ((suffixed r' z).0, t)) (b ∙ number),
      l''.reading,
      l''.has_view,
    )
