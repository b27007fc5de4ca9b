-- ===== src/Pes/Golomb/Reading.antt =====
-- BitReader reads the bits of its data from the front, as those of one long number.
use mymuxer.Base.{
  ℕ, zero, suc, ◌+◌, ◌-◌, ◌*◌, ◌/◌, ◌%◌, ◌^◌, ◌≤◌, ◌<◌, ◌≡◌, refl, sym, ◌∙◌, ap, arith, bit_and,
  List, [], ◌∷◌, none, some, leb, ltb, leb→le, ltb_false→le, get_elem?, length, drop, All, drop-All,
  inl, inr, ◌⊎◌, Bool-cases,
}
use native.Mathlib.Nat.{mod-lt, mod-eq_of_lt, div-lt_iff_lt-mul, one-le-pow, pow-le-pow_right}
use mymuxer.Base.Bits.{bit_and_low}
use mymuxer.Packet.{IsByte}
use mymuxer.Pes.Golomb.Words.{pow_add, shifted, moved, div-split, mod-split, cut_value}
use mymuxer.Pes.Golomb.{BitReader, new, load, refill_loop, refill, cut, read_bits}

-- The bytes as one number, the first the most significant.
abbrev pub big_endian : List ℕ → ℕ
big_endian [] = 0
big_endian (b ∷ bs) = b * 2 ^ (8 * length bs) + big_endian bs

-- What is left to read: how many bits, and the number that they form.
pub record View : Type 0 where
  pub count : ℕ
  pub value : ℕ

-- The specification: the first `n` bits come off the front.
abbrev pub take_bits : View → ℕ → View × ℕ
take_bits v n = (
  record { count = v.count - n; value = v.value % 2 ^ (v.count - n) },
  v.value / 2 ^ (v.count - n),
)

abbrev pub rest : BitReader → List ℕ
rest r = drop (r.pos / 8) r.data'

-- The bits in the cache come before those of the bytes not loaded yet.
abbrev pub view : BitReader → View
view r = record {
  count = r.cache_bits + 8 * length (rest r);
  value = r.cache * 2 ^ (8 * length (rest r)) + big_endian (rest r);
}

pub record IsReading (r : BitReader) : Type 0 where
  pub bytes : All IsByte r.data'
  pub whole : r.pos % 8 ≡ 0
  pub small : r.cache_bits ≤ 64
  pub fits : r.cache < 2 ^ r.cache_bits

pub big_endian-lt : (bs : List ℕ) → All IsByte bs → big_endian bs < 2 ^ (8 * length bs)
big_endian-lt [] h = omega arith
big_endian-lt (b ∷ bs) h =
    let e : 8 * suc (length bs) ≡ 8 + 8 * length bs = omega arith in
    rw e (rw (pow_add 8 (8 * length bs)) (grind (arith, h.0, big_endian-lt bs h.1)))

-- The next byte, if there is one.
next_byte :
    (xs : List ℕ) (i : ℕ)
    → ((get_elem? xs i ≡ none) × (drop i xs ≡ []))
      ⊎ ((b : ℕ) × (get_elem? xs i ≡ some b) × (drop i xs ≡ b ∷ drop (i + 1) xs))
next_byte [] zero = inl (refl, refl)
next_byte [] (suc i) = inl (refl, refl)
next_byte (x ∷ xs) zero = inr (x, refl, refl)
next_byte (x ∷ xs) (suc i) = let e : suc i + 1 ≡ suc (i + 1) = omega arith in rw e (next_byte xs i)

pub get_elem?-end : (xs : List ℕ) (i : ℕ) → drop i xs ≡ [] → get_elem? xs i ≡ none
get_elem?-end [] zero e = refl
get_elem?-end [] (suc i) e = refl
get_elem?-end (x ∷ xs) zero e = cc
get_elem?-end (x ∷ xs) (suc i) e = get_elem?-end xs i e

View-eq :
    {c c' v v' : ℕ}
    → c ≡ c'
    → v ≡ v'
    → ◌≡◌ {A = View} (record { count = c; value = v }) (record { count = c'; value = v' })
View-eq e f = λ i. record { count = e i; value = f i }

load-view :
    (r : BitReader) (b : ℕ)
    → IsReading r
    → r.cache_bits ≤ 56
    → rest r ≡ b ∷ drop (r.pos / 8 + 1) r.data'
    → IsReading (load r b) × (view (load r b) ≡ view r)
unfolding load
load-view r b v room e =
    let byte : b < 256 = (rw e at (drop-All IsByte (r.pos / 8) r.data' v.bytes)).0 in
    let c = shifted r.cache r.cache_bits b v.fits room byte in
    let p : (r.pos + 8) / 8 ≡ r.pos / 8 + 1 = omega arith in
    let n : ℕ = length (drop (r.pos / 8 + 1) r.data') in
    let w : 2 ^ (r.cache_bits + 8) ≡ 2 ^ r.cache_bits * 2 ^ 8 = pow_add r.cache_bits 8 in
    let d : 2 ^ (8 * suc n) ≡ 2 ^ 8 * 2 ^ (8 * n) =
      ap (λ (t : ℕ). 2 ^ t) (omega arith) ∙ pow_add 8 (8 * n) in
    (
      record {
        bytes = v.bytes;
        whole = omega (arith, v.whole);
        small = omega arith;
        fits = rw c (omega (arith, v.fits));
      },
      rw (c, p, e)
          (View-eq (omega arith)
            (rw d (moved r.cache b (2 ^ (8 * n)) (big_endian (drop (r.pos / 8 + 1) r.data'))))),
    )

load-bits : (r : BitReader) (b : ℕ) → (load r b).cache_bits ≡ r.cache_bits + 8
unfolding load
load-bits r b = refl

-- A cache after `refill`: enough bits for a read, or all that there are.
record Filled (r r' : BitReader) : Type 0 where
  pub reading : IsReading r'
  pub same_view : view r' ≡ view r
  pub enough : (57 ≤ r'.cache_bits) ⊎ (rest r' ≡ [])

refill_loop-Filled :
    (n : ℕ) (r : BitReader) → IsReading r → 57 ≤ r.cache_bits + 8 * n → Filled r (refill_loop n r)
unfolding refill_loop
refill_loop-Filled zero r v h = record { reading = v; same_view = refl; enough = inl (omega arith) }
refill_loop-Filled (suc n) r v h = elim (Bool-cases (leb r.cache_bits 56)) [
  | inr many ↦
      rw (many, refill_loop) (record { reading = v; same_view = refl; enough = inl (ground arith) })
  | inl few ↦
      rw (few, refill_loop)
        (elim (next_byte r.data' (r.pos / 8)) [
          | inl e ↦
              rw (e.0, refill_loop) (record { reading = v; same_view = refl; enough = inr (e.1) })
          | inr e ↦
              rw (e.1, refill_loop)
                (let (v', s) = load-view r (e.0) v (leb→le _ _ few) (e.2) in
                  let f =
                    refill_loop-Filled n (load r (e.0)) v' (omega (arith, load-bits r (e.0))) in
                  record { reading = f.reading; same_view = f.same_view ∙ s; enough = f.enough })
        ])
]

-- The bits that `read_bits` takes from a cache that has them.
cut-take_bits :
    (r : BitReader) (n : ℕ)
    → IsReading r
    → 0 < n
    → n ≤ 32
    → n ≤ r.cache_bits
    → IsReading ((cut r n).0)
      × (◌≡◌ {A = View × ℕ} (view ((cut r n).0), (cut r n).1) (take_bits (view r) n))
unfolding cut
cut-take_bits r n v h i j =
    let q = r.cache_bits - n in
    let len = length (rest r) in
    let small = v.small in
    let left : (r.cache_bits + 2 ^ 8 - n) % 2 ^ 8 ≡ q = omega arith in
    let left64 : q % 64 ≡ q = omega arith in
    let n64 : n % 64 ≡ n = omega arith in
    let size : 2 ^ r.cache_bits ≡ 2 ^ q * 2 ^ n =
      ap (λ (t : ℕ). 2 ^ t) (omega arith) ∙ pow_add q n in
    let one : 0 < 2 ^ q = one-le-pow q 2 (omega arith) in
    let high : r.cache / 2 ^ q < 2 ^ n =
      (div-lt_iff_lt-mul one).1
        (let swap : 2 ^ n * 2 ^ q ≡ 2 ^ q * 2 ^ n = grind arith in omega arith) in
    let word : 2 ^ n ≤ 2 ^ 32 = pow-le-pow_right (omega arith) i in
    let val : bit_and (r.cache / 2 ^ q) (2 ^ n - 1) % 2 ^ 32 ≡ r.cache / 2 ^ q =
      rw (bit_and_low n (r.cache / 2 ^ q))
        (ap (λ (t : ℕ). t % 2 ^ 32) (mod-eq_of_lt high) ∙ mod-eq_of_lt (omega arith)) in
    let cache = bit_and_low q r.cache in
    let (e, l) =
      cut_value r.cache (2 ^ q) (2 ^ (8 * len)) (big_endian (rest r))
        (big_endian-lt (rest r) (drop-All IsByte (r.pos / 8) r.data' v.bytes)) one in
    let count : r.cache_bits + 8 * len - n ≡ q + 8 * len = omega arith in
    let weight : 2 ^ (q + 8 * len) ≡ 2 ^ q * 2 ^ (8 * len) = pow_add q (8 * len) in
    let a = r.cache / 2 ^ q in
    let w = 2 ^ q * 2 ^ (8 * len) in
    let low = r.cache % 2 ^ q * 2 ^ (8 * len) + big_endian (rest r) in
    rw (left, left64, n64, val, cache)
      (
        record { bytes = v.bytes; whole = v.whole; small = omega arith; fits = mod-lt r.cache one },
        rw (count, weight)
            (rw (← e) (λ k. (
              record { count = q + 8 * len; value = sym (mod-split a w low l) k },
              sym (div-split a w low l) k,
            ))),
      )

Filled-enough :
    (r r' : BitReader) (n : ℕ) → Filled r r' → n ≤ 32 → n ≤ (view r).count → n ≤ r'.cache_bits
Filled-enough r r' n f i j =
    let count : (view r').count ≡ (view r).count = ap (λ (v : View). v.count) f.same_view in
    elim f.enough [
      | inl many ↦ omega arith
      | inr none_left ↦ let c = rw none_left at count in omega arith
    ]

-- On a reader of bytes whose cache fits its count, `read_bits` of one to 32 bits that are left gives
-- the number that they form and takes them off the front of what is left, whether or not it has to
-- refill its cache; the reader stays such a reader.
pub read_bits-take_bits :
    (r : BitReader) (n : ℕ)
    → IsReading r
    → 0 < n
    → n ≤ 32
    → n ≤ (view r).count
    → IsReading ((read_bits r n).0)
      × (◌≡◌ {A = View × ℕ} (view ((read_bits r n).0), (read_bits r n).1) (take_bits (view r) n))
unfolding read_bits refill
read_bits-take_bits r n v h i j = elim (Bool-cases (ltb r.cache_bits n)) [
  | inr many ↦ rw many (cut-take_bits r n v h i (ltb_false→le _ _ many))
  | inl few ↦
      let f = refill_loop-Filled 8 r v (omega arith) in
      let (v', e) = cut-take_bits (refill_loop 8 r) n f.reading h i (Filled-enough r _ n f i j) in
      rw few (v', e ∙ ap (λ (w : View). take_bits w n) f.same_view)
]

pub new-IsReading : (bytes : List ℕ) → All IsByte bytes → IsReading (new bytes)
unfolding new
new-IsReading bytes h = record { bytes = h; whole = refl; small = omega arith; fits = omega arith }
