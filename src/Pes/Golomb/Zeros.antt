-- ===== src/Pes/Golomb/Zeros.antt =====
-- Where `read_ue` never stops.
use mymuxer.Base.{
  ℕ, zero, suc, ◌+◌, ◌-◌, ◌/◌, ◌%◌, ◌^◌, ◌<◌, ◌≡◌, refl, ◌∙◌, ap, arith, Bool, true, false, none,
  some, leb, ltb, List, [], ◌∷◌, get_elem?, bit_and, if◌then◌else◌, length,
}
use native.Mathlib.Nat.{one-le-pow, div-eq_of_lt, mod-eq_of_lt}
use mymuxer.Base.Bits.{bit_and_low}
use mymuxer.Pes.Golomb.{
  load, refill_loop, refill, cut, BitReader, read_bits, read_bit, leading_zeros, read_ue,
}
use mymuxer.Pes.Golomb.Reading.{View, rest, IsReading, get_elem?-end, view}
use mymuxer.Pes.Golomb.Codes.{Left, recount, read-Left}

-- A reader without a bit that is set, and without a byte to load.
record IsExhausted (r : BitReader) : Type 0 where
  pub empty : r.cache ≡ 0
  pub at_end : rest r ≡ []

refill_loop-end : (n : ℕ) (r : BitReader) → rest r ≡ [] → refill_loop n r ≡ r
unfolding refill_loop
refill_loop-end zero r e = refl
refill_loop-end (suc n) r e = here (leb r.cache_bits 56)
  where
    here :
        (b : Bool)
        → (elim b [
          | false ↦ r
          | true ↦ elim (get_elem? r.data' (r.pos / 2 ^ 3)) [
            | none ↦ r
            | some b ↦ refill_loop n (load r b)
          ]
        ])
          ≡ r
    here false = refl
    here true = rw (get_elem?-end r.data' (r.pos / 8) e)

cut-IsExhausted : (r : BitReader) → IsExhausted r → IsExhausted ((cut r 1).0) × ((cut r 1).1 ≡ 0)
unfolding cut
cut-IsExhausted r e =
    let q = (r.cache_bits + 2 ^ 8 - 1) % 2 ^ 8 % 64 in
    let one : 0 < 2 ^ q = one-le-pow q 2 (omega arith) in
    let low : bit_and 0 (2 ^ q - 1) ≡ 0 = bit_and_low q 0 ∙ mod-eq_of_lt one in
    let high : 0 / 2 ^ q ≡ 0 = div-eq_of_lt one in
    (record { empty = rw (e.empty) low; at_end = e.at_end }, rw (e.empty) (rw high refl))

read_bit-IsExhausted :
    (r : BitReader) → IsExhausted r → IsExhausted ((read_bit r).0) × ((read_bit r).1 ≡ 0)
unfolding read_bit read_bits refill
read_bit-IsExhausted r e = here (ltb r.cache_bits 1)
  where
    here :
        (b : Bool)
        → IsExhausted ((cut (if b then refill r else r) 1).0)
          × ((cut (if b then refill r else r) 1).1 ≡ 0)
    here true = rw (refill_loop-end 8 r (e.at_end)) (cut-IsExhausted r e)
    here false = cut-IsExhausted r e

leading_zeros-IsExhausted :
    (fuel : ℕ) (r : BitReader) (count : ℕ) → IsExhausted r → leading_zeros fuel r count ≡ none
unfolding leading_zeros
leading_zeros-IsExhausted zero r count e = refl
leading_zeros-IsExhausted (suc fuel) r count e =
    let (e', b) = read_bit-IsExhausted r e in
    rw b (leading_zeros-IsExhausted fuel ((read_bit r).0) (count + 1) e')

length-zero : (xs : List ℕ) → length xs ≡ 0 → xs ≡ []
length-zero [] e = refl
length-zero (x ∷ xs) e = absurd (omega arith)

no_bits : (r : BitReader) → r.cache_bits ≡ 0 → r.cache < 2 ^ r.cache_bits → r.cache ≡ 0
no_bits r e h = let size : 2 ^ r.cache_bits ≡ 1 = ap (λ (t : ℕ). 2 ^ t) e in omega arith

-- No bit is left: the cache is empty and the bytes are loaded.
none-IsExhausted : (r : BitReader) → Left r 0 0 → IsExhausted r
none-IsExhausted r l =
    let count : (view r).count ≡ 0 = ap (λ (v : View). v.count) l.has_view in
    let fits = l.reading.fits in
    let empty : r.cache_bits ≡ 0 = omega arith in
    record { empty = no_bits r empty fits; at_end = length-zero (rest r) (omega arith) }

leading_zeros-zeros :
    (n fuel : ℕ) (r : BitReader) (count : ℕ) → Left r n 0 → leading_zeros fuel r count ≡ none
unfolding leading_zeros read_bit
leading_zeros-zeros zero fuel r count l =
    leading_zeros-IsExhausted fuel r count (none-IsExhausted r l)
leading_zeros-zeros (suc n) zero r count l = refl
leading_zeros-zeros (suc n) (suc fuel) r count l =
    let (l', b) =
      read-Left r 1 n 0 0 0 (recount l (omega arith)) (omega arith) (omega arith) (omega arith)
        (one-le-pow n 2 (omega arith)) in
    rw b (leading_zeros-zeros n fuel ((read_bits r 1).0) (count + 1) l')

-- Where only zeros are left, or nothing is, the loop of `read_ue` never stops: no fuel is enough.
pub read_ue-zeros :
    (fuel : ℕ) (r : BitReader) → IsReading r → (view r).value ≡ 0 → read_ue fuel r ≡ none
unfolding read_ue
read_ue-zeros fuel r v e =
    let l : Left r (view r).count 0 = record {
      reading = v;
      has_view = λ i. record { count = (view r).count; value = e i };
    } in
    rw (leading_zeros-zeros (view r).count fuel r 0 l, read_ue) refl
