-- ===== src/Pes/Sps/Written.antt =====
-- Parameter sets as bits: what the reader gives of them.
use mymuxer.Base.{
  ℕ, suc, ◌+◌, ◌*◌, ◌^◌, ◌≤◌, ◌<◌, ◌≡◌, refl, arith, List, [], ◌∷◌, false, Option, none, some, All,
  length,
}
use native.Mathlib.Nat.{mul-le-mul_right, pow-le-pow_right}
use mymuxer.Packet.{IsByte}
use mymuxer.Pes.Golomb as Golomb
use mymuxer.Pes.Golomb.{BitReader}
use mymuxer.Pes.Golomb.Words.{pow_add}
use mymuxer.Pes.Golomb.Reading.{big_endian, new-IsReading}
use mymuxer.Pes.Golomb.Codes.{Left, read-Left, read_ue-code}
use mymuxer.Pes.Sps.{is_high, parse_rbsp}
use mymuxer.Pes.Sps.Fields.{
  Field, fixed, golomb, Spells, picture_fields, frame_fields, crop_right, crop_bottom, answer,
  parse_rbsp-Picture,
}

-- `Written fuel fields count value`: the number `value` of `count` bits starts with the fields; a
-- field of `n` bits as these bits, another as the bits of its number plus one, one bit more than
-- zeros in front of them.
pub data Written (fuel : ℕ) : List Field → (count value : ℕ) → Type 0 where
  done : {c w : ℕ} → w < 2 ^ c → Written fuel [] c w
  bits :
      {more : List Field} {c w : ℕ} (n a : ℕ)
      → 0 < n
      → n ≤ 32
      → a < 2 ^ n
      → Written fuel more c w
      → Written fuel (fixed n a ∷ more) (n + c) (a * 2 ^ c + w)
  code :
      {more : List Field} {c w : ℕ} (z v : ℕ)
      → 2 ^ z ≤ v + 1
      → v + 1 < 2 ^ (z + 1)
      → z < 32
      → z < fuel
      → Written fuel more c w
      → Written fuel (golomb v ∷ more) (z + 1 + (z + c)) ((v + 1) * 2 ^ c + w)

joined-lt : (n c a w : ℕ) → a < 2 ^ n → w < 2 ^ c → a * 2 ^ c + w < 2 ^ (n + c)
joined-lt n c a w h k =
    let room : suc a * 2 ^ c ≤ 2 ^ n * 2 ^ c = mul-le-mul_right (2 ^ c) h in
    let next : suc a * 2 ^ c ≡ a * 2 ^ c + 2 ^ c = grind arith in rw (pow_add n c) (omega arith)

module _ (fuel : ℕ) where
  Written-lt :
      (fields : List Field) (count value : ℕ) → Written fuel fields count value → value < 2 ^ count
  Written-lt _ _ _ (done {c} {w} h) = h
  Written-lt _ _ _ (bits {more} {c} {w} n a h i j rest) =
      joined-lt n c a w j (Written-lt more c w rest)
  Written-lt _ _ _ (code {more} {c} {w} z v h i j k rest) =
      let below = joined-lt (z + 1) c (v + 1) w i (Written-lt more c w rest) in
      let wider : 2 ^ (z + 1 + c) ≤ 2 ^ (z + 1 + (z + c)) =
        pow-le-pow_right (omega arith) (omega arith) in
      omega arith

  written-Spells :
      (fields : List Field) (count value : ℕ) (r : BitReader)
      → Written fuel fields count value
      → Left r count value
      → Spells fuel fields r
  written-Spells _ _ _ r (done h) l = tt
  written-Spells _ _ _ r (bits {more} {c} {w} n a h i j rest) l =
      let (l', e) = read-Left r n c a w (a * 2 ^ c + w) l h i refl (Written-lt more c w rest) in
      (e, written-Spells more c w _ rest l')
  written-Spells _ _ _ r (code {more} {c} {w} z v h i j k rest) l =
      let (r', e, reading, has) =
        read_ue-code z fuel c v w r l.reading l.has_view (Written-lt more c w rest) h i j k in
      (r', e, written-Spells more c w r' rest (record { reading = reading; has_view = has }))

  -- Let bytes, read as the bits of one number, start with a parameter set that is of no high
  -- profile, orders its pictures the third way and has no usability information, each field as
  -- H.264 writes it, and let the fuel exceed the zeros in front of a number. Then parse_rbsp reads
  -- from them the profile, the level and the identifier as they stand, and the sizes of a picture of
  -- macroblocks of 16 by 16, less two columns for each step of the right offset and two lines of
  -- every field for each of the bottom offset, if those leave something of it and the sizes fit 32
  -- bits. The left and the top offset change nothing.
  pub parse_rbsp-Written :
      (profile_idc constraints level_idc id log2_max refs gaps direct width height : ℕ)
      (interlaced : Option ℕ) (crop : Option (ℕ × ℕ × ℕ × ℕ)) (horizontal vertical : ℕ)
      (bytes : List ℕ)
      → All IsByte bytes
      → is_high profile_idc ≡ false
      → Written fuel
          (fixed 8 profile_idc
            ∷ fixed 8 constraints
            ∷ fixed 8 level_idc
            ∷ golomb id
            ∷ golomb log2_max
            ∷ golomb 2
            ∷ golomb refs
            ∷ fixed 1 gaps
            ∷ picture_fields direct (record {
              width_minus1 = width;
              height_minus1 = height;
              interlaced = interlaced;
              crop = crop;
            }))
          (8 * length bytes)
          (big_endian bytes)
      → (width + 1) * 16 ≡ suc horizontal + 2 * crop_right crop
      → (width + 1) * 16 < 2 ^ 32
      → frame_fields interlaced * (height + 1) * 16
        ≡ suc vertical + 2 * frame_fields interlaced * crop_bottom crop
      → frame_fields interlaced * (height + 1) * 16 < 2 ^ 32
      → answer (parse_rbsp fuel (Golomb.new bytes))
        ≡ some (record {
          stream_type = 27;
          profile_idc = some profile_idc;
          level_idc = some level_idc;
          seq_parameter_set_id = some id;
          horizontal_size = some (suc horizontal);
          vertical_size = some (suc vertical);
          frame_rate = none;
        })
  unfolding Golomb.new
  parse_rbsp-Written profile_idc constraints level_idc id log2_max refs gaps direct width height
        interlaced crop horizontal vertical bytes b low written ex hx ey hy =
      let count : 0 + 8 * length bytes ≡ 8 * length bytes = omega arith in
      let value : 0 * 2 ^ (8 * length bytes) + big_endian bytes ≡ big_endian bytes = omega arith in
      let left : Left (Golomb.new bytes) (8 * length bytes) (big_endian bytes) = record {
        reading = new-IsReading bytes b;
        has_view = λ i. record { count = count i; value = value i };
      } in
      parse_rbsp-Picture fuel profile_idc constraints level_idc id log2_max refs gaps direct width
        height interlaced crop horizontal vertical (Golomb.new bytes) low
        (written-Spells _ _ _ (Golomb.new bytes) written left) ex hx ey hy
