-- ===== src/Pes/Sps/Fields.antt =====
-- What the fields of a sequence parameter set come to.
use mymuxer.Base.{
  ℕ, suc, ◌<◌, ◌^◌, ◌%◌, ◌+◌, ◌-◌, ◌*◌, ◌≡◌, refl, ap, ◌∙◌, arith, List, [], ◌∷◌, ◌++◌, false,
  Option, none, some,
}
use mymuxer.Pes.Golomb as Golomb
use mymuxer.Pes.Golomb.{BitReader}
use mymuxer.Pes.Es.{Es27}
use mymuxer.Pes.Reader.{◌>>=◌, bits, ue, if_set}
use mymuxer.Pes.Sps.{
  is_high, no_fields, default_chroma, with_sizes, positive, cropped, picture_order, vui, fields,
  parse_rbsp,
}

-- Fields as they are spelled: `fixed n v` in `n` bits, `golomb v` in the code of `read_ue`.
pub data Field : Type 0 where
  fixed : (width value : ℕ) → Field
  golomb : (value : ℕ) → Field

-- What a picture's size is spelled with. A frame of two fields has one flag more, `mbaff`.
pub record Picture : Type 0 where
  pub width_minus1 : ℕ
  pub height_minus1 : ℕ
  pub interlaced : Option ℕ
  pub crop : Option (ℕ × ℕ × ℕ × ℕ)

abbrev pub interlaced_fields : Option ℕ → List Field
interlaced_fields none = fixed 1 1 ∷ []
interlaced_fields (some mbaff) = fixed 1 0 ∷ fixed 1 mbaff ∷ []

abbrev pub crop_fields : Option (ℕ × ℕ × ℕ × ℕ) → List Field
crop_fields none = fixed 1 0 ∷ []
crop_fields (some (left, right, top, bottom)) =
    fixed 1 1 ∷ golomb left ∷ golomb right ∷ golomb top ∷ golomb bottom ∷ []

-- From the width on, without usability information; `direct` is `direct_8x8_inference_flag`.
abbrev pub picture_fields : (direct : ℕ) → Picture → List Field
picture_fields direct p =
    golomb p.width_minus1
    ∷ golomb p.height_minus1
    ∷ (interlaced_fields p.interlaced ++ (fixed 1 direct ∷ (crop_fields p.crop ++ fixed 1 0 ∷ [])))

abbrev pub frame_mbs_only : Option ℕ → ℕ
frame_mbs_only none = 1
frame_mbs_only (some mbaff) = 0

-- How many fields make a frame.
abbrev pub frame_fields : Option ℕ → ℕ
frame_fields none = 1
frame_fields (some mbaff) = 2

abbrev pub crop_right : Option (ℕ × ℕ × ℕ × ℕ) → ℕ
crop_right none = 0
crop_right (some (left, right, top, bottom)) = right

abbrev pub crop_bottom : Option (ℕ × ℕ × ℕ × ℕ) → ℕ
crop_bottom none = 0
crop_bottom (some (left, right, top, bottom)) = bottom

-- What the steps read, without the reader behind them.
abbrev pub answer : {A : Type 0} → Option (BitReader × A) → Option A
answer none = none
answer (some (r, a)) = some a

-- What is left of a size that is not cropped away, in 32 bits.
difference :
    (size taken n : ℕ)
    → size ≡ suc n + taken
    → size < 2 ^ 32
    → (size % 2 ^ 32 + 2 ^ 32 - taken % 2 ^ 32) % 2 ^ 32 ≡ suc n
difference size taken n e h = omega arith

cropped-exact :
    (size unit offset n : ℕ)
    → size ≡ suc n + unit * offset
    → size < 2 ^ 32
    → positive (cropped size unit offset) ≡ some (suc n)
unfolding cropped positive
cropped-exact size unit offset n e h = rw (difference size (unit * offset) n e h) refl

-- The sizes, where something is left of them.
with_sizes-exact :
    (width height right bottom horizontal vertical : ℕ) (interlaced : Option ℕ) (es : Es27)
    → (width + 1) * 16 ≡ suc horizontal + 2 * right
    → (width + 1) * 16 < 2 ^ 32
    → frame_fields interlaced * (height + 1) * 16
      ≡ suc vertical + 2 * frame_fields interlaced * bottom
    → frame_fields interlaced * (height + 1) * 16 < 2 ^ 32
    → with_sizes default_chroma width height (frame_mbs_only interlaced) right bottom es
      ≡ record es { horizontal_size = some (suc horizontal); vertical_size = some (suc vertical) }
unfolding with_sizes
with_sizes-exact width height right bottom horizontal vertical none es ex hx ey hy =
    rw (cropped-exact _ 2 right horizontal ex hx, cropped-exact _ 2 bottom vertical ey hy) refl
with_sizes-exact width height right bottom horizontal vertical (some mbaff) es ex hx ey hy =
    rw (cropped-exact _ 2 right horizontal ex hx, cropped-exact _ 4 bottom vertical ey hy) refl

module _ (fuel : ℕ) where
  -- The reader gives the fields, one behind the other.
  abbrev pub Spells : List Field → BitReader → Type 0
  Spells [] r = Unit
  Spells (fixed width value ∷ more) r =
      ((Golomb.read_bits r width).1 ≡ value) × Spells more (Golomb.read_bits r width).0
  Spells (golomb value ∷ more) r =
      (r' : BitReader) × (Golomb.read_ue fuel r ≡ some (r', value)) × Spells more r'

  fields_lem :
      (es : Es27) (profile_idc log2_max refs gaps direct width height : ℕ) (interlaced : Option ℕ)
      (crop : Option (ℕ × ℕ × ℕ × ℕ)) (r : BitReader)
      → is_high profile_idc ≡ false
      → Spells
          (golomb log2_max
            ∷ golomb 2
            ∷ golomb refs
            ∷ fixed 1 gaps
            ∷ picture_fields direct (record {
              width_minus1 = width;
              height_minus1 = height;
              interlaced = interlaced;
              crop = crop;
            }))
          r
      → answer (fields fuel es profile_idc r)
        ≡ some (
            with_sizes default_chroma width height
              (frame_mbs_only interlaced)
              (crop_right crop)
              (crop_bottom crop)
              (record es { frame_rate = none }))
  unfolding fields picture_order if_set bits ue vui with_sizes
  fields_lem es profile_idc log2_max refs gaps direct width height none none r low
        (r1, e1, (r2, e2, (r3, e3, (e4, (r5, e5, (r6, e6, (e7, (e8, (e9, (e10, u)))))))))) =
      rw low (
        rw (e1, ◌>>=◌)
          (rw (e2, ◌>>=◌)
            (rw (e3, ◌>>=◌) (rw (e5, ◌>>=◌) (rw (e6, ◌>>=◌) (rw (e7, e9, e10) refl))))))
  fields_lem es profile_idc log2_max refs gaps direct width height none
        (some (left, right, top, bottom)) r low
        (
          r1,
          e1,
          (
            r2,
            e2,
            (
              r3,
              e3,
              (
                e4,
                (
                  r5,
                  e5,
                  (r6, e6, (e7, (e8, (e9, (r11, ea, (r12, eb, (r13, ec, (r14, ed, (e10, u))))))))),
                ),
              ),
            ),
          ),
        ) =
      rw low (
        rw (e1, ◌>>=◌)
          (rw (e2, ◌>>=◌)
            (rw (e3, ◌>>=◌)
              (rw (e5, ◌>>=◌)
                (rw (e6, ◌>>=◌)
                  (rw (e7, e9)
                    (rw (ea, ◌>>=◌)
                      (rw (eb, ◌>>=◌) (rw (ec, ◌>>=◌) (rw (ed, ◌>>=◌) (rw e10 refl)))))))))))
  fields_lem es profile_idc log2_max refs gaps direct width height (some mbaff) none r low
        (r1, e1, (r2, e2, (r3, e3, (e4, (r5, e5, (r6, e6, (e7, (em, (e8, (e9, (e10, u))))))))))) =
      rw low (
        rw (e1, ◌>>=◌)
          (rw (e2, ◌>>=◌)
            (rw (e3, ◌>>=◌) (rw (e5, ◌>>=◌) (rw (e6, ◌>>=◌) (rw (e7, e9, e10) refl))))))
  fields_lem es profile_idc log2_max refs gaps direct width height (some mbaff)
        (some (left, right, top, bottom)) r low
        (
          r1,
          e1,
          (
            r2,
            e2,
            (
              r3,
              e3,
              (
                e4,
                (
                  r5,
                  e5,
                  (
                    r6,
                    e6,
                    (e7, (em, (e8, (e9, (r11, ea, (r12, eb, (r13, ec, (r14, ed, (e10, u))))))))),
                  ),
                ),
              ),
            ),
          ),
        ) =
      rw low (
        rw (e1, ◌>>=◌)
          (rw (e2, ◌>>=◌)
            (rw (e3, ◌>>=◌)
              (rw (e5, ◌>>=◌)
                (rw (e6, ◌>>=◌)
                  (rw (e7, e9)
                    (rw (ea, ◌>>=◌)
                      (rw (eb, ◌>>=◌) (rw (ec, ◌>>=◌) (rw (ed, ◌>>=◌) (rw e10 refl)))))))))))

  -- Let the reader give, one behind the other, the fields of a parameter set that is of no high
  -- profile, orders its pictures the third way and has no usability information. Then parse_rbsp
  -- reads from it the profile, the level and the identifier as they stand, and the sizes of a
  -- picture of macroblocks of 16 by 16, less two columns for each step of the right offset and two
  -- lines of every field for each of the bottom offset, if those leave something of it and the sizes
  -- fit 32 bits. The left and the top offset change nothing.
  pub parse_rbsp-Picture :
      (profile_idc constraints level_idc id log2_max refs gaps direct width height : ℕ)
      (interlaced : Option ℕ) (crop : Option (ℕ × ℕ × ℕ × ℕ)) (horizontal vertical : ℕ)
      (r : BitReader)
      → is_high profile_idc ≡ false
      → Spells
          (fixed 8 profile_idc
            ∷ fixed 8 constraints
            ∷ fixed 8 level_idc
            ∷ golomb id
            ∷ golomb log2_max
            ∷ golomb 2
            ∷ golomb refs
            ∷ fixed 1 gaps
            ∷ picture_fields direct (record {
              width_minus1 = width;
              height_minus1 = height;
              interlaced = interlaced;
              crop = crop;
            }))
          r
      → (width + 1) * 16 ≡ suc horizontal + 2 * crop_right crop
      → (width + 1) * 16 < 2 ^ 32
      → frame_fields interlaced * (height + 1) * 16
        ≡ suc vertical + 2 * frame_fields interlaced * crop_bottom crop
      → frame_fields interlaced * (height + 1) * 16 < 2 ^ 32
      → answer (parse_rbsp fuel r)
        ≡ some (record {
          stream_type = 27;
          profile_idc = some profile_idc;
          level_idc = some level_idc;
          seq_parameter_set_id = some id;
          horizontal_size = some (suc horizontal);
          vertical_size = some (suc vertical);
          frame_rate = none;
        })
  unfolding parse_rbsp bits ue
  parse_rbsp-Picture profile_idc constraints level_idc id log2_max refs gaps direct width height
        interlaced crop horizontal vertical r low (e1, (e2, (e3, (r4, e4, u)))) ex hx ey hy =
      let es : Es27 = record no_fields {
        profile_idc = some profile_idc;
        level_idc = some level_idc;
        seq_parameter_set_id = some id;
      } in
      rw (e1, e3)
        (rw (e4, ◌>>=◌)
          (fields_lem es profile_idc log2_max refs gaps direct width height interlaced crop r4 low u
            ∙ ap some (
                with_sizes-exact width height (crop_right crop) (crop_bottom crop) horizontal
                  vertical interlaced es ex hx ey hy)))
