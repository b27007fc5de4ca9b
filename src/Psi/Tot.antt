-- ===== src/Psi/Tot.antt =====
-- src/psi/tot.rs: the time offset table.
use mymuxer.Base.{ℕ, List, ◌∷◌, ◌++◌, length, bit_or, Outcome, ret, ◌>>=◌, slice}
use mymuxer.Psi.Encode.{high, low, Section, section_with_crc, set_section_length}
use mymuxer.Psi.Time.{DateTime, encode_dvb_time}

-- The offset of the time zone, two bytes of decimal digits, comes from chrono-tz and the clock; the
-- country code is ASCII.
unfoldable pub section :
    (List ℕ → ℕ) → DateTime → (country_code timezone_bcd : List ℕ) → Outcome Section
unfolding encode_dvb_time
section crc32 now country_code timezone_bcd = do
  country ← slice country_code 0 3
  let descriptor =
      0x58
      ∷ 13
      ∷ (country ++ (0x00 ∷ (timezone_bcd ++ (0xFF ∷ 0xFF ∷ 0xFF ∷ 0xFF ∷ 0xFF ∷ timezone_bcd))))
  let desc_loop_len = length descriptor
  let bytes =
      0x73
      ∷ 0x70
      ∷ 0x00
      ∷ (encode_dvb_time now ++ (bit_or 0xF0 (high desc_loop_len) ∷ low desc_loop_len ∷ descriptor))
  bytes' ← set_section_length bytes
  ret (section_with_crc crc32 0x0014 bytes')
