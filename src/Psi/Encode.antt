-- ===== src/Psi/Encode.antt =====
-- src/psi/mod.rs: how sections are finished: the length field, the checksum, texts and times.
-- The checksum is the crc crate's, a parameter.
use mymuxer.Base.{
  ℕ, ◌+◌, ◌-◌, ◌*◌, ◌/◌, ◌%◌, ◌^◌, min, bit_and, bit_or, List, [], ◌∷◌, ◌++◌, length, Outcome,
  ◌>>=◌, byte_at, store,
}

unfoldable pub high : ℕ → ℕ
high value = value / 2 ^ 8 % 256

unfoldable pub low : ℕ → ℕ
low value = value % 256

-- `u32::to_be_bytes`
unfoldable pub be_bytes32 : ℕ → List ℕ
be_bytes32 w = (w / 2 ^ 24 % 256) ∷ (w / 2 ^ 16 % 256) ∷ (w / 2 ^ 8 % 256) ∷ (w % 256) ∷ []

-- `section.len() - 3 + 4` wraps below 3 bytes, where the stores then panic.
unfoldable pub set_section_length : List ℕ → Outcome (List ℕ)
unfolding high low
set_section_length section = do
  let len = (length section + 2 ^ 64 - 3 + 4) % 2 ^ 16
  b1 ← byte_at section 1
  s1 ← store section 1 (bit_or (bit_and b1 0xF0) (high len))
  store s1 2 (low len)

pub record Section : Type 0 where
  pub pid : ℕ
  pub bytes : List ℕ

unfoldable pub section_with_crc : (List ℕ → ℕ) → ℕ → List ℕ → Section
unfolding be_bytes32
section_with_crc crc32 pid bytes = record { pid = pid; bytes = bytes ++ be_bytes32 (crc32 bytes) }

-- Two decimal digits. The shift drops what does not fit a `u8`.
unfoldable pub bcd : ℕ → ℕ
bcd value = bit_or (value / 10 * 2 ^ 4 % 256) (value % 10)

unfoldable pub encode_duration : ℕ → List ℕ
unfolding bcd
encode_duration seconds =
    bcd (min (seconds / 3600) 99) ∷ bcd (seconds % 3600 / 60) ∷ bcd (seconds % 60) ∷ []
