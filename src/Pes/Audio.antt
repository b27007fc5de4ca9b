-- ===== src/Pes/Audio.antt =====
-- src/pes/es_parsers.rs: the headers of MPEG audio and video sequences.
pub mod First
use mymuxer.Base.{
  ℕ, zero, suc, ◌+◌, ◌-◌, ◌*◌, ◌/◌, ◌%◌, ◌^◌, bit_and, bit_or, List, [], ◌∷◌, Bool, true, false,
  not, ◌&&◌, Option, none, some, leb, ltb, ◌==◌, if◌then◌else◌, length, get_or, drop, Outcome, ret,
  ◌>>=◌, byte_at,
}
use mymuxer.Pes.Es.{EsUnknown, Es2, Es3, Es4, Es15, Es, unknown, es2, es3, es4, es15}

-- `u32::from_be_bytes` of four bytes from `offset` on.
abbrev pub word_at : List ℕ → ℕ → ℕ
word_at bytes i =
    get_or bytes i 0 * 2 ^ 24
    + get_or bytes (i + 1) 0 * 2 ^ 16
    + get_or bytes (i + 2) 0 * 2 ^ 8
    + get_or bytes (i + 3) 0

unfoldable pub read_u32_be : List ℕ → ℕ → Option ℕ
read_u32_be bytes offset =
    if leb (offset + 4) (length bytes) then some (word_at bytes offset) else none

-- `iter().position(...)`
unfoldable pub position_of : List ℕ → ℕ → Option ℕ
position_of [] value = none
position_of (b ∷ bs) value =
    let more : Option ℕ = elim (position_of bs value) [ none ↦ none | some i ↦ some (suc i) ] in
    if b == value then some 0 else more

unfoldable pub find_byte : List ℕ → ℕ → ℕ → Option ℕ
unfolding position_of
find_byte bytes value start =
    if leb start (length bytes)
    then elim (position_of (drop start bytes) value) [ none ↦ none | some i ↦ some (i + start) ]
    else none

-- What the loop makes of a byte 0xFF at `pos`; `more` is the loop from `pos + 2` on.
unfoldable pub checked : List ℕ → ℕ → Option (Option ℕ) → Option (Option ℕ)
checked bytes pos more =
    if ltb (length bytes) (pos + 4) then some none else elim (read_u32_be bytes pos) [
      | none ↦ more
      | some tmp ↦ if tmp / 2 ^ 20 == 0xFFF then some (some tmp) else more
    ]

-- The loop of `find_mpeg_audio_header`; the outer `none` is the fuel run out.
unfoldable pub header_loop : ℕ → List ℕ → ℕ → Option (Option ℕ)
header_loop zero bytes es_pointer = none
header_loop (suc fuel) bytes es_pointer =
    let next : Option (Option ℕ) = elim (find_byte bytes 0xFF es_pointer) [
      | none ↦ some none
      | some pos ↦ checked bytes pos (header_loop fuel bytes (pos + 2))
    ] in
    if ltb es_pointer (length bytes) then next else some none

unfoldable pub find_mpeg_audio_header : List ℕ → Option (Option ℕ)
find_mpeg_audio_header bytes = header_loop (length bytes + 1) bytes 0

-- `>>` and a mask of `w` bits.
abbrev pub bits : ℕ → (from w : ℕ) → ℕ
bits x from w = bit_and (x / 2 ^ from) (2 ^ w - 1)

unfoldable pub es3_of : ℕ → Es3
es3_of header = record {
  stream_type = 3;
  id = some (bits header 19 1);
  layer = some (bits header 17 2);
  bit_rate_index = some (bits header 12 4);
  sampling_frequency = some (bits header 10 2);
  mode = some (bits header 6 2);
  mode_extension = some (bits header 4 2);
  copyright = some (bits header 3 1);
  original = some (bits header 2 1);
  emphasis = some (bits header 0 2);
}

unfoldable pub es4_of : ℕ → Es4
es4_of header = record {
  stream_type = 4;
  id = some (bits header 19 1);
  layer = some (bits header 17 2);
  bit_rate_index = some (bits header 12 4);
  sampling_frequency = some (bits header 10 2);
  mode = some (bits header 6 2);
  mode_extension = some (bits header 4 2);
  copyright = some (bits header 3 1);
  original = some (bits header 2 1);
  emphasis = some (bits header 0 2);
}

unfoldable pub es15_of : ℕ → Es15
es15_of header = record {
  stream_type = 15;
  id = some (bits header 19 1);
  profile = some (bits header 16 2);
  sampling_frequency = some (bits header 12 4);
  channel_configuration = some (bits header 9 3);
  copyright = some (bits header 8 1);
  original = some (bits header 7 1);
}

-- `parse` of `EsParser3`, `EsParser4` and `EsParser15`.
unfoldable pub parse_audio : (ℕ → Es) → List ℕ → Option (Option Es)
parse_audio es_of bytes = elim (find_mpeg_audio_header bytes) [
  | none ↦ none
  | some found ↦ elim found [ none ↦ some none | some header ↦ some (some (es_of header)) ]
]

-- The test for the code of a sequence header at the front.
unfoldable pub starts_sequence : List ℕ → Outcome Bool
starts_sequence bytes = do
  b0 ← byte_at bytes 0
  if not (b0 == 0x00) then ret false else do
    b1 ← byte_at bytes 1
    if not (b1 == 0x00) then ret false else do
      b2 ← byte_at bytes 2
      if not (b2 == 0x01) then ret false else do b3 ← byte_at bytes 3; ret (b3 == 0xB3)

-- `find_data` of `EsParser2`: from the code of a sequence header on.
unfoldable pub sequence_from : ℕ → List ℕ → Outcome (Option (List ℕ))
unfolding starts_sequence
sequence_from zero bytes = ret none
sequence_from (suc n) bytes = do
  found ← starts_sequence bytes
  let rest = sequence_from n (drop 1 bytes)
  if found && leb 8 (length bytes) then ret (some bytes) else rest

unfoldable pub find_data : List ℕ → Outcome (Option (List ℕ))
find_data bytes = sequence_from (length bytes - 8) bytes

abbrev pub field : Option ℕ → (ℕ → ℕ) → Option ℕ
field none f = none
field (some word) f = some (f word)

-- What `parse` of `EsParser2` makes of a sequence header; a field is cut to its type.
unfoldable pub sequence_of : List ℕ → Option Es
sequence_of sequence =
    let bad : Bool = elim (read_u32_be sequence 0) [
      | none ↦ false
      | some code ↦ not (code == 0x1B3)
    ] in
    let size : Option ℕ = read_u32_be sequence 4 in
    if bad
    then none
    else some (
        es2 (record {
          stream_type = 2;
          horizontal_size = field size (λ tmp. tmp / 2 ^ 20 % 2 ^ 16);
          vertical_size = field size (λ tmp. bit_and (tmp / 2 ^ 8) 0xFFF);
          aspect_ratio = field size (λ tmp. bit_and (tmp / 2 ^ 4) 0xF);
          frame_rate = field size (λ tmp. bit_and tmp 0xF);
          bitrate = field (read_u32_be sequence 8) (λ tmp. tmp / 2 ^ 14);
        }))

unfoldable pub parse_video : List ℕ → Outcome (Option Es)
parse_video bytes = do
  data' ← find_data bytes
  elim data' [ none ↦ ret none | some sequence ↦ ret (sequence_of sequence) ]
