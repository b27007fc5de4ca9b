-- ===== src/Psi/Eit.antt =====
-- src/psi/eit.rs: event information, present and following.
use mymuxer.Base.{
  ℕ, zero, suc, ◌+◌, ◌-◌, ◌*◌, ◌%◌, ◌^◌, List, [], ◌∷◌, ◌++◌, ◌&&◌, length, take, drop, ltb, leb,
  ◌==◌, if◌then◌else◌, min, bit_and, bit_or, Outcome, ret, ◌>>=◌,
}
use mymuxer.Psi.Encode.{high, low, Section, section_with_crc, set_section_length, encode_duration}
use mymuxer.Psi.Text.{boundary_below, dvb_text}
use mymuxer.Psi.Time.{DateTime, encode_dvb_time}

abbrev pub max_text_chunk : ℕ
max_text_chunk = 246

-- The text cut at ends of characters, on fuel: every round takes a byte or more.
unfoldable pub text_chunks : ℕ → List ℕ → List (List ℕ)
unfolding boundary_below
text_chunks zero remaining = []
text_chunks (suc fuel) remaining =
    let safe_len = boundary_below remaining max_text_chunk in
    let more = text_chunks fuel (drop safe_len remaining) in
    if length remaining == 0
    then []
    else if leb (length remaining) max_text_chunk
    then remaining ∷ []
    else if safe_len == 0
    then []
    else take safe_len remaining ∷ more

-- One descriptor for each chunk, numbered.
unfoldable pub chunk_descriptors : List ℕ → (last i : ℕ) → List (List ℕ) → List (List ℕ)
chunk_descriptors lang last i [] = []
chunk_descriptors lang last i (chunk ∷ chunks) =
    let text_len = 1 + length chunk in
    (0x4E
      ∷ (6 + text_len) % 2 ^ 8
      ∷ bit_or (i % 2 ^ 8 * 2 ^ 4 % 2 ^ 8) (bit_and last 0x0F)
      ∷ (lang ++ (0x00 ∷ text_len % 2 ^ 8 ∷ 0x15 ∷ chunk)))
    ∷ chunk_descriptors lang last (i + 1) chunks

unfoldable pub build_extended_event_descriptors : List ℕ → List ℕ → List (List ℕ)
unfolding text_chunks chunk_descriptors
build_extended_event_descriptors lang text =
    let chunks = text_chunks (length text) text in
    let total_chunks = min (length chunks) 16 in
    if length text == 0
    then []
    else chunk_descriptors lang ((total_chunks + 2 ^ 64 - 1) % 2 ^ 8) 0 (take total_chunks chunks)

-- `to_ascii_lowercase` of a letter; any other byte leaves the default.
unfoldable pub lang_byte : ℕ → ℕ → ℕ
lang_byte default b =
    if leb 65 b && leb b 90 then b + 32 else if leb 97 b && leb b 122 then b else default

-- `code[i] = ...` for the bytes that there are; the default is `eng`.
unfoldable pub code_from : (default lang : List ℕ) → List ℕ
unfolding lang_byte
code_from [] lang = []
code_from (d ∷ ds) [] = d ∷ ds
code_from (d ∷ ds) (b ∷ bs) = lang_byte d b ∷ code_from ds bs

unfoldable pub parse_iso_639_2 : List ℕ → List ℕ
unfolding code_from
parse_iso_639_2 lang = code_from (101 ∷ 110 ∷ 103 ∷ []) lang

abbrev pub concat : List (List ℕ) → List ℕ
concat [] = []
concat (xs ∷ xss) = xs ++ concat xss

-- The descriptors of an event, before the loop is cut to its limit.
unfoldable pub event_descriptors : (title description language : List ℕ) → List ℕ
unfolding parse_iso_639_2 build_extended_event_descriptors dvb_text
event_descriptors title description language =
    let lang_code = parse_iso_639_2 language in
    let name_bytes = dvb_text title 80 in
    let short_text_bytes = if ltb 160 (length description) then [] else dvb_text description 160 in
    let short_payload =
      lang_code
      ++ (length name_bytes % 2 ^ 8
          ∷ (name_bytes ++ (length short_text_bytes % 2 ^ 8 ∷ short_text_bytes))) in
    let short =
      if leb (length short_payload) 255
      then 0x4D ∷ length short_payload % 2 ^ 8 ∷ short_payload
      else [] in
    let extended =
      if ltb 160 (length description)
      then concat (build_extended_event_descriptors lang_code description)
      else [] in
    short ++ extended

-- The header that both sections share.
unfoldable pub header :
    (service_id version transport_stream_id original_network_id section_number : ℕ) → List ℕ
unfolding high low
header service_id version transport_stream_id original_network_id section_number =
    0x4E
    ∷ 0xF0
    ∷ 0x00
    ∷ high service_id
    ∷ low service_id
    ∷ bit_or 0xC1 (bit_and version 0x1F * 2)
    ∷ section_number
    ∷ 0x01
    ∷ high transport_stream_id
    ∷ low transport_stream_id
    ∷ high original_network_id
    ∷ low original_network_id
    ∷ 0x01
    ∷ 0x4E
    ∷ []

-- `duration` is what `as_seconds_f32` gives as whole seconds. `truncate`, where the loop is longer than its length field can say; the field is of the length before.
unfoldable pub present_following_section :
    (List ℕ → ℕ)
    → (service_id version transport_stream_id original_network_id section_number event_id : ℕ)
    → (start : DateTime) (duration : ℕ) (title description language : List ℕ) → Outcome Section
unfolding event_descriptors header encode_dvb_time encode_duration high low
present_following_section crc32 service_id version transport_stream_id original_network_id
      section_number event_id start duration title description language =
    do
      let descriptors_loop = event_descriptors title description language
      let desc_loop_len = length descriptors_loop % 2 ^ 16
      let cut = if ltb 0x0FFF desc_loop_len then take 0x0FFF descriptors_loop else descriptors_loop
      section ← set_section_length (
          header service_id version transport_stream_id original_network_id section_number
          ++ (high event_id
              ∷ low event_id
              ∷ (encode_dvb_time start
                  ++ (encode_duration duration
                      ++ (bit_or (4 * 2 ^ 5) (high desc_loop_len) ∷ low desc_loop_len ∷ cut)))))
      ret (section_with_crc crc32 0x0012 section)

unfoldable pub empty_present_following_section :
    (List ℕ → ℕ)
    → (service_id version transport_stream_id original_network_id section_number : ℕ)
    → Outcome Section
unfolding header
empty_present_following_section crc32 service_id version transport_stream_id original_network_id
      section_number =
    do
      section ←
          set_section_length
            (header service_id version transport_stream_id original_network_id section_number)
      ret (section_with_crc crc32 0x0012 section)
