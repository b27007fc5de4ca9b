-- ===== src/Psi/Pmt.antt =====
-- src/psi/pmt.rs: a program map section is read, and made anew for other PIDs.
pub mod Strip
use mymuxer.Base.{
  ℕ, zero, suc, ◌+◌, ◌-◌, ◌*◌, ◌/◌, ◌%◌, ◌^◌, bit_and, bit_or, List, [], ◌∷◌, ◌++◌, Bool, true,
  false, not, ◌&&◌, Option, none, some, ltb, leb, ◌==◌, if◌then◌else◌, length, take, drop, Outcome,
  ret, panic, ◌>>=◌, byte_at, store, slice,
}
use mymuxer.Psi.Encode.{be_bytes32}

-- What `pasre_descriptors` inserts under "lang" and "ca": the bytes of the language as they stand,
-- and whether there is a descriptor of conditional access.
pub record Descriptors : Type 0 where
  pub lang : Option (List ℕ)
  pub ca : Bool

pub record StreamInfo : Type 0 where
  pub stream_type : ℕ
  pub pid : ℕ
  pub descriptors : Descriptors

pub record PmtInfo : Type 0 where
  pub pcr_pid : ℕ
  pub streams : List StreamInfo

-- The insertion of one descriptor.
unfoldable pub insert_descriptor : Descriptors → ℕ → List ℕ → Descriptors
insert_descriptor d tag body =
    if tag == 0x0A && leb 3 (length body)
    then record { lang = some (take 3 body); ca = d.ca }
    else if tag == 0x09
    then record { lang = d.lang; ca = true }
    else d

-- The loop of `pasre_descriptors` on what `data` holds from `i` on. Each round takes 2 bytes or
-- more, so that as many rounds as there are bytes are enough.
unfoldable pub parse_loop : ℕ → Descriptors → List ℕ → Descriptors
unfolding insert_descriptor
parse_loop zero d bytes = d
parse_loop (suc fuel) d [] = d
parse_loop (suc fuel) d (tag ∷ []) = d
parse_loop (suc fuel) d (tag ∷ len ∷ rest) =
    let next = parse_loop fuel (insert_descriptor d tag (take len rest)) (drop len rest) in
    if ltb (length rest) len then d else next

unfoldable pub pasre_descriptors : List ℕ → Descriptors
unfolding parse_loop
pasre_descriptors bytes = parse_loop (length bytes) (record { lang = none; ca = false }) bytes

-- The 13 bits of a PID and the 12 bits of a length.
unfoldable pub pid_field : ℕ → ℕ → ℕ
pid_field hi lo = bit_or (bit_and hi 0x1F * 2 ^ 8) lo

unfoldable pub len_field : ℕ → ℕ → ℕ
len_field hi lo = bit_or (bit_and hi 0x0F * 2 ^ 8) lo

-- The loop of `analyze_pmt`; each round moves 5 bytes or more.
unfoldable pub analyze_streams : ℕ → List ℕ → ℕ → ℕ → Outcome (List StreamInfo)
unfolding pid_field len_field pasre_descriptors
analyze_streams zero section pos section_end = panic
analyze_streams (suc fuel) section pos section_end =
    if not (leb (pos + 5) section_end) then ret [] else do
      stype ← byte_at section pos
      b1 ← byte_at section (pos + 1)
      b2 ← byte_at section (pos + 2)
      b3 ← byte_at section (pos + 3)
      b4 ← byte_at section (pos + 4)
      let es_info_len = len_field b3 b4
      bytes ← slice section (pos + 5) (pos + 5 + es_info_len)
      streams ← analyze_streams fuel section (pos + 5 + es_info_len) section_end
      ret (
          record {
            stream_type = stype;
            pid = pid_field b1 b2;
            descriptors = pasre_descriptors bytes;
          }
          ∷ streams)

unfoldable pub analyze_pmt : List ℕ → Outcome PmtInfo
unfolding pid_field len_field analyze_streams
analyze_pmt section = do
  b8 ← byte_at section 8
  b9 ← byte_at section 9
  b10 ← byte_at section 10
  b11 ← byte_at section 11
  streams ←
      analyze_streams (suc (length section)) section (12 + len_field b10 b11) (length section - 4)
  ret (record { pcr_pid = pid_field b8 b9; streams = streams })

-- The loop of `patch_descriptors` on what is left of the descriptors.
unfoldable pub strip_loop : ℕ → List ℕ → List ℕ
strip_loop zero bytes = []
strip_loop (suc fuel) [] = []
strip_loop (suc fuel) (tag ∷ []) = []
strip_loop (suc fuel) (tag ∷ len ∷ rest) =
    let next = strip_loop fuel (drop len rest) in
    if ltb (length rest) len
    then []
    else if tag == 0x09
    then next
    else (tag ∷ len ∷ (take len rest ++ next))

unfoldable pub patch_descriptors : List ℕ → Bool → List ℕ
unfolding strip_loop
patch_descriptors descriptors strip_ca_descriptors =
    if strip_ca_descriptors then strip_loop (length descriptors) descriptors else descriptors

-- `find(|(old, _)| *old == old_es_pid)`
unfoldable pub find_mapping : List (ℕ × ℕ) → ℕ → Option ℕ
find_mapping [] pid = none
find_mapping ((old, to) ∷ ms) pid = if old == pid then some to else find_mapping ms pid

-- A PID or a length in two bytes, with the reserved bits set.
unfoldable pub pid_bytes : ℕ → List ℕ
pid_bytes pid = (bit_or (bit_and (pid / 2 ^ 8 % 256) 0x1F) 0xE0) ∷ (bit_and pid 0xFF) ∷ []

unfoldable pub len_bytes : ℕ → List ℕ
len_bytes n = (bit_or (bit_and (n / 2 ^ 8 % 256) 0x0F) 0xF0) ∷ (bit_and n 0xFF) ∷ []

-- The stream's entry in the new section, where its PID is allowed.
unfoldable pub patched_stream : List ℕ → ℕ → ℕ → ℕ → Option ℕ → Bool → Outcome (List ℕ)
unfolding patch_descriptors pid_bytes len_bytes
patched_stream section pos stream_type es_info_len none strip = ret []
patched_stream section pos stream_type es_info_len (some new_es_pid) strip = do
  bytes ← slice section (pos + 5) (pos + 5 + es_info_len)
  let es_descriptors = patch_descriptors bytes strip
  ret (
      stream_type ∷ (pid_bytes new_es_pid ++ (len_bytes (length es_descriptors) ++ es_descriptors)))

-- The loop over the streams of `patch_pmt_section`.
unfoldable pub patch_streams : ℕ → List ℕ → ℕ → ℕ → List (ℕ × ℕ) → Bool → Outcome (List ℕ)
unfolding pid_field len_field find_mapping patched_stream
patch_streams zero section pos section_end es_mappings strip = panic
patch_streams (suc fuel) section pos section_end es_mappings strip =
    if not (leb (pos + 5) section_end) then ret [] else do
      stream_type ← byte_at section pos
      b1 ← byte_at section (pos + 1)
      b2 ← byte_at section (pos + 2)
      b3 ← byte_at section (pos + 3)
      b4 ← byte_at section (pos + 4)
      let es_info_len = len_field b3 b4
      entry ←
          patched_stream section pos stream_type es_info_len
            (find_mapping es_mappings (pid_field b1 b2)) strip
      rest ← patch_streams fuel section (pos + 5 + es_info_len) section_end es_mappings strip
      ret (entry ++ rest)

-- `original_section.len() - 4` wraps.
unfoldable pub patch_pmt_section :
    (List ℕ → ℕ) → List ℕ → ℕ → List (ℕ × ℕ) → Bool → Outcome (List ℕ)
unfolding be_bytes32 len_field pid_bytes len_bytes patch_descriptors patch_streams
patch_pmt_section crc32 original_section new_pcr_pid es_mappings strip_ca_descriptors = do
  header ← slice original_section 0 8
  b10 ← byte_at original_section 10
  b11 ← byte_at original_section 11
  let prog_info_len = len_field b10 b11
  info ← slice original_section 12 (12 + prog_info_len)
  let program_descriptors = patch_descriptors info strip_ca_descriptors
  streams ←
      patch_streams (suc (length original_section)) original_section (12 + prog_info_len)
        ((length original_section + 2 ^ 64 - 4) % 2 ^ 64) es_mappings strip_ca_descriptors
  let new_section =
      header
      ++ (pid_bytes new_pcr_pid
          ++ (len_bytes (length program_descriptors) ++ (program_descriptors ++ streams)))
  let section_length = (length new_section - 3 + 4) % 2 ^ 16
  b1 ← byte_at new_section 1
  s1 ← store new_section 1 (bit_or (bit_and b1 0xF0) (bit_and (section_length / 2 ^ 8 % 256) 0x0F))
  s2 ← store s1 2 (bit_and section_length 0xFF)
  ret (s2 ++ be_bytes32 (crc32 s2))
