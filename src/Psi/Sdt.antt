-- ===== src/Psi/Sdt.antt =====
-- src/psi/sdt.rs: the service description table. A string is the list of its UTF-8 bytes, and the
-- decoders of other encodings are parameters.
use mymuxer.Base.{
  ℕ, zero, suc, ◌+◌, ◌-◌, ◌*◌, ◌/◌, ◌%◌, ◌^◌, bit_and, bit_or, List, [], ◌∷◌, ◌++◌, not, ◌&&◌, ◌||◌,
  ltb, leb, ◌==◌, if◌then◌else◌, length, get_or, Option, Outcome, ret, panic, ◌>>=◌, byte_at, store,
  slice,
}
use mymuxer.Psi.Encode.{be_bytes32}
use mymuxer.Psi.Pack.{pack}

pub record SdtInfo : Type 0 where
  pub service_id : ℕ
  pub service_type : ℕ
  pub provider_name : List ℕ
  pub service_name : List ℕ
  pub running_status : ℕ

module _ (iso_8859_5 utf_16be utf8_lossy : List ℕ → List ℕ) where
  unfoldable pub parse_dvb_string : List ℕ → List ℕ
  parse_dvb_string [] = []
  parse_dvb_string (b ∷ rest) =
      if b == 0x01
      then iso_8859_5 rest
      else if b == 0x15
      then utf8_lossy rest
      else if b == 0x11
      then (if length rest % 2 == 0 then utf_16be rest else utf8_lossy rest)
      else if leb 0x20 b
      then utf8_lossy (b ∷ rest)
      else if ltb 0 (length rest)
      then utf8_lossy rest
      else []

  -- The service descriptor of `len` bytes at `pos`.
  unfoldable pub parse_service : List ℕ → ℕ → ℕ → ℕ → ℕ → Outcome SdtInfo
  unfolding parse_dvb_string
  parse_service section pos len sid running_status = do
    service_type ← byte_at section pos
    prov_len ← byte_at section (pos + 1)
    let info : List ℕ → List ℕ → SdtInfo = λ provider service. record {
      service_id = sid;
      service_type = service_type;
      provider_name = provider;
      service_name = service;
      running_status = running_status;
    }
    if not (leb (pos + 2 + prov_len) (pos + len)) then ret (info [] []) else do
      prov ← slice section (pos + 2) (pos + 2 + prov_len)
      let provider = parse_dvb_string prov
      let serv_len_pos = pos + 2 + prov_len
      if not (leb (serv_len_pos + 1) (pos + len)) then ret (info provider []) else do
        serv_len ← byte_at section serv_len_pos
        if not (leb (serv_len_pos + 1 + serv_len) (pos + len)) then ret (info provider []) else do
          serv ← slice section (serv_len_pos + 1) (serv_len_pos + 1 + serv_len)
          ret (info provider (parse_dvb_string serv))

  -- The loop over the descriptors of a service: where it stops, and the services found. Each round
  -- moves 2 bytes or more.
  unfoldable pub descriptor_loop : ℕ → List ℕ → ℕ → ℕ → ℕ → ℕ → Outcome (ℕ × List SdtInfo)
  unfolding parse_service
  descriptor_loop zero section pos inner_limit sid running_status = panic
  descriptor_loop (suc fuel) section pos inner_limit sid running_status =
      if not (leb (pos + 2) inner_limit) then ret (pos, []) else do
        tag ← byte_at section pos
        len ← byte_at section (pos + 1)
        let is_service = tag == 0x48 && leb (pos + 2 + len) inner_limit
        found ←
            (if is_service
              then (parse_service section (pos + 2) len sid running_status >>= λ info.
                  ret (info ∷ []))
              else ret [])
        (end, rest) ← descriptor_loop fuel section (pos + 2 + len) inner_limit sid running_status
        ret (end, found ++ rest)

  -- The loop over the services; each round moves 5 bytes or more.
  unfoldable pub service_loop : ℕ → List ℕ → ℕ → ℕ → Outcome (List SdtInfo)
  unfolding descriptor_loop
  service_loop zero section pos section_limit = panic
  service_loop (suc fuel) section pos section_limit =
      if not (leb (pos + 5) section_limit) then ret [] else do
        b0 ← byte_at section pos
        b1 ← byte_at section (pos + 1)
        b2 ← byte_at section (pos + 2)
        b3 ← byte_at section (pos + 3)
        b4 ← byte_at section (pos + 4)
        let inner_limit = pos + 5 + bit_or (bit_and b3 0x0F * 2 ^ 8) b4
        (end, found) ←
            descriptor_loop (suc (length section)) section (pos + 5) inner_limit (b0 * 2 ^ 8 + b1)
              (bit_and (b2 / 2 ^ 5) 0x07)
        rest ← service_loop fuel section end section_limit
        ret (found ++ rest)

  unfoldable pub analyze_sdt : List ℕ → Outcome (List SdtInfo)
  unfolding service_loop
  analyze_sdt section =
      if ltb (length section) 11 || not (get_or section 0 0 == 0x42)
      then ret []
      else service_loop (suc (length section)) section 11 (length section - 4)

unfoldable pub encode_dvb_string : List ℕ → List ℕ
encode_dvb_string text = 0x15 ∷ text

-- The service descriptor, its lengths truncated to a byte.
unfoldable pub service_descriptor : ℕ → List ℕ → List ℕ → List ℕ
service_descriptor service_type prov_bytes serv_bytes =
    0x48
    ∷ ((3 + length prov_bytes + length serv_bytes) % 2 ^ 8)
    ∷ service_type
    ∷ (length prov_bytes % 2 ^ 8)
    ∷ (prov_bytes ++ ((length serv_bytes % 2 ^ 8) ∷ serv_bytes))

unfoldable pub patch_sdt_section :
    (List ℕ → ℕ) → List ℕ → ℕ → ℕ → List ℕ → List ℕ → Outcome (List ℕ)
unfolding be_bytes32 encode_dvb_string service_descriptor
patch_sdt_section crc32 original_section new_service_id service_type provider_name service_name = do
  header ← slice original_section 0 11
  let descriptor =
      service_descriptor service_type (encode_dvb_string provider_name)
        (encode_dvb_string service_name)
  let desc_len = length descriptor % 2 ^ 16
  let entry : List ℕ =
      (new_service_id / 2 ^ 8 % 256)
      ∷ (bit_and new_service_id 0xFF)
      ∷ 0x81
      ∷ (bit_or (desc_len / 2 ^ 8 % 256) 0xF0)
      ∷ (desc_len % 2 ^ 8)
      ∷ []
  let new_section = header ++ (entry ++ descriptor)
  let section_length = (length new_section - 3 + 4) % 2 ^ 16
  b1 ← byte_at new_section 1
  s1 ← store new_section 1 (bit_or (bit_and b1 0xF0) (bit_and (section_length / 2 ^ 8 % 256) 0x0F))
  s2 ← store s1 2 (bit_and section_length 0xFF)
  ret (s2 ++ be_bytes32 (crc32 s2))

unfoldable pub prepare_sdt : (List ℕ → ℕ) → ℕ → ℕ → ℕ → List ℕ → List ℕ → Outcome (Option (List ℕ))
unfolding patch_sdt_section
prepare_sdt crc32 transport_stream_id program_id service_type provider_name service_name = do
  let dummy_section : List ℕ =
      0x42
      ∷ 0xF0
      ∷ 0x00
      ∷ (transport_stream_id / 2 ^ 8 % 256)
      ∷ (bit_and transport_stream_id 0xFF)
      ∷ 0xC1
      ∷ 0x00
      ∷ 0x00
      ∷ 0x00
      ∷ 0x01
      ∷ 0xFF
      ∷ []
  section ← patch_sdt_section crc32 dummy_section program_id service_type provider_name service_name
  ret (pack section 0x0011 0)
