-- ===== src/Pes/Parser.antt =====
-- src/pes/parser.rs: PesReassembler, PesReassemblerMap and Parser. What `EsParser27` reads of a
-- sequence parameter set is a parameter.
pub mod Reassembly
use mymuxer.Base.{
  ℕ, ◌+◌, ◌*◌, ◌/◌, ◌%◌, ◌^◌, bit_and, bit_or, List, [], ◌∷◌, ◌++◌, Bool, true, false, not, ◌||◌,
  Option, none, some, ltb, leb, ◌==◌, if◌then◌else◌, length, get_or, drop, Outcome, ret, panic,
  ◌>>=◌, slice_from, byte_at,
}
use mymuxer.Packet.{ts_packet_size, ts_sync_byte, pkt_pid}
use mymuxer.Mux.Input.{lookup, put, of_option}
use mymuxer.Pes.Es.{EsUnknown, Es3, Es4, Es15, Es, Pes, unknown, es3, es4, es15}
use mymuxer.Pes.Audio.{word_at, bits, es3_of, es4_of, es15_of, parse_audio, parse_video}

pub record PesReassembler : Type 0 where
  pub pid : ℕ
  pub stream_type : ℕ
  pub buffer : List ℕ

unfoldable pub new : ℕ → ℕ → PesReassembler
new pid stream_type = record { pid = pid; stream_type = stream_type; buffer = [] }

-- Where the payload of a packet starts, if it has one.
unfoldable pub offset_of : List ℕ → Outcome (Option ℕ)
offset_of packet = do
  b3 ← byte_at packet 3
  let af_control = bit_and (b3 / 2 ^ 4) 0x03
  if af_control == 1
      then ret (some 4)
      else if af_control == 3
      then (do af_length ← byte_at packet 4; ret (some (5 + af_length)))
      else ret none

-- `start_code`
unfoldable pub start_code_of : List ℕ → Outcome ℕ
start_code_of bytes = do
  b0 ← byte_at bytes 0
  b1 ← byte_at bytes 1
  b2 ← byte_at bytes 2
  b3 ← byte_at bytes 3
  ret (b0 * 2 ^ 24 + b1 * 2 ^ 16 + b2 * 2 ^ 8 + b3)

-- The word of two bytes at an index.
unfoldable pub word16_at : List ℕ → ℕ → Outcome ℕ
word16_at bytes i = do hi ← byte_at bytes i; lo ← byte_at bytes (i + 1); ret (hi * 2 ^ 8 + lo)

-- The fields of the header of a PES packet, and what its payload tells.
unfoldable pub pes_of : (tmp_marker flags : ℕ) → Option Es → Pes
pes_of tmp_marker flags es = record {
  stream_id = bit_and tmp_marker 0xFF;
  scrabling = bits flags 12 2;
  priority = bits flags 11 1;
  alignment_indicator = bits flags 10 1;
  copyright = bits flags 9 1;
  original_or_copy = bits flags 8 1;
  flags_pts_dts = bits flags 6 2;
  flag_escr = bits flags 5 1;
  flag_es_rate = bits flags 4 1;
  flag_dsm_trick_mode = bits flags 3 1;
  flag_additional_copy_info = bits flags 2 1;
  flag_crc = bits flags 1 1;
  flag_extension = bits flags 0 1;
  es = es;
}

module _ (parse_h264 : List ℕ → Outcome (Option Es)) where
  -- The parser of a stream's type.
  unfoldable pub parse_es : ℕ → List ℕ → Outcome (Option Es)
  parse_es stream_type bytes =
      if stream_type == 2
      then parse_video bytes
      else if stream_type == 3
      then of_option (parse_audio (λ header. es3 (es3_of header)) bytes)
      else if stream_type == 4
      then of_option (parse_audio (λ header. es4 (es4_of header)) bytes)
      else if stream_type == 15
      then of_option (parse_audio (λ header. es15 (es15_of header)) bytes)
      else if stream_type == 27
      then parse_h264 bytes
      else ret (some (unknown (record { stream_type = 0 })))

  -- `Parser::parse` from the length of the header on.
  unfoldable pub parse_payload : List ℕ → ℕ → (tmp_marker flags : ℕ) → Outcome (Option Pes)
  unfolding parse_es pes_of
  parse_payload bytes stream_type tmp_marker flags = if leb (length bytes) 8 then ret none else do
    pes_header_len ← byte_at bytes 8
    if ltb (length bytes) (9 + pes_header_len) then ret none else do
      es_data ← slice_from bytes (9 + pes_header_len)
      es ← parse_es stream_type es_data
      ret (some (pes_of tmp_marker flags es))

  -- `Parser::parse` behind the start code.
  unfoldable pub parse_header : List ℕ → ℕ → Outcome (Option Pes)
  unfolding parse_payload word16_at
  parse_header bytes stream_type = if ltb (length bytes) 7 then ret none else do
    tmp_marker ← byte_at bytes 6
    if not (tmp_marker / 2 ^ 6 == 0x02)
        then ret none
        else if ltb (length bytes) 6
        then ret none
        else do
          pes_packet_len ← word16_at bytes 4
          if ltb (length bytes) 8
              then ret none
              else do flags ← word16_at bytes 6; parse_payload bytes stream_type tmp_marker flags

  -- `Parser::parse` with a stream type.
  unfoldable pub parse : List ℕ → ℕ → Outcome (Option Pes)
  unfolding parse_header start_code_of
  parse bytes stream_type = if ltb (length bytes) 4 then ret none else do
    start_code ← start_code_of bytes
    if not (start_code / 2 ^ 8 == 0x000001) then ret none else parse_header bytes stream_type

  -- The start of a payload in the buffer, if the old one gives nothing.
  unfoldable pub restart : PesReassembler → List ℕ → ℕ → Outcome (PesReassembler × Option Pes)
  restart r packet offset = do
    payload ← slice_from packet offset
    ret (record r { buffer = payload }, none)

  -- A packet that starts a payload.
  unfoldable pub push_start : PesReassembler → List ℕ → ℕ → Outcome (PesReassembler × Option Pes)
  unfolding restart parse
  push_start r packet offset = if length r.buffer == 0 then restart r packet offset else do
    result ← parse r.buffer r.stream_type
    elim result [
      | none ↦ restart r packet offset
      | some pes ↦ elim pes.es [ none ↦ restart r packet offset | some es ↦ ret (r, some pes) ]
    ]

  -- A packet that goes on with one.
  unfoldable pub push_more : PesReassembler → List ℕ → ℕ → Outcome (PesReassembler × Option Pes)
  push_more r packet offset = if length r.buffer == 0 then ret (r, none) else do
    payload ← slice_from packet offset
    ret (record r { buffer = r.buffer ++ payload }, none)

  -- A packet of the reassembler's PID; `b1` is its second byte.
  unfoldable pub push_matching : PesReassembler → List ℕ → ℕ → Outcome (PesReassembler × Option Pes)
  unfolding push_start push_more offset_of
  push_matching r packet b1 = do
    found ← offset_of packet
    elim found [
      | none ↦ ret (r, none)
      | some offset ↦
          if not (bit_and b1 0x40 == 0)
          then push_start r packet offset
          else push_more r packet offset
    ]

  unfoldable pub push : PesReassembler → List ℕ → Outcome (PesReassembler × Option Pes)
  unfolding push_matching
  push r packet = if ltb (length packet) 188 then ret (r, none) else do
    b0 ← byte_at packet 0
    if not (b0 == 0x47) then ret (r, none) else do
      b1 ← byte_at packet 1
      b2 ← byte_at packet 2
      if not (bit_or (bit_and b1 0x1F * 2 ^ 8) b2 == r.pid)
          then ret (r, none)
          else push_matching r packet b1

  -- `PesReassemblerMap::push`, on the map from PIDs to reassemblers.
  unfoldable pub push_map :
      List (ℕ × PesReassembler)
      → List ℕ
      → List (ℕ × ℕ)
      → Outcome (List (ℕ × PesReassembler) × Option Pes)
  unfolding push new
  push_map per_pid packet pid_to_stream =
      if ltb (length packet) ts_packet_size then ret (per_pid, none) else do
        b0 ← byte_at packet 0
        if not (b0 == ts_sync_byte) then ret (per_pid, none) else do
          pid ← pkt_pid packet
          elim (lookup pid_to_stream pid) [
            | none ↦ ret (per_pid, none)
            | some stream_type ↦ do
              let reasm : PesReassembler = elim (lookup per_pid pid) [
                | none ↦ new pid stream_type
                | some r ↦ r
              ]
              (reasm', pes) ← push reasm packet
              ret (put per_pid pid reasm', pes)
          ]
