-- ===== src/Packet.antt =====
-- src/packet.rs: fields of the 188-byte transport stream packet.
-- A packet is a list of bytes. An index out of range is `panic`; shifts to the left that can leave
-- the word are cut to its width.
pub mod Shape
pub mod Bits
pub mod Fields
pub mod Clock
pub mod Timestamps
pub mod Total
use mymuxer.Base.{
  ℕ, ◌≡◌, ◌+◌, ◌*◌, ◌/◌, ◌%◌, ◌^◌, ◌<◌, bit_and, bit_or, List, ◌∷◌, Bool, true, false, not, ◌&&◌,
  ◌||◌, Option, none, some, ltb, leb, ◌==◌, if◌then◌else◌, length, All, replicate, Outcome, ret,
  ◌>>=◌, byte_at, store,
}

abbrev pub IsByte : ℕ → Type 0
IsByte b = b < 256

abbrev pub ts_packet_size : ℕ
ts_packet_size = 188

abbrev pub ts_sync_byte : ℕ
ts_sync_byte = 0x47

abbrev pub ts_null_packet : List ℕ
ts_null_packet = 0x47 ∷ 0x1F ∷ 0xFF ∷ 0x10 ∷ replicate 184 0xFF

-- A packet of the right size that holds bytes: `[u8; TS_PACKET_SIZE]`.
pub record IsPacket (p : List ℕ) : Type 0 where
  pub size : length p ≡ ts_packet_size
  pub bytes : All IsByte p

unfoldable pub pkt_pid : List ℕ → Outcome ℕ
pkt_pid pkt = do b1 ← byte_at pkt 1; b2 ← byte_at pkt 2; ret (bit_or (bit_and b1 0x1F * 2 ^ 8) b2)

-- `(packet[3] >> 4) & 0x03`, which several functions read.
abbrev pub af_control : ℕ → ℕ
af_control b3 = bit_and (b3 / 2 ^ 4) 0x03

-- Bytes 0 to 4 of a PES time stamp, the marker bits dropped.
unfoldable pub read_stamp : List ℕ → ℕ → Outcome ℕ
read_stamp packet off = do
  b0 ← byte_at packet off
  b1 ← byte_at packet (off + 1)
  b2 ← byte_at packet (off + 2)
  b3 ← byte_at packet (off + 3)
  b4 ← byte_at packet (off + 4)
  ret (
      bit_or
        (bit_or
          (bit_or (bit_or (bit_and b0 0x0E * 2 ^ 29) (b1 * 2 ^ 22)) (bit_and b2 0xFE * 2 ^ 14))
          (b3 * 2 ^ 7))
        (bit_and b4 0xFE / 2))

-- `stream_id` of audio, video or private stream 1.
unfoldable pub is_media_stream : ℕ → Bool
is_media_stream id = leb 0xC0 id && leb id 0xEF || id == 0xBD

-- The payload's offset, by the adaptation field control; `none` where there is no PES.
unfoldable pub stamp_offset : List ℕ → ℕ → Outcome (Option ℕ)
stamp_offset packet control =
    if control == 1
    then ret (some 4)
    else if not (control == 3)
    then ret none
    else do af_length ← byte_at packet 4; ret (some (4 + (1 + af_length)))

-- The decoding time stamp, where the flags announce one and the packet holds it.
unfoldable pub read_dts : List ℕ → ℕ → ℕ → ℕ → Outcome ℕ
read_dts packet offset pts_dts_flags pts =
    if pts_dts_flags == 3
    then if leb ts_packet_size (offset + 14 + 4) then ret pts else read_stamp packet (offset + 14)
    else ret pts

-- The header of the PES packet at `offset`.
unfoldable pub pes_pts_dts : List ℕ → ℕ → Outcome (Option (ℕ × ℕ))
pes_pts_dts packet offset = if ltb ts_packet_size (offset + 14) then ret none else do
  p0 ← byte_at packet offset
  p1 ← byte_at packet (offset + 1)
  p2 ← byte_at packet (offset + 2)
  if not (p0 == 0 && (p1 == 0 && p2 == 1)) then ret none else do
    stream_id ← byte_at packet (offset + 3)
    if not (is_media_stream stream_id) then ret none else do
      b7 ← byte_at packet (offset + 7)
      let pts_dts_flags = bit_and b7 0xC0 / 2 ^ 6
      if ltb pts_dts_flags 2 || leb 188 (offset + 9 + 4) then ret none else do
        pts ← read_stamp packet (offset + 9)
        dts ← read_dts packet offset pts_dts_flags pts
        ret (some (pts, dts))

unfoldable pub pkt_pts_dts : List ℕ → ℕ → Outcome (Option (ℕ × ℕ))
pkt_pts_dts packet check_pid = if ltb (length packet) ts_packet_size then ret none else do
  b0 ← byte_at packet 0
  if not (b0 == ts_sync_byte) then ret none else do
    pid ← pkt_pid packet
    if not (pid == check_pid) then ret none else do
      b1 ← byte_at packet 1
      if bit_and b1 0x40 == 0 then ret none else do
        b3 ← byte_at packet 3
        offset ← stamp_offset packet (af_control b3)
        elim offset [ none ↦ ret none | some off ↦ pes_pts_dts packet off ]

-- The 33 bits of the base and the 9 bits of the extension.
unfoldable pub pcr_of_bytes : ℕ → ℕ → ℕ → ℕ → ℕ → ℕ → ℕ
pcr_of_bytes b6 b7 b8 b9 b10 b11 =
    let base =
      bit_or (bit_or (bit_or (bit_or (b6 * 2 ^ 25) (b7 * 2 ^ 17)) (b8 * 2 ^ 9)) (b9 * 2))
        (b10 / 2 ^ 7) in
    let ext = bit_or (bit_and b10 0x01 * 2 ^ 8) b11 in base * 300 + ext

unfoldable pub pkt_extract_pcr : List ℕ → Outcome (Option ℕ)
pkt_extract_pcr packet = do
  b3 ← byte_at packet 3
  if ltb (af_control b3) 2 then ret none else do
    af_len ← byte_at packet 4
    if ltb af_len 7 then ret none else do
      b5 ← byte_at packet 5
      if bit_and b5 0x10 == 0 then ret none else do
        b6 ← byte_at packet 6
        b7 ← byte_at packet 7
        b8 ← byte_at packet 8
        b9 ← byte_at packet 9
        b10 ← byte_at packet 10
        b11 ← byte_at packet 11
        ret (some (pcr_of_bytes b6 b7 b8 b9 b10 b11))

-- `as u8` keeps the low byte.
unfoldable pub pkt_write_pcr : List ℕ → ℕ → Outcome (List ℕ)
pkt_write_pcr packet pcr = do
  let base = pcr / 300
  let ext = pcr % 300
  p6 ← store packet 6 (base / 2 ^ 25 % 256)
  p7 ← store p6 7 (base / 2 ^ 17 % 256)
  p8 ← store p7 8 (base / 2 ^ 9 % 256)
  p9 ← store p8 9 (base / 2 % 256)
  let low_bit = bit_and (base * 2 ^ 7 % 256) 0x80
  p10 ← store p9 10 (bit_or (bit_or low_bit 0x7E) (bit_and (ext / 2 ^ 8 % 256) 0x01))
  store p10 11 (bit_and ext 0xFF % 256)

unfoldable pub pkt_is_pcr_present : List ℕ → Outcome Bool
pkt_is_pcr_present packet = do
  b3 ← byte_at packet 3
  if ltb (af_control b3) 2 then ret false else do
    af_len ← byte_at packet 4
    b5 ← byte_at packet 5
    ret (not (bit_and b5 0x10 == 0) && leb 7 af_len)

unfoldable pub pkt_has_payload : List ℕ → Outcome Bool
pkt_has_payload packet = do b3 ← byte_at packet 3; ret (af_control b3 == 1 || af_control b3 == 3)

unfoldable pub pkt_get_discontinuity : List ℕ → Outcome Bool
pkt_get_discontinuity packet = if ltb (length packet) 6 then ret false else do
  b3 ← byte_at packet 3
  if ltb (af_control b3) 2 then ret false else do
    af_len ← byte_at packet 4
    if ltb af_len 1 then ret false else do b5 ← byte_at packet 5; ret (not (bit_and b5 0x80 == 0))

-- The packet afterwards, and whether the flag could be set.
unfoldable pub pkt_set_discontinuity : List ℕ → Outcome (List ℕ × Bool)
pkt_set_discontinuity packet = if ltb (length packet) 6 then ret (packet, false) else do
  b3 ← byte_at packet 3
  if ltb (af_control b3) 2 then ret (packet, false) else do
    af_len ← byte_at packet 4
    if ltb af_len 1 then ret (packet, false) else do
      b5 ← byte_at packet 5
      packet' ← store packet 5 (bit_or b5 0x80)
      ret (packet', true)

unfoldable pub pkt_next : List ℕ → Outcome (List ℕ)
pkt_next packet = do
  current_byte ← byte_at packet 3
  let current_counter = bit_and current_byte 0x0F
  let next_counter = bit_and (current_counter + 1) 0x0F
  store packet 3 (bit_or (bit_and current_byte 0xF0) next_counter)

unfoldable pub pkt_scrambling_control : List ℕ → Outcome ℕ
pkt_scrambling_control packet = do b3 ← byte_at packet 3; ret (bit_and (b3 / 2 ^ 6) 0x03)
