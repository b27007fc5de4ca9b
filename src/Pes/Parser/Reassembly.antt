-- ===== src/Pes/Parser/Reassembly.antt =====
-- Which packets PesReassembler survives, and where it stays.
use mymuxer.Base.{
  zero, suc, ◌-◌, Bool, ◌&&◌, ◌⊎◌, byte_at, length-drop, Returns-byte_at, Returns-eq, ltb_false→le,
  ℕ, ◌+◌, ◌*◌, ◌/◌, ◌^◌, ◌≤◌, ◌≡◌, refl, ◌∙◌, ap, arith, bit_and, bit_or, List, false, not, Option,
  none, some, ltb, leb, ◌==◌, length, get_or, drop, drop-All, All, All-append, Outcome, ret,
  slice_from, Returns, returns, Returns-if, Returns-bind, Returns-option, Returns-slice_from, Keeps,
  kept, Keeps-if, Keeps-any, Keeps-option, Keeps-elim, Option-cases, inl, inr,
}
use mymuxer.Packet.{IsByte, IsPacket}
use mymuxer.Pes.Es.{Es, Pes, es3, es4, es15}
use mymuxer.Mux.Input.{of_option}
use mymuxer.Pes.Audio.{
  starts_sequence, sequence_from, find_data, parse_video, es3_of, es4_of, es15_of, parse_audio,
}
use mymuxer.Pes.Audio.First.{find_mpeg_audio_header-FirstFrom}
use mymuxer.Pes.Parser.{
  parse_es, parse_payload, parse_header, start_code_of, word16_at, push_matching, PesReassembler,
  offset_of, parse, restart, push_start, push_more, push,
}

-- The payload of a packet starts inside it: an adaptation field before one has at most 183 bytes.
abbrev pub PayloadInside : List ℕ → Type 0
PayloadInside packet = (offset : ℕ) → offset_of packet ≡ ret (some offset) → offset ≤ 188

-- A result that is a PES leaves the reassembler as it was.
abbrev Same : PesReassembler → PesReassembler × Option Pes → Type 0
Same r (r', o) = (pes : Pes) → o ≡ some pes → r' ≡ r

-- Bytes wait in the buffer, for the same PID and type as before.
pub record Keeping (r r' : PesReassembler) : Type 0 where
  pub bytes : All IsByte r'.buffer
  pub same_pid : r'.pid ≡ r.pid
  pub same_type : r'.stream_type ≡ r.stream_type

abbrev pub Kept : PesReassembler → PesReassembler × Option Pes → Type 0
Kept r (r', o) = Keeping r r'

audio-Returns :
    (es_of : ℕ → Es) (bytes : List ℕ)
    → All IsByte bytes
    → Returns (λ (o : Option Es). o ≡ o) (of_option (parse_audio es_of bytes))
unfolding parse_audio
audio-Returns es_of bytes b =
    let (o, e, first) = find_mpeg_audio_header-FirstFrom bytes b in rw (e, of_option) (here o)
  where
    here :
        (o : Option ℕ)
        → Returns
            (λ (o : Option Es). o ≡ o)
            (of_option {A = Option Es}
              (elim o [ none ↦ some none | some header ↦ some (some (es_of header)) ]))
    here none = returns refl
    here (some header) = returns refl

starts_sequence-Returns :
    (bytes : List ℕ)
    → 4 ≤ length bytes
    → Returns (λ (found : Bool). found ≡ found) (starts_sequence bytes)
unfolding starts_sequence
starts_sequence-Returns bytes h = Returns-byte_at bytes 0 _ (omega arith) (
    Returns-if (not (get_or bytes 0 0 == 0x00)) (λ _. returns refl)
      λ _. Returns-byte_at bytes 1 _ (omega arith) (
        Returns-if (not (get_or bytes 1 0 == 0x00)) (λ _. returns refl)
          λ _. Returns-byte_at bytes 2 _ (omega arith) (
            Returns-if (not (get_or bytes 2 0 == 0x01)) (λ _. returns refl)
              λ _. Returns-byte_at bytes 3 _ (omega arith) (returns refl))))

-- Every round has more than eight bytes.
sequence_from-Returns :
    (n : ℕ) (bytes : List ℕ)
    → (n ≡ 0) ⊎ (n + 8 ≤ length bytes)
    → Returns (λ (o : Option (List ℕ)). o ≡ o) (sequence_from n bytes)
unfolding sequence_from
sequence_from-Returns zero bytes h = returns refl
sequence_from-Returns (suc n) bytes h =
    let long : suc n + 8 ≤ length bytes = ground arith in
    Returns-bind (starts_sequence-Returns bytes (omega arith)) λ found _.
      Returns-if (found && leb 8 (length bytes)) (λ _. returns refl)
        λ _. sequence_from-Returns n (drop 1 bytes) (inr (omega (arith, length-drop 1 bytes)))

parse_video-Returns : (bytes : List ℕ) → Returns (λ (o : Option Es). o ≡ o) (parse_video bytes)
unfolding parse_video find_data
parse_video-Returns bytes =
    Returns-bind (sequence_from-Returns (length bytes - 8) bytes (ground arith))
      λ found _. Returns-option found _ _ (returns refl) λ sequence. returns refl

start_code_of-Returns :
    (bytes : List ℕ) → 4 ≤ length bytes → Returns (λ (n : ℕ). n ≡ n) (start_code_of bytes)
unfolding start_code_of
start_code_of-Returns bytes h = Returns-byte_at bytes 0 _ (omega arith) (
    Returns-byte_at bytes 1 _ (omega arith) (
      Returns-byte_at bytes 2 _ (omega arith)
        (Returns-byte_at bytes 3 _ (omega arith) (returns refl))))

word16_at-Returns :
    (bytes : List ℕ) (i : ℕ) → i + 2 ≤ length bytes → Returns (λ (n : ℕ). n ≡ n) (word16_at bytes i)
unfolding word16_at
word16_at-Returns bytes i h =
    Returns-byte_at bytes i _ (omega arith)
      (Returns-byte_at bytes (i + 1) _ (omega arith) (returns refl))

offset_of-Returns :
    (packet : List ℕ) → IsPacket packet → Returns (λ (o : Option ℕ). o ≡ o) (offset_of packet)
unfolding offset_of
offset_of-Returns packet v = Returns-byte_at packet 3 _ (omega (arith, v.size)) (
    let af_control = bit_and (get_or packet 3 0 / 2 ^ 4) 0x03 in
    Returns-if (af_control == 1) (λ _. returns refl)
      λ _.
        Returns-if (af_control == 3)
          (λ _. Returns-byte_at packet 4 _ (omega (arith, v.size)) (returns refl))
          λ _. returns refl)

-- A packet of 188 bytes has a payload from some byte on, or none.
offset_of-cases :
    (packet : List ℕ)
    → IsPacket packet
    → (offset_of packet ≡ ret none) ⊎ ((offset : ℕ) × (offset_of packet ≡ ret (some offset)))
offset_of-cases packet v =
    let (o, e, h) = Returns-eq (offset_of-Returns packet v) in
    elim (Option-cases o) [
      | inl nowhere ↦ inl (rw nowhere at e)
      | inr (offset, at') ↦ inr (offset, rw at' at e)
    ]

module _ (parse_h264 : List ℕ → Outcome (Option Es)) where
  restart-Same :
      (r s : PesReassembler) (packet : List ℕ) (offset : ℕ)
      → Keeps (Same s) (restart parse_h264 r packet offset)
  unfolding restart
  restart-Same r s packet offset =
      Keeps-any (slice_from packet offset) _ λ payload. kept λ pes e. cc

  push_matching-Same :
      (r : PesReassembler) (packet : List ℕ) (b1 : ℕ)
      → Keeps (Same r) (push_matching parse_h264 r packet b1)
  unfolding push_matching push_start push_more
  push_matching-Same r packet b1 = Keeps-any (offset_of packet) _ λ found.
      Keeps-option found _ _ (kept λ pes e. cc) λ offset.
        Keeps-if (not (bit_and b1 0x40 == 0))
          (λ _.
            Keeps-if (length r.buffer == 0) (λ _. restart-Same r r packet offset)
              λ _. Keeps-any (parse parse_h264 r.buffer r.stream_type) _ λ result.
                Keeps-option result _ _ (restart-Same r r packet offset) λ pes.
                  Keeps-option pes.es _ _ (restart-Same r r packet offset) λ es. kept λ q e. refl)
          (λ _.
            Keeps-if (length r.buffer == 0) (λ _. kept λ pes e. cc)
              λ _. Keeps-any (slice_from packet offset) _ λ payload. kept λ pes e. cc)

  pub push-Same : (r : PesReassembler) (packet : List ℕ) → Keeps (Same r) (push parse_h264 r packet)
  unfolding push
  push-Same r packet =
      Keeps-if (ltb (length packet) 188) (λ _. kept λ pes e. cc)
        λ _. Keeps-any (byte_at packet 0) _ λ b0.
          Keeps-if (not (b0 == 0x47)) (λ _. kept λ pes e. cc)
            λ _. Keeps-any (byte_at packet 1) _ λ b1. Keeps-any (byte_at packet 2) _ λ b2.
              Keeps-if (not (bit_or (bit_and b1 0x1F * 2 ^ 8) b2 == r.pid)) (λ _. kept λ pes e. cc)
                λ _. push_matching-Same r packet b1

  -- A PES handed out leaves the reassembler as it was: the buffer is not cleared, and the packet with
  -- the start of the next PES is not kept; the same packet brings the same PES again.
  pub push-again :
      (r r' : PesReassembler) (packet : List ℕ) (pes : Pes)
      → push parse_h264 r packet ≡ ret (r', some pes)
      → (r' ≡ r) × (push parse_h264 r' packet ≡ ret (r', some pes))
  push-again r r' packet pes e =
      let same : r' ≡ r = Keeps-elim (push-Same r packet) (r', some pes) e pes refl in
      (same, ap (λ (s : PesReassembler). push parse_h264 s packet) same ∙ e)

  -- What a stream that is no H.264 tells.
  parse_es-Returns :
      (stream_type : ℕ) (bytes : List ℕ)
      → (stream_type == 27) ≡ false
      → All IsByte bytes
      → Returns (λ (o : Option Es). o ≡ o) (parse_es parse_h264 stream_type bytes)
  unfolding parse_es
  parse_es-Returns stream_type bytes other b = rw other (
      Returns-if (stream_type == 2) (λ _. parse_video-Returns bytes)
        λ _.
          Returns-if (stream_type == 3) (λ _. audio (λ header. es3 (es3_of header)))
            λ _.
              Returns-if (stream_type == 4) (λ _. audio (λ header. es4 (es4_of header)))
                λ _.
                  Returns-if (stream_type == 15) (λ _. audio (λ header. es15 (es15_of header)))
                    λ _. returns refl)
    where
      audio :
          (es_of : ℕ → Es)
          → Returns (λ (o : Option Es). o ≡ o) (of_option (parse_audio es_of bytes))
      audio es_of = audio-Returns es_of bytes b

  parse_payload-Returns :
      (stream_type : ℕ) (bytes : List ℕ) (tmp_marker flags : ℕ)
      → (stream_type == 27) ≡ false
      → All IsByte bytes
      → Returns
          (λ (o : Option Pes). o ≡ o)
          (parse_payload parse_h264 bytes stream_type tmp_marker flags)
  unfolding parse_payload
  parse_payload-Returns stream_type bytes tmp_marker flags other b =
      Returns-if (leb (length bytes) 8) (λ _. returns refl)
        λ long. Returns-byte_at bytes 8 _ (ground arith) (
          let n = get_or bytes 8 0 in
          Returns-if (ltb (length bytes) (9 + n)) (λ _. returns refl)
            λ inside. Returns-slice_from bytes (9 + n) _ (ltb_false→le _ _ inside) (
              Returns-bind
                (parse_es-Returns stream_type (drop (9 + n) bytes) other
                  (drop-All IsByte (9 + n) bytes b))
                λ es _. returns refl))

  parse_header-Returns :
      (stream_type : ℕ) (bytes : List ℕ)
      → (stream_type == 27) ≡ false
      → All IsByte bytes
      → Returns (λ (o : Option Pes). o ≡ o) (parse_header parse_h264 bytes stream_type)
  unfolding parse_header
  parse_header-Returns stream_type bytes other b =
      Returns-if (ltb (length bytes) 7) (λ _. returns refl)
        λ seven. Returns-byte_at bytes 6 _ (ground arith) (
          Returns-if (not (get_or bytes 6 0 / 2 ^ 6 == 0x02)) (λ _. returns refl)
            λ _.
              Returns-if (ltb (length bytes) 6) (λ _. returns refl)
                λ six. Returns-bind (word16_at-Returns bytes 4 (ground arith)) λ pes_packet_len _.
                  Returns-if (ltb (length bytes) 8) (λ _. returns refl)
                    λ eight.
                      Returns-bind (word16_at-Returns bytes 6 (ground arith))
                        λ flags _. parse_payload-Returns stream_type bytes _ flags other b)

  parse-Returns :
      (stream_type : ℕ) (bytes : List ℕ)
      → (stream_type == 27) ≡ false
      → All IsByte bytes
      → Returns (λ (o : Option Pes). o ≡ o) (parse parse_h264 bytes stream_type)
  unfolding parse
  parse-Returns stream_type bytes other b =
      Returns-if (ltb (length bytes) 4) (λ _. returns refl)
        λ four. Returns-bind (start_code_of-Returns bytes (ltb_false→le _ _ four)) λ start_code _.
          Returns-if (not (start_code / 2 ^ 8 == 0x000001)) (λ _. returns refl)
            λ _. parse_header-Returns stream_type bytes other b

  restart-Kept :
      (r : PesReassembler) (packet : List ℕ) (offset : ℕ)
      → IsPacket packet
      → offset ≤ 188
      → Returns (Kept r) (restart parse_h264 r packet offset)
  unfolding restart
  restart-Kept r packet offset v h = Returns-slice_from packet offset _ (omega (arith, v.size)) (
      returns (record {
        bytes = drop-All IsByte offset packet v.bytes;
        same_pid = refl;
        same_type = refl;
      }))

  push_matching-Kept :
      (r : PesReassembler) (packet : List ℕ) (b1 : ℕ)
      → (r.stream_type == 27) ≡ false
      → All IsByte r.buffer
      → IsPacket packet
      → PayloadInside packet
      → Returns (Kept r) (push_matching parse_h264 r packet b1)
  unfolding push_matching push_start push_more
  push_matching-Kept r packet b1 other b v inside =
      let idle : Keeping r r = record { bytes = b; same_pid = refl; same_type = refl } in
      elim (offset_of-cases packet v) [
        | inl e ↦ rw (e, push_matching) (returns idle)
        | inr (offset, e) ↦
            let h = inside offset e in
            rw (e, push_matching)
              (Returns-if (not (bit_and b1 0x40 == 0))
                (λ _.
                  Returns-if (length r.buffer == 0) (λ _. restart-Kept r packet offset v h)
                    λ _. Returns-bind (parse-Returns r.stream_type r.buffer other b) λ result _.
                      Returns-option result _ _ (restart-Kept r packet offset v h) λ pes.
                        Returns-option pes.es _ _ (restart-Kept r packet offset v h)
                          λ es. returns idle)
                (λ _.
                  Returns-if (length r.buffer == 0) (λ _. returns idle)
                    λ _. Returns-slice_from packet offset _ (omega (arith, v.size)) (
                      returns (record {
                        bytes =
                            All-append IsByte r.buffer (drop offset packet) b
                              (drop-All IsByte offset packet v.bytes);
                        same_pid = refl;
                        same_type = refl;
                      }))))
      ]

  -- A reassembler of bytes for a type other than H.264 takes any packet of 188 bytes whose payload, if
  -- it has one, starts inside it, without a panic, whatever its buffer holds, and stays one of bytes,
  -- PID and type.
  pub push-Returns :
      (r : PesReassembler) (packet : List ℕ)
      → (r.stream_type == 27) ≡ false
      → All IsByte r.buffer
      → IsPacket packet
      → PayloadInside packet
      → Returns (Kept r) (push parse_h264 r packet)
  unfolding push
  push-Returns r packet other b v inside =
      let idle : Keeping r r = record { bytes = b; same_pid = refl; same_type = refl } in
      Returns-if (ltb (length packet) 188) (λ _. returns idle)
        λ _. Returns-byte_at packet 0 _ (omega (arith, v.size)) (
          Returns-if (not (get_or packet 0 0 == 0x47)) (λ _. returns idle)
            λ _. Returns-byte_at packet 1 _ (omega (arith, v.size)) (
              Returns-byte_at packet 2 _ (omega (arith, v.size)) (
                Returns-if
                  (not (
                    bit_or (bit_and (get_or packet 1 0) 0x1F * 2 ^ 8) (get_or packet 2 0) == r.pid))
                  (λ _. returns idle) λ _. push_matching-Kept r packet _ other b v inside)))
