-- ===== src/Mux/Input/MediaFit.antt =====
-- A packet of audio or video never stops the input side, and leaves it fit.
use mymuxer.Base.{
  ℕ, arith, List, Bool, true, false, not, Option, none, some, ◌==◌, if◌then◌else◌, ret, Returns,
  returns, Returns-if, Returns-bind, Returns-eq_ret, Returns-byte_at, Option-cases, inl, inr,
}
use mymuxer.Packet.{IsPacket}
use mymuxer.Packet.Total.{
  pkt_has_payload-Returns, pkt_get_discontinuity-Returns, pkt_extract_pcr-Returns,
}
use mymuxer.Packet.Timestamps.{InRange, pkt_pts_dts-InRange}
use mymuxer.Mux.Buffer.{TsPacket, new_packet, extract_pcr, push_back}
use mymuxer.Mux.Handler.{Program, get_program}
use mymuxer.Mux.Handler.Valid.{IsWhole}
use mymuxer.Mux.Input.{InputHandler, lookup, put, elem}
use mymuxer.Mux.Input.Media.{
  update_cc, check_cc, take_stamps, enqueue, buffer_packet, process_media,
}
use mymuxer.Mux.Input.Fit.{
  IsFit, HasStamp, StampFits, push_back-BufferFit, put-All, lookup-StampFits,
}

counted_cc :
    (follows : Bool) (h : InputHandler) (pid : ℕ) (current : ℕ)
    → IsFit h
    → let h' = if follows then h else update_cc h pid in
      IsFit (record h' { last_cc = put h'.last_cc pid current })
unfolding update_cc
counted_cc true h pid current f = record {
  out_fit = f.out_fit;
  remembered = f.remembered;
  received = f.received;
}
counted_cc false h pid current f = record {
  out_fit = f.out_fit;
  remembered = f.remembered;
  received = f.received;
}

check_cc-IsFit :
    (h : InputHandler) (p : List ℕ) (pid : ℕ)
    → IsFit h
    → IsPacket p
    → Returns IsFit (check_cc h p pid)
unfolding check_cc
check_cc-IsFit h p pid f v = Returns-bind (pkt_has_payload-Returns p v) λ payload _.
    Returns-if (not payload) (λ _. returns f)
      λ _. Returns-byte_at p 3 _ (omega (arith, v.size)) (returns (counted_cc _ h pid _ f))

take_stamps-IsFit :
    (h : InputHandler) (pid : ℕ) (discontinuity : Bool) (stamps : Option (ℕ × ℕ))
    → IsFit h
    → InRange stamps
    → IsFit (take_stamps h pid discontinuity stamps).0
unfolding take_stamps
take_stamps-IsFit h pid discontinuity none f r = f
take_stamps-IsFit h pid discontinuity (some (pts, dts)) f r = record {
  out_fit = f.out_fit;
  remembered = put-All StampFits h.last_pts_dts pid (pts, dts) f.remembered r.1;
  received = f.received;
}

enqueue-IsFit :
    (h : InputHandler) (program : Program) (p : TsPacket)
    → IsFit h
    → IsWhole p
    → HasStamp p
    → IsFit (enqueue h program p)
unfolding enqueue get_program
enqueue-IsFit h program p f w s =
    here (elem p.pid program.video_pids) (elem p.pid program.audio_pids)
  where
    here :
        (v a : Bool)
        → IsFit (
            if v
            then record h { out = record h.out { out_buff_v = push_back h.out.out_buff_v p } }
            else if a
            then record h { out = record h.out { out_buff_a = push_back h.out.out_buff_a p } }
            else h)
    here true a = record {
      out_fit = record {
        audio = f.out_fit.audio;
        video = push_back-BufferFit h.out.out_buff_v p f.out_fit.video w s;
        program = f.out_fit.program;
        first_program = f.out_fit.first_program;
      };
      remembered = f.remembered;
      received = f.received;
    }
    here false true = record {
      out_fit = record {
        audio = push_back-BufferFit h.out.out_buff_a p f.out_fit.audio w s;
        video = f.out_fit.video;
        program = f.out_fit.program;
        first_program = f.out_fit.first_program;
      };
      remembered = f.remembered;
      received = f.received;
    }
    here false false = f

with_clock :
    (b : Bool) (p : TsPacket)
    → IsWhole p
    → HasStamp p
    → Returns (λ q. IsWhole q × HasStamp q) (if b then extract_pcr p else ret p)
unfolding extract_pcr
with_clock true p w s = Returns-bind (pkt_extract_pcr-Returns p.data' w) (λ pcr _. returns (w, s))
with_clock false p w s = returns (w, s)

buffer_packet-IsFit :
    (h : InputHandler) (program : Program) (pid : ℕ) (p : List ℕ) (pusi discontinuity : Bool)
    → IsFit h
    → IsPacket p
    → Returns IsFit (buffer_packet h program pid p pusi discontinuity)
unfolding buffer_packet new_packet
buffer_packet-IsFit h program pid p pusi discontinuity f v =
    elim (Option-cases (lookup h.last_pts_dts pid)) [
      | inl e ↦ rw (e, buffer_packet) (returns f)
      | inr (s, e) ↦
          rw (e, buffer_packet)
            (Returns-bind
              (with_clock (pid == program.pcr_pid) (new_packet p pid (s.0) (s.1) pusi discontinuity)
                v (lookup-StampFits h.last_pts_dts pid f.remembered s e))
              (λ q (w, t). returns (enqueue-IsFit h program q f w t)))
    ]

-- On a fit input side, `process_media` of a packet of 188 bytes returns, whatever the packet holds,
-- and leaves the input side fit: whole packets with time stamps of 33 bits in counted buffers.
pub process_media-IsFit :
    (h : InputHandler) (program : Program) (pid : ℕ) (p : List ℕ)
    → IsFit h
    → IsPacket p
    → Returns IsFit (process_media h program pid p)
unfolding process_media
process_media-IsFit h program pid p f v =
    let (stamps, e, range) = pkt_pts_dts-InRange p pid v in
    Returns-bind (pkt_get_discontinuity-Returns p v) λ discontinuity _.
      Returns-bind (Returns-if discontinuity (λ _. returns f) (λ _. check_cc-IsFit h p pid f v))
        λ h1 f1. Returns-eq_ret _ e (
          buffer_packet-IsFit _ program pid p _ _
            (take_stamps-IsFit h1 pid discontinuity stamps f1 range) v)
