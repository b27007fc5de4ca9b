-- ===== src/Mux/Input/Media.antt =====
-- src/mux.rs: what `process` does with a packet of audio or video.
use mymuxer.Base.{
  ℕ, ◌+◌, List, Bool, true, false, not, ◌||◌, Option, none, some, ltb, ◌==◌, if◌then◌else◌, bit_and,
  Outcome, ret, ◌>>=◌, byte_at,
}
use mymuxer.Packet.{pkt_has_payload, pkt_get_discontinuity, pkt_pts_dts}
use mymuxer.Mux.Timing.{dts_forward_delta_ms}
use mymuxer.Mux.Buffer.{TsPacket, new_packet, extract_pcr, push_back}
use mymuxer.Mux.Handler.{Program}
use mymuxer.Mux.Input.{InputHandler, lookup, put, elem}

unfoldable pub update_cc : InputHandler → ℕ → InputHandler
update_cc h pid =
    let count : ℕ = elim (lookup h.cc_errors pid) [ none ↦ 1 | some n ↦ n + 1 ] in
    record h { cc_errors = put h.cc_errors pid count }

-- `check_cc`: a counter that does not follow the last one is an error.
unfoldable pub check_cc : InputHandler → List ℕ → ℕ → Outcome InputHandler
check_cc h packet pid = do
  payload ← pkt_has_payload packet
  if not payload then ret h else do
    b3 ← byte_at packet 3
    let current_cc = bit_and b3 0x0F
    let follows : Bool = elim (lookup h.last_cc pid) [
      | none ↦ true
      | some last ↦ current_cc == bit_and (last + 1) 0x0F
    ]
    let h' = if follows then h else update_cc h pid
    ret (record h' { last_cc = put h'.last_cc pid current_cc })

-- A jump of the time stamps: more than 500 ms forwards, or not forwards.
unfoldable pub is_jump : Option (ℕ × ℕ) → ℕ → Bool
is_jump none dts = false
is_jump (some (last_pts, last_dts)) dts = elim (dts_forward_delta_ms dts last_dts) [
  | none ↦ true
  | some delta_ms ↦ ltb 500 delta_ms
]

-- The time stamps of the packet, if it has any: the handler that remembers them, whether they jump,
-- and whether there are any.
unfoldable pub take_stamps : InputHandler → ℕ → Bool → Option (ℕ × ℕ) → InputHandler × Bool × Bool
take_stamps h pid discontinuity none = (h, discontinuity, false)
take_stamps h pid discontinuity (some (pts, dts)) = (
  record h { last_pts_dts = put h.last_pts_dts pid (pts, dts) },
  discontinuity || is_jump (lookup h.last_pts_dts pid) dts,
  true,
)

-- A packet of a PID of both kinds goes to the video.
unfoldable pub enqueue : InputHandler → Program → TsPacket → InputHandler
enqueue h program p =
    if elem p.pid program.video_pids
    then record h { out = record h.out { out_buff_v = push_back h.out.out_buff_v p } }
    else if elem p.pid program.audio_pids
    then record h { out = record h.out { out_buff_a = push_back h.out.out_buff_a p } }
    else h

-- The packet waits with the last time stamps of its PID; before the first it is dropped.
unfoldable pub buffer_packet :
    InputHandler → Program → ℕ → List ℕ → Bool → Bool → Outcome InputHandler
buffer_packet h program pid bytes pusi discontinuity = elim (lookup h.last_pts_dts pid) [
  | none ↦ ret h
  | some stamps ↦ do
    let p = new_packet bytes pid (stamps.0) (stamps.1) pusi discontinuity
    p' ← (if pid == program.pcr_pid then extract_pcr p else ret p)
    ret (enqueue h program p')
]

unfoldable pub process_media : InputHandler → Program → ℕ → List ℕ → Outcome InputHandler
process_media h program pid pkt_data = do
  discontinuity ← pkt_get_discontinuity pkt_data
  h1 ← (if discontinuity then ret h else check_cc h pkt_data pid)
  stamps ← pkt_pts_dts pkt_data pid
  let (h2, jump, pusi) = take_stamps h1 pid discontinuity stamps
  buffer_packet h2 program pid pkt_data pusi jump
