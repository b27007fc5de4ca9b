-- ===== src/Mux/Input/Receive.antt =====
-- src/mux.rs: `write` and `process`.
use mymuxer.Base.{
  ℕ, zero, suc, ◌+◌, ◌/◌, List, [], ◌++◌, Bool, true, false, not, ◌&&◌, ◌||◌, Option, none, some,
  leb, ◌==◌, if◌then◌else◌, length, get_or, take, drop, Outcome, ret, ◌>>=◌,
}
use mymuxer.Packet.{ts_packet_size, ts_sync_byte, pkt_pid, pkt_scrambling_control}
use mymuxer.Biss.{descramble_ts_packet}
use mymuxer.Mux.Sync.{sync_buffer}
use mymuxer.Mux.Handler.{Program, get_program, is_dirty, is_buffer_overflow}
use mymuxer.Mux.Input.{Env, InputHandler, elem, of_option, buffers_clear, max_buffer_size}
use mymuxer.Mux.Input.Tables.{process_pat, process_pmt, process_sdt}
use mymuxer.Mux.Input.Media.{process_media}
use mymuxer.Mux.Input.Ready.{finish}

-- The `match` on the PID of a packet.
unfoldable pub dispatch : Env → InputHandler → Program → ℕ → List ℕ → Outcome InputHandler
dispatch env h program pid pkt_data =
    if pid == 0x1FFF
    then ret h
    else if pid == 0x0000
    then (if not h.out.pat_ready || not h.out.is_ready then process_pat env h pkt_data else ret h)
    else if (pid == program.pmt_pid) && (not h.out.pmt_ready || not h.out.is_ready)
    then process_pmt env h pkt_data
    else if is_dirty h.out
    then ret h
    else if pid == 0x0011
    then (if h.out.pat_ready && not h.out.sdt_ready then process_sdt env h pkt_data else ret h)
    else if elem pid program.audio_pids || elem pid program.video_pids
    then process_media h program pid pkt_data
    else ret h

-- The packet in the clear; `none` where it is scrambled and there is no key.
unfoldable pub clear_packet :
    Env → InputHandler → Bool → List ℕ → Outcome (InputHandler × Option (List ℕ))
clear_packet env h is_media packet =
    let unscrambled : Outcome (InputHandler × Option (List ℕ)) = (do
      ca ← pkt_scrambling_control packet
      if not (ca == 0)
          then ret (record h { out = record h.out { dirty_ca = true } }, none)
          else ret (record h { out = record h.out { dirty_ca = false } }, some packet)) in
    elim h.biss [
      | none ↦ unscrambled
      | some key ↦
          if is_media
          then ret (h, some ((descramble_ts_packet env.decrypt key key packet).0))
          else unscrambled
    ]

-- One packet of 188 bytes.
unfoldable pub process_one : Env → InputHandler → List ℕ → Outcome InputHandler
process_one env h packet = do
  pid ← pkt_pid packet
  program ← get_program h.out
  (h', clear) ←
      clear_packet env h (elem pid program.video_pids || elem pid program.audio_pids) packet
  elim clear [ none ↦ ret h' | some pkt_data ↦ dispatch env h' program pid pkt_data ]

-- The loop over the whole packets from the pointer on; without a sync byte at the pointer, the
-- buffers are cleared and the search for one starts again. Whether the loop came to its end.
unfoldable pub packet_loop : ℕ → Env → InputHandler → List ℕ → Outcome (InputHandler × Bool)
packet_loop zero env h bytes = ret (record h { in_buff = bytes }, true)
packet_loop (suc n) env h bytes =
    if not (get_or bytes 0 0 == ts_sync_byte)
    then ret (buffers_clear (record h { is_sync = false; in_buff = bytes }), false)
    else do
      h' ← process_one env h (take ts_packet_size bytes)
      packet_loop n env h' (drop ts_packet_size bytes)

-- `process` on a buffer that starts with packets.
unfoldable pub process_synced : Env → InputHandler → Outcome InputHandler
process_synced env h = do
  let h1 = if is_buffer_overflow h.out 2 then buffers_clear h else h
  let count = length h1.in_buff / ts_packet_size
  if count == 0 then ret h1 else do
    (h2, done) ← packet_loop count env h1 h1.in_buff
    if done then finish env h2 else ret h2

unfoldable pub process : Env → InputHandler → Outcome InputHandler
process env h = if h.is_sync then process_synced env h else do
  (found, bytes) ← of_option (sync_buffer h.in_buff)
  if found
      then process_synced env (record h { is_sync = true; in_buff = bytes })
      else ret (record h { in_buff = bytes })

-- Bytes arrive; a full buffer is dropped first.
unfoldable pub write : Env → InputHandler → List ℕ → Outcome InputHandler
write env h chunk =
    let h' =
      if leb max_buffer_size (length h.in_buff + length chunk)
      then record h { in_buff = []; is_sync = false }
      else h in
    process env (record h' { in_buff = h'.in_buff ++ chunk })
