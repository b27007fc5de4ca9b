-- ===== src/Mux/Proxy.antt =====
-- src/mux.rs: `proxy_packet`, which passes packets on with new tables, and `flush_frame`.
use mymuxer.Base.{
  ℕ, zero, suc, ◌+◌, ◌/◌, List, [], ◌∷◌, ◌++◌, Bool, true, false, not, ◌||◌, Option, none, some,
  leb, ◌==◌, if◌then◌else◌, length, get_or, take, drop, Outcome, ret, ◌>>=◌,
}
use mymuxer.Packet.{ts_packet_size, ts_sync_byte, pkt_pid, pkt_next}
use mymuxer.Mux.Sync.{sync_buffer}
use mymuxer.Mux.Handler.{PacketHandler, get_program, get_pkt_size, is_dirty}
use mymuxer.Mux.Output.{flush_packet_for_vbr}
use mymuxer.Mux.Input.{Env, InputHandler, elem, of_option}
use mymuxer.Mux.Input.Tables.{process_pat, process_pmt}

abbrev pub frame_buffer_size : ℕ
frame_buffer_size = 8192

-- The loop of `flush_frame`: the handler and the frame. `none` is the fuel run out.
unfoldable pub frame_loop : ℕ → PacketHandler → List ℕ → Outcome (Option (PacketHandler × List ℕ))
frame_loop zero h frame = ret none
frame_loop (suc fuel) h frame =
    let next = λ (g : PacketHandler) (pkt : List ℕ). frame_loop fuel g (frame ++ pkt) in
    if leb frame_buffer_size (length frame) then ret (some (h, frame)) else do
      (h', out) ← flush_packet_for_vbr h
      elim out [ none ↦ ret (some (h', frame)) | some pkt ↦ next h' pkt ]

-- `flush_frame` on the handler and its `frame_buff`. Every packet has a byte or more.
unfoldable pub flush_frame :
    PacketHandler → List ℕ → Outcome (PacketHandler × (List ℕ × Option (List ℕ)))
unfolding frame_loop
flush_frame h frame = if is_dirty h || not h.is_ready then ret (h, (frame, none)) else do
  filled ← frame_loop (suc frame_buffer_size) h frame
  (h', frame') ← of_option filled
  if leb frame_buffer_size (length frame')
      then ret (h', (drop frame_buffer_size frame', some (take frame_buffer_size frame')))
      else ret (h', (frame', none))

-- The state of `proxy_packet`: the handler, its `frame_buff`, what was handed to `handler`, and the
-- sum of what that answered.
pub record Proxy : Type 0 where
  pub input : InputHandler
  pub frame : List ℕ
  pub handed : List (List ℕ)
  pub send_bytes : ℕ

-- A packet handed to `handler`, which answers how many bytes it sent, or an error.
unfoldable pub hand_over : (List ℕ → Option ℕ) → Proxy → List ℕ → Proxy
hand_over handler s pkt = record s {
  handed = s.handed ++ (pkt ∷ []);
  send_bytes = elim (handler pkt) [ none ↦ s.send_bytes | some i ↦ s.send_bytes + i ];
}

-- The `match` on the PID; whether the rest of the round follows.
unfoldable pub proxy_dispatch : Env → Proxy → ℕ → List ℕ → Outcome (Proxy × Bool)
proxy_dispatch env s pid pkt_data = do
  program ← get_program s.input.out
  let passed : Proxy = record s { frame = s.frame ++ pkt_data }
  if pid == 0x0000
      then (do
        h ← process_pat env s.input pkt_data
        if h.out.dirty_pat then ret (record s { input = h }, true) else do
          pat ← pkt_next h.out.pat
          ret (
            record s {
              input = record h { out = record h.out { pat = pat } };
              frame = s.frame ++ pat;
            },
            true,
          ))
      else if pid == program.pmt_pid
      then (do
        h ← process_pmt env s.input pkt_data
        if h.out.dirty_pmt then ret (record s { input = h }, true) else do
          pmt ← pkt_next h.out.pmt
          ret (
            record s {
              input = record h { out = record h.out { pmt = pmt } };
              frame = s.frame ++ pmt;
            },
            true,
          ))
      else if is_dirty s.input.out
      then ret (s, false)
      else if pid == program.pcr_pid
      then ret (passed, true)
      else if elem pid program.audio_pids || elem pid program.video_pids
      then ret (passed, true)
      else ret (s, true)

-- A frame that is full is handed over.
unfoldable pub proxy_send : (List ℕ → Option ℕ) → Proxy → Proxy
unfolding hand_over
proxy_send handler s =
    let pkt_size = get_pkt_size s.input.out in
    if leb pkt_size (length s.frame)
    then hand_over handler (record s { frame = drop pkt_size s.frame }) (take pkt_size s.frame)
    else s

-- The loop over whole packets; without a sync byte the search for one starts again.
unfoldable pub proxy_loop : ℕ → Env → (List ℕ → Option ℕ) → Proxy → List ℕ → Outcome Proxy
proxy_loop zero env handler s bytes = ret (record s { input = record s.input { in_buff = bytes } })
proxy_loop (suc n) env handler s bytes =
    if not (get_or bytes 0 0 == ts_sync_byte)
    then ret (record s { input = record s.input { is_sync = false; in_buff = bytes } })
    else do
      pid ← pkt_pid (take ts_packet_size bytes)
      (s', whole) ← proxy_dispatch env s pid (take ts_packet_size bytes)
      proxy_loop n env handler (if whole then proxy_send handler s' else s')
          (drop ts_packet_size bytes)

unfoldable pub proxy_synced : Env → (List ℕ → Option ℕ) → Proxy → Outcome Proxy
proxy_synced env handler s =
    proxy_loop (length s.input.in_buff / ts_packet_size) env handler s s.input.in_buff

-- Without a program every chunk is handed over as it is.
unfoldable pub proxy_packet :
    Env → (List ℕ → Option ℕ) → InputHandler → (frame chunk : List ℕ) → Outcome Proxy
unfolding hand_over
proxy_packet env handler h frame chunk =
    let s : Proxy = record { input = h; frame = frame; handed = []; send_bytes = 0 } in
    let received : InputHandler = record h { in_buff = h.in_buff ++ chunk } in
    if length h.out.programs == 0
    then ret (record (hand_over handler s chunk) { send_bytes = length chunk })
    else if received.is_sync
    then proxy_synced env handler (record s { input = received })
    else do
      (found, bytes) ← of_option (sync_buffer received.in_buff)
      let h' = record received { is_sync = found; in_buff = bytes }
      if found
          then proxy_synced env handler (record s { input = h' })
          else ret (record s { input = h' })
