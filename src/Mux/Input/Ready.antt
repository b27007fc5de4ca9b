-- ===== src/Mux/Input/Ready.antt =====
-- src/mux.rs: the end of `process`, which settles whether the handler is ready to send.
use mymuxer.Base.{
  ℕ, zero, suc, ◌+◌, ◌*◌, ◌/◌, [], true, not, ◌||◌, Option, none, some, ltb, leb, ◌==◌,
  if◌then◌else◌, length, Outcome, ret, ◌>>=◌,
}
use mymuxer.Mux.Timing.{dts_after}
use mymuxer.Mux.Buffer
use mymuxer.Mux.Buffer.{TsPacket}
use mymuxer.Mux.Restamper.{PcrRestamper}
use mymuxer.Mux.Handler.{PacketHandler, get_program, is_dirty, get_a_or_v, resync}
use mymuxer.Mux.Input.{Env, InputHandler, buffers_clear, of_option}
use mymuxer.Mux.Input.Tables.{set_sdt, service_type_of}

-- The loop of `buffer_adjust` on fuel (`none`: it ran out). The packets taken are dropped.
unfoldable pub adjust_loop : ℕ → PacketHandler → Option PacketHandler
adjust_loop zero h = none
adjust_loop (suc fuel) h =
    let next = adjust_loop fuel ((get_a_or_v h).0) in
    if ltb h.buffer_duration_ms (Buffer.duration_ms h.out_buff_v) then next else some h

-- Each round takes a packet.
unfoldable pub buffer_adjust : PacketHandler → Option PacketHandler
buffer_adjust h = adjust_loop (suc (length h.out_buff_a.inner + length h.out_buff_v.inner)) h

-- A table made from the configuration, where none was received.
unfoldable pub generate_sdt : Env → InputHandler → Outcome InputHandler
generate_sdt env h = if h.out.sdt_ready then ret h else do
  program ← get_program h.out
  set_sdt env h (service_type_of program.service_type 0) (env.trim program.service_provider_name)
      (env.trim program.service_name) program

abbrev pub target_bitrate : Option PcrRestamper → ℕ
target_bitrate none = 0
target_bitrate (some r) = r.target_bitrate_bps

unfoldable pub set_bitrate : PacketHandler → ℕ → PacketHandler
set_bitrate h bitrate = elim h.pcr_restamper [
  | none ↦ h
  | some r ↦
      if r.target_bitrate_bps == 0
      then record h { pcr_restamper = some (record r { target_bitrate_bps = bitrate }) }
      else h
]

abbrev pub buffered : PacketHandler → ℕ
buffered h = Buffer.size h.out_buff_v + Buffer.size h.out_buff_a

-- Without a configured bit rate it is measured on 5 seconds of packets: the handler and the rate.
unfoldable pub probe_bitrate : Env → PacketHandler → PacketHandler × ℕ
probe_bitrate env h =
    let duration = Buffer.duration_ms h.out_buff_v in
    let bitrate = env.raise_bitrate (buffered h * 8 / duration) in
    let set : PacketHandler × ℕ = (set_bitrate h bitrate, bitrate) in
    if not (target_bitrate h.pcr_restamper == 0)
    then (h, target_bitrate h.pcr_restamper)
    else if leb 5000 duration
    then set
    else (h, 0)

-- The clock starts from the first packet of video.
unfoldable pub start : InputHandler → Option TsPacket → InputHandler
start h none = h
start h (some p) = record h {
  out = record (resync h.out p.dts) { is_ready = true };
  cc_errors = [];
}

unfoldable pub make_ready : Env → InputHandler → ℕ → Outcome InputHandler
make_ready env h bitrate = do
  adjusted ← of_option (buffer_adjust h.out)
  let limit = env.size_limit bitrate adjusted.buffer_duration_ms adjusted.adjust_buf
  let h' = record h { out = record adjusted { max_buff_size = limit } }
  ret (start h' (Buffer.front adjusted.out_buff_v))

unfoldable pub try_ready : Env → InputHandler → Outcome InputHandler
try_ready env h =
    let (out, bitrate) = probe_bitrate env h.out in
    if (bitrate == 0) || ltb (Buffer.duration_ms out.out_buff_v) out.buffer_duration_ms
    then ret (record h { out = out })
    else make_ready env (record h { out = out }) bitrate

-- The video waiting, from its first packet to its last: where these are not in order, it is dropped.
unfoldable pub check_order :
    Env → InputHandler → Option TsPacket → Option TsPacket → Outcome InputHandler
check_order env h (some first) (some last) =
    if dts_after first.dts last.dts then ret (buffers_clear h) else try_ready env h
check_order env h _ _ = ret h

unfoldable pub finish : Env → InputHandler → Outcome InputHandler
finish env h =
    if is_dirty h.out || h.out.is_ready
    then ret h
    else if not h.out.pat_ready || not h.out.pmt_ready
    then ret h
    else do
      h' ← generate_sdt env h
      check_order env h' (Buffer.front h'.out.out_buff_v) (Buffer.back h'.out.out_buff_v)
