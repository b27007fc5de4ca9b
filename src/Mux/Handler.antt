-- ===== src/Mux/Handler.antt =====
-- src/mux.rs: the output side of `PacketHandler`, which takes packets from the two buffers by their
-- time stamps and sends them with tables and null packets between.
-- The handler has the fields that this side reads and writes. Logging and statistics are left out;
-- the `usize` counters of packets are numbers.
pub mod Choice
pub mod Valid
use mymuxer.Base.{
  ℕ, zero, suc, ◌+◌, ◌-◌, ◌*◌, ◌/◌, ◌%◌, ◌^◌, bit_and, List, [], ◌∷◌, ◌++◌, Bool, true, false, not,
  ◌&&◌, ◌||◌, Option, none, some, ltb, leb, ◌==◌, if◌then◌else◌, length, Outcome, ret, panic, ◌>>=◌,
}
use mymuxer.Base.Int.{ℤ, pos, negsuc, quot}
use mymuxer.Packet.{ts_packet_size, ts_null_packet, pkt_next, pkt_set_discontinuity}
use mymuxer.Mux.Timing.{
  wrapping_sub, dts_mask, dts_after, dts_signed_delta, pcr_after, pcr_add, pcr_normalize,
}
use mymuxer.Mux.Buffer
use mymuxer.Mux.Buffer.{TsPacket, OutBuffer}
use mymuxer.Mux.Restamper
use mymuxer.Mux.Restamper.{PcrRestamper, get_pcr}

-- The configuration's `Program` (src/config.rs). Names are the lists of their UTF-8 bytes.
pub record Program : Type 0 where
  pub program_id : ℕ
  pub audio_pids : List ℕ
  pub video_pids : List ℕ
  pub pmt_pid : ℕ
  pub pcr_pid : ℕ
  pub service_name : List ℕ
  pub service_provider_name : List ℕ
  pub service_type : ℕ
  pub buffer_duration : ℕ
  pub jitter : ℕ
  pub adjust_buf : ℕ

pub record PacketHandler : Type 0 where
  pub pkt_size : ℕ
  pub programs : List Program
  pub is_ready : Bool
  pub out_buff_v : OutBuffer
  pub out_buff_a : OutBuffer
  pub max_buff_size : ℕ
  pub buffer_duration_ms : ℕ
  pub jitter_ms : ℕ
  pub adjust_buf : ℕ
  pub pat : List ℕ
  pub pmt : List ℕ
  pub sdt : List ℕ
  pub pat_ready : Bool
  pub pmt_ready : Bool
  pub sdt_ready : Bool
  pub insert_pat : Option ℕ
  pub insert_pmt : Option ℕ
  pub insert_sdt : Option ℕ
  pub count_psi_packets : ℕ
  pub count_null_packets : ℕ
  pub count_payload_packets : ℕ
  pub count_adjust_packets_null : ℕ
  pub count_adjust_packets_payload : ℕ
  pub pcr_restamper : Option PcrRestamper
  pub dirty_pat : Bool
  pub dirty_pmt : Bool
  pub dirty_ca : Bool

unfoldable pub get_pkt_size : PacketHandler → ℕ
get_pkt_size h = if h.pkt_size == 0 then ts_packet_size else h.pkt_size

-- `programs.first().unwrap()`
unfoldable pub get_program : PacketHandler → Outcome Program
get_program h = elim h.programs [ [] ↦ panic | p ∷ ps ↦ ret p ]

unfoldable pub is_dirty : PacketHandler → Bool
is_dirty h = h.dirty_pat || (h.dirty_pmt || h.dirty_ca)

-- `self.pcr_restamper.as_ref().and_then(|r| r.get_pcr())`
unfoldable pub current_pcr : PacketHandler → Option ℕ
current_pcr h = elim h.pcr_restamper [ none ↦ none | some r ↦ get_pcr r ]

-- Whether a packet is at most `ahead` milliseconds ahead of the clock. `dts * 300` is a `u64`.
unfoldable pub within : PacketHandler → ℕ → ℕ → Bool
within h dts ahead = elim (current_pcr h) [
  | none ↦ false
  | some current ↦
      not
        (pcr_after (pcr_normalize (dts * 300 % 2 ^ 64)) (pcr_add current (ahead * 27_000 % 2 ^ 64)))
]

unfoldable pub ready_send : PacketHandler → ℕ → Bool
ready_send h dts = within h dts h.jitter_ms

abbrev pub max_dts_pcr_diff_ms : ℕ
max_dts_pcr_diff_ms = 800

unfoldable pub drain_send : PacketHandler → ℕ → Bool
drain_send h dts = within h dts max_dts_pcr_diff_ms

unfoldable pub pop_v : PacketHandler → PacketHandler × Option TsPacket
pop_v h = let (b, p) = Buffer.pop_front h.out_buff_v in (record h { out_buff_v = b }, p)

unfoldable pub pop_a : PacketHandler → PacketHandler × Option TsPacket
pop_a h = let (b, p) = Buffer.pop_front h.out_buff_a in (record h { out_buff_a = b }, p)

-- The three choices between the fronts of the audio and the video buffer.
unfoldable pub choose :
    Option TsPacket → Option TsPacket → PacketHandler → PacketHandler × Option TsPacket
choose (some a) (some v) h = if dts_after a.dts v.dts then pop_v h else pop_a h
choose (some a) none h = pop_a h
choose none (some v) h = pop_v h
choose none none h = (h, none)

unfoldable pub get_a_or_v : PacketHandler → PacketHandler × Option TsPacket
unfolding choose
get_a_or_v h = choose (Buffer.front h.out_buff_a) (Buffer.front h.out_buff_v) h

unfoldable pub choose_ready :
    Option TsPacket → Option TsPacket → PacketHandler → PacketHandler × Option TsPacket
choose_ready (some a) (some v) h =
    if dts_after a.dts v.dts && (ready_send h v.dts || v.discontinuity)
    then pop_v h
    else if ready_send h a.dts || a.discontinuity
    then pop_a h
    else (h, none)
choose_ready (some a) none h = if ready_send h a.dts || a.discontinuity then pop_a h else (h, none)
choose_ready none (some v) h = if ready_send h v.dts || v.discontinuity then pop_v h else (h, none)
choose_ready none none h = (h, none)

unfoldable pub get_a_or_v_ready : PacketHandler → PacketHandler × Option TsPacket
unfolding choose_ready
get_a_or_v_ready h = choose_ready (Buffer.front h.out_buff_a) (Buffer.front h.out_buff_v) h

unfoldable pub choose_drain :
    Option TsPacket → Option TsPacket → PacketHandler → PacketHandler × Option TsPacket
choose_drain (some a) (some v) h =
    if dts_after a.dts v.dts && drain_send h v.dts
    then pop_v h
    else if drain_send h a.dts
    then pop_a h
    else (h, none)
choose_drain (some a) none h = if drain_send h a.dts then pop_a h else (h, none)
choose_drain none (some v) h = if drain_send h v.dts then pop_v h else (h, none)
choose_drain none none h = (h, none)

unfoldable pub get_a_or_v_drain : PacketHandler → PacketHandler × Option TsPacket
unfolding choose_drain
get_a_or_v_drain h = choose_drain (Buffer.front h.out_buff_a) (Buffer.front h.out_buff_v) h

unfoldable pub is_buffer_overflow : PacketHandler → ℕ → Bool
is_buffer_overflow h rate =
    ltb (h.max_buff_size * rate) (Buffer.size h.out_buff_v + Buffer.size h.out_buff_a)

abbrev pub dts_pcr_diff_ms : ℕ
dts_pcr_diff_ms = 300

-- The clock restarts 300 ms before the packet's DTS.
unfoldable pub resync : PacketHandler → ℕ → PacketHandler
resync h dts = elim h.pcr_restamper [
  | none ↦ h
  | some r ↦ record h {
    pcr_restamper =
        some (Restamper.resync r (bit_and (wrapping_sub dts (dts_pcr_diff_ms * 90)) dts_mask));
  }
]

-- How far the packet is ahead of the clock, in milliseconds.
unfoldable pub dts_drift : PacketHandler → ℕ → ℤ
dts_drift h dts = elim (current_pcr h) [
  | none ↦ pos 0
  | some current ↦ quot (dts_signed_delta dts (current / 300)) 90
]

-- `(MIN_DTS_PCR_DIFF_MS..=MAX_DTS_PCR_DIFF_MS).contains(&drift)`
abbrev pub drift_in_range : ℤ → Bool
drift_in_range (pos n) = leb n max_dts_pcr_diff_ms
drift_in_range (negsuc n) = false

-- A packet of the PCR's PID goes through the restamper. (The code also reads the clock that the
-- packet had, for the statistics.)
unfoldable pub restamp : PacketHandler → ℕ → List ℕ → Outcome (PacketHandler × List ℕ)
restamp h pid data' = do
  program ← get_program h
  if not (pid == program.pcr_pid) then ret (h, data') else elim h.pcr_restamper [
    | none ↦ ret (h, data')
    | some r ↦ do
      (r', data'', new_pcr) ← Restamper.process_packet r data'
      ret (record h { pcr_restamper = some r' }, data'')
  ]

unfoldable pub process_packet : PacketHandler → TsPacket → Outcome (PacketHandler × List ℕ)
process_packet h pkt =
    if not (pkt.discontinuity || not (drift_in_range (dts_drift h pkt.dts)))
    then restamp h pkt.pid pkt.data'
    else do
      (data', done) ← pkt_set_discontinuity pkt.data'
      restamp (resync h pkt.dts) pkt.pid data'
