-- ===== src/Tests/Mux.antt =====
-- The output side on concrete handlers.
use mymuxer.Base.{
  ◌≢◌, ◌⊎◌, ℕ, ◌*◌, ◌/◌, ◌≤◌, ◌≡◌, refl, arith, List, [], ◌∷◌, ◌++◌, length, Bool, true, false,
  none, some, ret,
}
use mymuxer.Mux.Sync.{sync_buffer}
use mymuxer.Mux.Sync.Search.{Found, sync_buffer-Found}
use mymuxer.Mux.Buffer
use mymuxer.Mux.Buffer.{TsPacket, OutBuffer}
use mymuxer.Mux.Buffer.Counts.{IsCounted, frames, clocks}
use mymuxer.Mux.Restamper
use mymuxer.Mux.Restamper.{PcrRestamper, ticks_sent, get_pcr}
use mymuxer.Mux.Restamper.Stamps.{Stamped, get_pcr-resync, process_packet-Stamped}
use mymuxer.Mux.Handler.{PacketHandler, Program, get_pkt_size, get_program, is_dirty, get_a_or_v}
use mymuxer.Mux.Handler.Choice.{Chosen, Earliest, audio, video, FrontsInRange, get_a_or_v-Earliest}
use mymuxer.Mux.Handler.Valid.{IsValid}
use mymuxer.Mux.Output.{flush_packet_for_cbr}
use mymuxer.Mux.Output.Rate.{flush_packet_for_cbr-Fills}
use mymuxer.Tests.{
  clock_packet, clock_packet-IsPacket, clock_packet_present, payload_packet,
  payload_packet-IsPacket,
}

-- Packets of video at 10 seconds and of audio just before.
abbrev pub video_packet : TsPacket
video_packet = record {
  data' = clock_packet;
  pid = 0x100;
  pts = 903600;
  dts = 900000;
  pusi = true;
  discontinuity = false;
  pcr = some 0;
}

abbrev pub audio_packet : TsPacket
audio_packet = record {
  data' = payload_packet;
  pid = 0x101;
  pts = 899000;
  dts = 899000;
  pusi = true;
  discontinuity = false;
  pcr = none;
}

abbrev pub audio_buffer : OutBuffer
audio_buffer = record { inner = audio_packet ∷ []; unique_frames_count = 1; pcr_count = 0 }

abbrev pub video_buffer : OutBuffer
video_buffer = record { inner = video_packet ∷ []; unique_frames_count = 1; pcr_count = 1 }

abbrev pub started : PcrRestamper
started = Restamper.resync (Restamper.new 1_000_000) 890000

abbrev pub program : Program
program = record {
  program_id = 1;
  audio_pids = 0x101 ∷ [];
  video_pids = 0x100 ∷ [];
  pmt_pid = 0x1000;
  pcr_pid = 0x100;
  service_name = [];
  service_provider_name = [];
  service_type = 1;
  buffer_duration = 500;
  jitter = 50;
  adjust_buf = 0;
}

-- A handler that is ready, with seven packets in each of its own and one packet in either buffer.
abbrev pub handler : PacketHandler
handler = record {
  pkt_size = 1316;
  programs = program ∷ [];
  is_ready = true;
  out_buff_v = video_buffer;
  out_buff_a = audio_buffer;
  max_buff_size = 1_000_000;
  buffer_duration_ms = 500;
  jitter_ms = 50;
  adjust_buf = 0;
  pat = payload_packet;
  pmt = payload_packet;
  sdt = payload_packet;
  pat_ready = true;
  pmt_ready = true;
  sdt_ready = true;
  insert_pat = none;
  insert_pmt = none;
  insert_sdt = none;
  count_psi_packets = 0;
  count_null_packets = 0;
  count_payload_packets = 0;
  count_adjust_packets_null = 0;
  count_adjust_packets_payload = 0;
  pcr_restamper = some started;
  dirty_pat = false;
  dirty_pmt = false;
  dirty_ca = false;
}

handler-IsValid : IsValid handler
unfolding get_program
handler-IsValid = record {
  audio_whole = (payload_packet-IsPacket, tt);
  video_whole = (clock_packet-IsPacket, tt);
  pat_whole = payload_packet-IsPacket;
  pmt_whole = payload_packet-IsPacket;
  sdt_whole = payload_packet-IsPacket;
  program = program;
  first_program = refl;
}

handler_clean : is_dirty handler ≡ false
unfolding is_dirty
handler_clean = refl

handler_room : 188 ≤ get_pkt_size handler
unfolding get_pkt_size
handler_room = omega arith

abbrev limit : ℕ → ℕ → ℕ
limit size rate = size / 2

flush_packet_for_cbr-Fills_example :
    (h' : PacketHandler) × (out : List ℕ) × (flush_packet_for_cbr limit limit handler
      ≡ ret (h', some out))
    × IsValid h'
    × (length out ≡ get_pkt_size handler / 188 * 188)
flush_packet_for_cbr-Fills_example =
    flush_packet_for_cbr-Fills limit limit handler handler-IsValid handler_clean refl handler_room

abbrev received : List ℕ
received = 0 ∷ 1 ∷ (clock_packet ++ (payload_packet ++ clock_packet))

sync_buffer-Found_example :
    (ok : Bool) × (rest : List ℕ) × (sync_buffer received ≡ some (ok, rest))
    × Found received ok rest
sync_buffer-Found_example = sync_buffer-Found received

started_clock : get_pcr started ≡ some 267_000_000
started_clock = get_pcr-resync (Restamper.new 1_000_000) 890000 (omega arith)

process_packet-Stamped_example :
    (r' : PcrRestamper) × (q : List ℕ) × (Restamper.process_packet started clock_packet
      ≡ ret (r', q, some 267_000_000))
    × Stamped started r' clock_packet q 267_000_000
process_packet-Stamped_example =
    process_packet-Stamped started clock_packet 267_000_000 clock_packet-IsPacket
      clock_packet_present started_clock

handler_range : FrontsInRange handler
unfolding Buffer.front
handler_range = (λ q e. ground arith, λ q e. ground arith)

get_a_or_v-Earliest_example :
    Chosen handler (Earliest handler) (get_a_or_v handler)
    × (((get_a_or_v handler).1 ≢ none) ⊎ ((audio handler ≡ []) × (video handler ≡ [])))
get_a_or_v-Earliest_example = get_a_or_v-Earliest handler handler_range

pub video_buffer-IsCounted : IsCounted video_buffer
unfolding frames clocks
video_buffer-IsCounted = record { frames_counted = refl; clocks_counted = refl }

abbrev before_wrap : ℕ
before_wrap = 8_589_934_000

abbrev after_wrap : ℕ
after_wrap = 500
