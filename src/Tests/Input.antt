-- ===== src/Tests/Input.antt =====
-- The input side on concrete handlers and packets.
use mymuxer.Base.{
  Outcome, panic, replicate, ℕ, ◌≡◌, refl, arith, List, [], ◌∷◌, true, false, none, some, ret,
  byte_at, Returns, returns, Returns-bind, Ends, Bool, ◌++◌,
}
use mymuxer.Packet.{pkt_pid, pkt_scrambling_control}
use mymuxer.Mux.Buffer
use mymuxer.Mux.Sync.{sync_buffer, sync_loop, three_syncs}
use mymuxer.Mux.Buffer.{TsPacket, OutBuffer}
use mymuxer.Mux.Buffer.Counts.{IsCounted, frames, clocks}
use mymuxer.Mux.Timing.{dts_after}
use mymuxer.Mux.Restamper
use mymuxer.Mux.Restamper.{PcrRestamper}
use mymuxer.Mux.Handler.{PacketHandler, is_dirty, get_program, is_buffer_overflow}
use mymuxer.Mux.Input.{Env, InputHandler, Output, new}
use mymuxer.Mux.Input.Ready.{buffer_adjust, finish}
use mymuxer.Mux.Input.Receive.{
  process_one, packet_loop, process_synced, process, write, dispatch, clear_packet,
}
use mymuxer.Mux.Input.Fit.{OutFit, IsFit}
use mymuxer.Mux.Input.Adjust.{Adjusted, buffer_adjust-Adjusted}
use mymuxer.Mux.Input.Start.{IsDueToStart, Started, finish-Started}
use mymuxer.Mux.Input.Safe.{IsCipher, process_one-Returns}
use mymuxer.Mux.Input.Chunks.{StopsAt, write_all, write_all-IsFit}
use mymuxer.Tests.{are_bytes_lem, clock_packet-IsPacket, payload_packet, payload_packet-IsPacket}
use mymuxer.Tests.Mux.{
  handler, program, audio_buffer, video_packet, started, video_buffer-IsCounted,
}

abbrev same_bytes : List ℕ → List ℕ
same_bytes bytes = bytes

-- A cipher that changes nothing, and no checksums.
abbrev env : Env
env = record {
  crc32 = λ bytes. 0;
  decrypt = λ key bytes. bytes;
  iso_8859_5 = same_bytes;
  utf_16be = same_bytes;
  utf8_lossy = same_bytes;
  trim = same_bytes;
  raise_bitrate = λ (rate : ℕ). rate;
  size_limit = λ rate duration adjust. rate;
}

env-IsCipher : IsCipher env.decrypt
env-IsCipher key bytes h = (h, refl)

-- The handler of the output side before its start.
abbrev waiting : PacketHandler
waiting = record handler { is_ready = false; buffer_duration_ms = 0 }

abbrev input : InputHandler
input = record {
  out = waiting;
  is_sync = true;
  in_buff = [];
  last_pts_dts = [];
  last_cc = [];
  cc_errors = [];
  pat_info = [];
  pmt_info = none;
  psi_reasm = [];
  strip_ca = false;
  biss = some (1 ∷ 2 ∷ 3 ∷ 4 ∷ 5 ∷ 6 ∷ 7 ∷ 8 ∷ []);
}

waiting-OutFit : OutFit waiting
unfolding get_program frames clocks
waiting-OutFit = record {
  audio = record {
    whole = (payload_packet-IsPacket, tt);
    stamped = (omega arith, tt);
    counted = audio_counted;
  };
  video = record {
    whole = (clock_packet-IsPacket, tt);
    stamped = (omega arith, tt);
    counted = video_buffer-IsCounted;
  };
  program = program;
  first_program = refl;
}
  where
    audio_counted : IsCounted audio_buffer
    audio_counted = record { frames_counted = refl; clocks_counted = refl }

input-IsFit : IsFit input
input-IsFit = record { out_fit = waiting-OutFit; remembered = tt; received = tt }

input-IsDueToStart : IsDueToStart input
unfolding is_dirty Buffer.front Buffer.back dts_after Restamper.resync Restamper.new
input-IsDueToStart = record {
  clean = refl;
  waiting = refl;
  pat_there = refl;
  pmt_there = refl;
  sdt_there = refl;
  restamper = started;
  has_restamper = refl;
  has_rate = refl;
  first = video_packet;
  last = video_packet;
  has_first = refl;
  has_last = refl;
  in_order = refl;
  long_enough = omega arith;
}

finish-Started_example : Returns Started (finish env input)
finish-Started_example = finish-Started env input input-IsFit input-IsDueToStart

buffer_adjust-Adjusted_example :
    (g : PacketHandler) × (buffer_adjust waiting ≡ some g) × Adjusted waiting g
buffer_adjust-Adjusted_example = buffer_adjust-Adjusted waiting waiting-OutFit

first_program : get_program input.out ≡ ret program
unfolding get_program
first_program = refl

pid : pkt_pid payload_packet ≡ ret 256
unfolding pkt_pid byte_at
pid = refl

process_one-Returns_example : Returns IsFit (process_one env input payload_packet)
process_one-Returns_example =
    process_one-Returns env env-IsCipher input program payload_packet 256 input-IsFit
      payload_packet-IsPacket first_program pid refl refl refl

abbrev output : Output
output = record {
  proxy = false;
  cbr = 1_000_000;
  output_pkt_size = 1316;
  ca_unscrambled = false;
  control_word = none;
  output_programs = program ∷ [];
}

abbrev fresh : InputHandler
unfolding new
fresh = elim (new output) [ none ↦ input | some h ↦ h ]

fresh_made : new output ≡ some fresh
unfolding new fresh
fresh_made = refl

-- A null packet.
abbrev null_packet : List ℕ
null_packet = 0x47 ∷ 0x1F ∷ 0xFF ∷ 0x10 ∷ replicate 184 0xFF

-- The second chunk makes the search for sync bytes succeed.
abbrev chunks : List (List ℕ)
chunks = (null_packet ++ null_packet) ∷ null_packet ∷ []

write_all-IsFit_example : Ends IsFit (StopsAt env fresh chunks) (write_all env fresh chunks)
write_all-IsFit_example =
    write_all-IsFit env output program fresh chunks env-IsCipher refl fresh_made
      (are_bytes_lem (null_packet ++ null_packet) refl, (are_bytes_lem null_packet refl, tt))

does_return : Outcome InputHandler → Bool
does_return (ret h) = true
does_return panic = false

-- On these chunks the code returns.
chunks_return : does_return (write_all env fresh chunks) ≡ true
unfolding write_all write process process_synced packet_loop process_one finish byte_at pkt_pid
    get_program clear_packet dispatch pkt_scrambling_control is_buffer_overflow is_dirty does_return
    fresh new Buffer.size Buffer.new sync_buffer sync_loop three_syncs
chunks_return = refl

-- A packet of a synced source is handled, and the loop comes to its end.
one_packet :
    Returns (λ (s : InputHandler × Bool). s.1 ≡ true) (packet_loop 1 env input payload_packet)
unfolding packet_loop
one_packet =
    Returns-bind
      (process_one-Returns env env-IsCipher input program payload_packet 256 input-IsFit
        payload_packet-IsPacket first_program pid refl refl refl)
      λ h f. returns refl
