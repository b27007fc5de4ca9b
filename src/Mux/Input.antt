-- ===== src/Mux/Input.antt =====
-- src/mux.rs: the input side of `PacketHandler`, which finds the packets in the bytes received,
-- keeps the tables, and puts the packets of audio and video into the two buffers. `out` holds the
-- fields that the output side shares. Messages and statistics are left out.
pub mod Tables
pub mod Media
pub mod Ready
pub mod Receive
pub mod Fit
pub mod MediaFit
pub mod TablesFit
pub mod Adjust
pub mod Start
pub mod Safe
pub mod Chunks
pub mod Stops
use mymuxer.Base.{
  ℕ, zero, suc, ◌+◌, ◌-◌, ◌*◌, ◌/◌, List, [], ◌∷◌, Bool, true, false, not, ◌&&◌, ◌||◌, Option, none,
  some, leb, ltb, ◌==◌, if◌then◌else◌, length, replicate, min, max, Outcome, ret, panic,
}
use mymuxer.Packet.{ts_packet_size}
use mymuxer.Psi.Section.{SectionReassemblerMap}
use mymuxer.Psi.Pat.{PatInfo}
use mymuxer.Psi.Pmt.{PmtInfo}
use mymuxer.Mux.Buffer
use mymuxer.Mux.Restamper
use mymuxer.Mux.Restamper.{PcrRestamper}
use mymuxer.Mux.Handler.{Program, PacketHandler}

-- Code outside the repository: the CRC, the cipher (on a control word and a payload), the decoders
-- of character sets and the trimming of white space. The last two are computed in floating point:
-- `(bitrate as f64 * 1.2 * 1024.00) as u64`, and the size that a bit rate fills in
-- `buffer_duration * (1.00 + adjust_buf / 100.00) + 500` milliseconds.
pub record Env : Type 0 where
  pub crc32 : List ℕ → ℕ
  pub decrypt : List ℕ → List ℕ → List ℕ
  pub iso_8859_5 : List ℕ → List ℕ
  pub utf_16be : List ℕ → List ℕ
  pub utf8_lossy : List ℕ → List ℕ
  pub trim : List ℕ → List ℕ
  pub raise_bitrate : ℕ → ℕ
  pub size_limit : ℕ → ℕ → ℕ → ℕ

-- `strip_ca` is the test of `output.ca_flag`, and `biss` the control word of the BISS key, if any:
-- both keys of the descrambler are set from it.
pub record InputHandler : Type 0 where
  pub out : PacketHandler
  pub is_sync : Bool
  pub in_buff : List ℕ
  pub last_pts_dts : List (ℕ × (ℕ × ℕ))
  pub last_cc : List (ℕ × ℕ)
  pub cc_errors : List (ℕ × ℕ)
  pub pat_info : List PatInfo
  pub pmt_info : Option PmtInfo
  pub psi_reasm : SectionReassemblerMap
  pub strip_ca : Bool
  pub biss : Option (List ℕ)

-- `get` and `insert` of a map.
module _ {ℓ} {A : Type ℓ} where
  abbrev pub lookup : List (ℕ × A) → ℕ → Option A
  lookup [] key = none
  lookup ((k, a) ∷ m) key = if k == key then some a else lookup m key

  abbrev pub put : List (ℕ × A) → ℕ → A → List (ℕ × A)
  put [] key a = (key, a) ∷ []
  put ((k, b) ∷ m) key a = if k == key then (key, a) ∷ m else (k, b) ∷ put m key a

abbrev pub elem : ℕ → List ℕ → Bool
elem a [] = false
elem a (b ∷ more) = (a == b) || elem a more

abbrev pub of_option {ℓ} : {A : Type ℓ} → Option A → Outcome A
of_option none = panic
of_option (some a) = ret a

abbrev pub max_buffer_size : ℕ
max_buffer_size = 10 * 1024 * 1024

-- What `PacketHandler::new` reads of the configuration.
pub record Output : Type 0 where
  pub proxy : Bool
  pub cbr : ℕ
  pub output_pkt_size : ℕ
  pub ca_unscrambled : Bool
  pub control_word : Option (List ℕ)
  pub output_programs : List Program

-- `jitter.clamp(MIN_JITTER_MS, MAX_JITTER_MS)`
unfoldable pub clamp_jitter : ℕ → ℕ
clamp_jitter jitter = max 30 (min jitter 1000)

abbrev pub zeros_for : List ℕ → List (ℕ × ℕ) → List (ℕ × ℕ)
zeros_for [] m = m
zeros_for (pid ∷ pids) m = zeros_for pids (put m pid 0)

-- The handler of one program, or of none.
unfoldable pub new_handler : Output → (duration jitter adjust : ℕ) → List (ℕ × ℕ) → InputHandler
new_handler o duration jitter adjust cc_errors = record {
  out = record {
    pkt_size = o.output_pkt_size;
    programs = o.output_programs;
    is_ready = false;
    out_buff_v = Buffer.new;
    out_buff_a = Buffer.new;
    max_buff_size = max_buffer_size;
    buffer_duration_ms = duration;
    jitter_ms = jitter;
    adjust_buf = adjust;
    pat = replicate ts_packet_size 0;
    pmt = replicate ts_packet_size 0;
    sdt = replicate ts_packet_size 0;
    pat_ready = false;
    pmt_ready = false;
    sdt_ready = false;
    insert_pat = none;
    insert_pmt = none;
    insert_sdt = none;
    count_psi_packets = 0;
    count_null_packets = 0;
    count_payload_packets = 0;
    count_adjust_packets_null = 0;
    count_adjust_packets_payload = 0;
    pcr_restamper = if not o.proxy then some (Restamper.new o.cbr) else none;
    dirty_pat = false;
    dirty_pmt = false;
    dirty_ca = false;
  };
  is_sync = false;
  in_buff = [];
  last_pts_dts = [];
  last_cc = [];
  cc_errors = cc_errors;
  pat_info = [];
  pmt_info = none;
  psi_reasm = [];
  strip_ca = o.ca_unscrambled;
  biss = o.control_word;
}

-- `PacketHandler::new`; several programs are refused.
unfoldable pub new : Output → Option InputHandler
unfolding new_handler clamp_jitter
new o = elim o.output_programs [
  | [] ↦ some (new_handler o 0 0 0 [])
  | p ∷ ps ↦ elim ps [
    | [] ↦ some (
        new_handler o p.buffer_duration (clamp_jitter p.jitter) p.adjust_buf
          (zeros_for p.video_pids (zeros_for p.audio_pids [])))
    | q ∷ qs ↦ none
  ]
]

unfoldable pub buffers_clear : InputHandler → InputHandler
buffers_clear h = record h {
  out = record h.out {
    is_ready = false;
    out_buff_v = Buffer.clear h.out.out_buff_v;
    out_buff_a = Buffer.clear h.out.out_buff_a;
    max_buff_size = max_buffer_size;
  };
  last_pts_dts = [];
}
