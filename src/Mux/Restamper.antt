-- ===== src/Mux/Restamper.antt =====
-- src/mux.rs: `PcrRestamper` derives the clock from the packets sent at the target bit rate, and
-- writes it into the packets that carry one.
pub mod Stamps
pub mod Drift
use mymuxer.Base.{
  ℕ, ◌+◌, ◌*◌, ◌/◌, ◌%◌, ◌^◌, List, Bool, true, false, not, Option, none, some, ◌==◌, if◌then◌else◌,
  Outcome, ret, ◌>>=◌,
}
use mymuxer.Packet.{ts_packet_size, pkt_is_pcr_present, pkt_extract_pcr, pkt_write_pcr}
use mymuxer.Mux.Timing.{pcr_normalize}

pub record PcrRestamper : Type 0 where
  pub target_bitrate_bps : ℕ
  pub total_packets_sent : ℕ
  pub first_pcr_value : Option ℕ

abbrev pub pcr_hz : ℕ
pcr_hz = 27_000_000

unfoldable pub new : ℕ → PcrRestamper
new bitrate_bps = record {
  target_bitrate_bps = bitrate_bps;
  total_packets_sent = 0;
  first_pcr_value = none;
}

-- `dts_90k * 300` is a `u64`.
unfoldable pub resync : PcrRestamper → ℕ → PcrRestamper
resync r dts_90k = record r {
  first_pcr_value = some (pcr_normalize (dts_90k * 300 % 2 ^ 64));
  total_packets_sent = 0;
}

-- Ticks of 27 MHz that `total` packets take. The product is a `u128`, which it fits.
unfoldable pub ticks_sent : ℕ → ℕ → ℕ
ticks_sent total bitrate = total * ts_packet_size * 8 * pcr_hz / bitrate

unfoldable pub get_raw_pcr : PcrRestamper → Option ℕ
unfolding ticks_sent
get_raw_pcr r = elim r.first_pcr_value [
  | none ↦ none
  | some last_pcr ↦
      if not (r.target_bitrate_bps == 0)
      then some
          ((ticks_sent r.total_packets_sent r.target_bitrate_bps % 2 ^ 64 + last_pcr) % 2 ^ 64)
      else some last_pcr
]

unfoldable pub get_pcr : PcrRestamper → Option ℕ
get_pcr r = elim (get_raw_pcr r) [ none ↦ none | some pcr ↦ some (pcr_normalize pcr) ]

-- The restamper and the packet afterwards, and the clock written.
unfoldable pub process_packet : PcrRestamper → List ℕ → Outcome (PcrRestamper × List ℕ × Option ℕ)
process_packet r packet = do
  present ← pkt_is_pcr_present packet
  if not present then ret (r, packet, none) else elim (get_pcr r) [
    | none ↦ ret (r, packet, none)
    | some new_pcr ↦ do
      packet' ← pkt_write_pcr packet new_pcr
      let r' = record r { total_packets_sent = 0; first_pcr_value = some new_pcr }
      ret (r', packet', some new_pcr)
  ]
