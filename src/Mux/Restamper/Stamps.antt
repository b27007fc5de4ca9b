-- ===== src/Mux/Restamper/Stamps.antt =====
-- What the restamper writes into a packet, and the clock that it then shows.
use mymuxer.Base.{
  ℕ, ◌*◌, ◌%◌, ◌^◌, ◌<◌, ◌≡◌, refl, arith, List, Bool, true, false, none, some, ret, ◌⊎◌,
  Option-cases, inl, inr,
}
use native.Mathlib.Nat.{zero-div}
use mymuxer.Packet.{IsPacket, pkt_is_pcr_present, pkt_extract_pcr}
use mymuxer.Packet.Clock.{Restamped, pkt_extract_pcr-write_pcr}
use mymuxer.Mux.Timing.{pcr_normalize, pcr_cycle}
use mymuxer.Mux.Restamper.{PcrRestamper, resync, get_raw_pcr, get_pcr, process_packet}

-- The clock shown stays within the cycle.
pub get_pcr-lt : (r : PcrRestamper) (v : ℕ) → get_pcr r ≡ some v → v < pcr_cycle
unfolding get_pcr pcr_normalize
get_pcr-lt r v h = elim (Option-cases (get_raw_pcr r)) [
  | inl e ↦ ground arith
  | inr (raw, e) ↦ ground arith
]

-- With no packet sent since, the clock shows the value it was set to.
get_pcr-start :
    (bitrate v : ℕ)
    → v < pcr_cycle
    → get_pcr
        (record { target_bitrate_bps = bitrate; total_packets_sent = 0; first_pcr_value = some v })
      ≡ some v
unfolding get_pcr get_raw_pcr pcr_normalize
get_pcr-start bitrate v h = ground (arith, zero-div bitrate)

-- After a resynchronisation to a DTS of 33 bits the clock shows it in ticks of 27 MHz.
pub get_pcr-resync :
    (r : PcrRestamper) (dts : ℕ) → dts < 2 ^ 33 → get_pcr (resync r dts) ≡ some (dts * 300)
unfolding resync pcr_normalize
get_pcr-resync r dts h =
    let e : dts * 300 % 2 ^ 64 % pcr_cycle ≡ dts * 300 = omega arith in
    rw e (get_pcr-start r.target_bitrate_bps (dts * 300) (omega arith))

-- What `process_packet` does to a packet that carries a clock while the restamper shows `v`.
pub record Stamped (r r' : PcrRestamper) (p q : List ℕ) (v : ℕ) : Type 0 where
  pub packet : Restamped p q v
  pub written : pkt_extract_pcr q ≡ ret (some v)
  pub shown : get_pcr r' ≡ some v
  pub rate : r'.target_bitrate_bps ≡ r.target_bitrate_bps
  pub restarted : r'.total_packets_sent ≡ 0

-- A packet of 188 bytes that carries a clock, sent while the restamper shows one, gets the
-- restamper's; the restamper keeps its rate and starts again from there; the bytes of the packet
-- before and behind the clock stay.
pub process_packet-Stamped :
    (r : PcrRestamper) (p : List ℕ) (v : ℕ)
    → IsPacket p
    → pkt_is_pcr_present p ≡ ret true
    → get_pcr r ≡ some v
    → (r' : PcrRestamper) × (q : List ℕ) × (process_packet r p ≡ ret (r', q, some v))
      × Stamped r r' p q v
unfolding process_packet
process_packet-Stamped r p v packet present clock =
    let (q, e, s) = pkt_extract_pcr-write_pcr p v packet present in
    let lt : v < pcr_cycle = get_pcr-lt r v clock in
    let same : v % pcr_cycle ≡ v = omega arith in
    (
      record r { total_packets_sent = 0; first_pcr_value = some v },
      q,
      rw (present, clock, e),
      record {
        packet = s;
        written = rw same at s.clock;
        shown = get_pcr-start r.target_bitrate_bps v lt;
        rate = refl;
        restarted = refl;
      },
    )

-- A packet without a clock, and any packet before the first resynchronisation, passes unchanged.
pub process_packet-passes :
    (r : PcrRestamper) (p : List ℕ) (present : Bool)
    → pkt_is_pcr_present p ≡ ret present
    → (present ≡ false) ⊎ (get_pcr r ≡ none)
    → process_packet r p ≡ ret (r, p, none)
unfolding process_packet
process_packet-passes r p present e h = ground arith
