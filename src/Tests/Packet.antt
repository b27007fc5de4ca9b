-- ===== src/Tests/Packet.antt =====
-- The fields of a packet.
use mymuxer.Base.{ℕ, ◌≡◌, List, [], ◌∷◌, Option, ret}
use mymuxer.Packet.{pkt_write_pcr, pkt_pts_dts}
use mymuxer.Packet.Clock.{Restamped, pkt_extract_pcr-write_pcr}
use mymuxer.Packet.Timestamps.{InRange, pkt_pts_dts-InRange}
use mymuxer.Tests.{
  clock_packet, clock_packet-IsPacket, clock_packet_present, payload_packet,
  payload_packet-IsPacket,
}

pkt_extract_pcr-write_pcr_example :
    (q : List ℕ) × (pkt_write_pcr clock_packet 2_000_000_000 ≡ ret q)
    × Restamped clock_packet q 2_000_000_000
pkt_extract_pcr-write_pcr_example =
    pkt_extract_pcr-write_pcr clock_packet 2_000_000_000 clock_packet-IsPacket clock_packet_present

pkt_pts_dts-InRange_example :
    (r : Option (ℕ × ℕ)) × (pkt_pts_dts payload_packet 0x100 ≡ ret r) × InRange r
pkt_pts_dts-InRange_example = pkt_pts_dts-InRange payload_packet 0x100 payload_packet-IsPacket

abbrev front_bytes : List ℕ
front_bytes = 0x80 ∷ 0x80 ∷ 5 ∷ []
