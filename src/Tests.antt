-- ===== src/Tests.antt =====
-- Concrete packets on which the tests run.
mod Psi
mod Packet
mod Mux
mod Input
mod Pes
mod Net
mod Control
mod Epg
mod Hls
mod Sps
mod HttpRouter
use mymuxer.Base.{
  ℕ, zero, suc, ◌<◌, ◌≡◌, refl, arith, List, [], ◌∷◌, ltb, ◌&&◌, replicate, All, length, Bool, true,
  false, Option, none, some, ret, byte_at, Outcome,
}
use mymuxer.Packet.{IsByte, IsPacket, pkt_is_pcr_present}

-- Bytes, decided.
abbrev pub are_bytes : List ℕ → Bool
are_bytes [] = true
are_bytes (b ∷ bs) = ltb b 256 && are_bytes bs

pub are_bytes_lem : (bs : List ℕ) → are_bytes bs ≡ true → All IsByte bs
are_bytes_lem [] h = tt
are_bytes_lem (b ∷ bs) h =
    let both : (b < 256) × (are_bytes bs ≡ true) = ground arith in (both.0, are_bytes_lem bs both.1)

-- An adaptation field with a clock, and padding.
abbrev pub clock_packet : List ℕ
clock_packet = 0x47 ∷ 0x01 ∷ 0x00 ∷ 0x2E ∷ 183 ∷ 0x10 ∷ 1 ∷ 2 ∷ 3 ∷ 4 ∷ 5 ∷ 6 ∷ replicate 176 0xFF

pub clock_packet-IsPacket : IsPacket clock_packet
clock_packet-IsPacket = record { size = refl; bytes = are_bytes_lem clock_packet refl }

pub clock_packet_present : pkt_is_pcr_present clock_packet ≡ ret true
unfolding pkt_is_pcr_present byte_at
clock_packet_present = refl

-- A payload and nothing else, scrambled.
abbrev pub payload_packet : List ℕ
payload_packet =
    0x47 ∷ 0x41 ∷ 0x00 ∷ 0x9F ∷ 0 ∷ 0 ∷ 1 ∷ 0xE0 ∷ 0 ∷ 0 ∷ 0x80 ∷ 0xC0 ∷ replicate 176 0xFF

pub payload_packet-IsPacket : IsPacket payload_packet
payload_packet-IsPacket = record { size = refl; bytes = are_bytes_lem payload_packet refl }
