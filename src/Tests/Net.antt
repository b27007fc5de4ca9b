-- ===== src/Tests/Net.antt =====
-- RTP packets and BISS keys.
use mymuxer.Base.{◌≢◌, ◌⊎◌, ◌<◌, ◌≤◌, get_or, ℕ, ◌≡◌, refl, ◌<◌, ◌^◌, arith, List, [], ◌∷◌, false}
use mymuxer.Rtp.{new, chosen_ssrc, pack, unpack}
use mymuxer.Rtp.RoundTrip.{IsStarted, answer, unpack-pack}
use mymuxer.Biss.{descramble_ts_packet}
use mymuxer.Biss.Clear.{IsClear, descramble_ts_packet-IsClear}
use mymuxer.Tests.{payload_packet, payload_packet-IsPacket}

new-IsStarted : IsStarted new
unfolding new
new-IsStarted = record {
  version = refl;
  padding = refl;
  extension = refl;
  csrc_count = refl;
  marker = refl;
  payload_type = refl;
}

drawn_lt : chosen_ssrc new 77 < 2 ^ 32
unfolding chosen_ssrc new
drawn_lt = omega arith

unpack-pack_example :
    unpack new ((pack 77 5_000_000 new (1 ∷ 2 ∷ [])).1)
    ≡ answer new (chosen_ssrc new 77) (1 ∷ 2 ∷ [])
unpack-pack_example =
    unpack-pack 77 5_000_000 new new (1 ∷ 2 ∷ []) new-IsStarted new-IsStarted drawn_lt

abbrev identity_cipher : ℕ → List ℕ → List ℕ
identity_cipher key bytes = bytes

descramble_ts_packet-IsClear_example :
    (((get_or payload_packet 0 0 ≢ 0x47) ⊎ (get_or payload_packet 3 0 < 128))
      × (descramble_ts_packet identity_cipher 1 2 payload_packet ≡ (payload_packet, false)))
    ⊎ ((get_or payload_packet 0 0 ≡ 0x47)
        × (128 ≤ get_or payload_packet 3 0)
        × IsClear identity_cipher 1 2 payload_packet
            (descramble_ts_packet identity_cipher 1 2 payload_packet))
descramble_ts_packet-IsClear_example =
    descramble_ts_packet-IsClear identity_cipher 1 2 payload_packet payload_packet-IsPacket
