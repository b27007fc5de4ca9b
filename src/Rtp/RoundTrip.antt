-- ===== src/Rtp/RoundTrip.antt =====
-- What `pack` sends, `unpack` takes, but for another sender's packets.
use mymuxer.Base.{ℕ, ◌/◌, ◌%◌, ◌^◌, ◌<◌, ◌≡◌, arith, List, false, ◌==◌, if◌then◌else◌}
use mymuxer.Psi.Encode.{be_bytes32}
use mymuxer.Rtp.{
  RtpState, Result, ok, err, invalid_ssrc, chosen_ssrc, flag, pack, from_be_bytes32, with_ssrc,
  unpack,
}

-- The settings of `new`, and whatever its counters have come to.
pub record IsStarted (s : RtpState) : Type 0 where
  pub version : s.version ≡ 2
  pub padding : s.padding ≡ false
  pub extension : s.extension ≡ false
  pub csrc_count : s.csrc_count ≡ 0
  pub marker : s.marker ≡ false
  pub payload_type : s.payload_type ≡ 33

-- The number read back from four bytes.
from_be_bytes32-be_bytes32 :
    (n : ℕ)
    → n < 2 ^ 32
    → from_be_bytes32 (n / 2 ^ 24 % 256) (n / 2 ^ 16 % 256) (n / 2 ^ 8 % 256) (n % 256) ≡ n
unfolding from_be_bytes32
from_be_bytes32-be_bytes32 n h = omega arith

-- What the receiver answers to a packet of this source.
pub answer : RtpState → ℕ → List ℕ → RtpState × Result (List ℕ)
answer r ssrc payload =
    if r.ssrc == 0
    then (with_ssrc r ssrc, ok payload)
    else if ssrc == r.ssrc
    then (r, ok payload)
    else (r, err invalid_ssrc)

-- Of a packet that a sender of the same settings packed, whose source fits into 32 bits: a receiver
-- without a source, which is the source 0, reads back the payload and takes on the sender's, even a 0;
-- a receiver with a source keeps it, reads back the payload if the packet is from that source, and
-- answers with an error if it is from another.
pub unpack-pack :
    (random nanos : ℕ) (s r : RtpState) (payload : List ℕ)
    → IsStarted s
    → IsStarted r
    → chosen_ssrc s random < 2 ^ 32
    → unpack r ((pack random nanos s payload).1) ≡ answer r (chosen_ssrc s random) payload
unfolding unpack pack flag answer be_bytes32
unpack-pack random nanos s r payload vs vr fits = ground (
  arith,
  vs.version,
  vs.padding,
  vs.extension,
  vs.csrc_count,
  vs.marker,
  vs.payload_type,
  vr.version,
  vr.payload_type,
  from_be_bytes32-be_bytes32 (chosen_ssrc s random) fits,
)

-- The sender and the receiver stay as they were set up.
pub pack-IsStarted :
    (random nanos : ℕ) (s : RtpState) (payload : List ℕ)
    → IsStarted s
    → IsStarted ((pack random nanos s payload).0)
unfolding pack
pack-IsStarted random nanos s payload v = record {
  version = v.version;
  padding = v.padding;
  extension = v.extension;
  csrc_count = v.csrc_count;
  marker = v.marker;
  payload_type = v.payload_type;
}
