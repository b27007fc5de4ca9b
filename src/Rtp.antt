-- ===== src/Rtp.antt =====
-- src/proto/rtp.rs: the RTP header in front of a payload.
pub mod RoundTrip
use mymuxer.Base.{
  ℕ, ◌+◌, ◌*◌, ◌/◌, ◌%◌, ◌^◌, bit_and, bit_or, List, [], ◌∷◌, ◌++◌, Bool, true, false, not, Option,
  none, some, ltb, ◌==◌, if◌then◌else◌, length, drop, get_or,
}
use mymuxer.Psi.Encode.{be_bytes32}

-- `RtpState`. The padding, extension and marker flags are set once, like the version; `start` is not
-- kept here: the clock's elapsed nanoseconds are an argument of `pack`.
pub record RtpState : Type 0 where
  pub version : ℕ
  pub padding : Bool
  pub extension : Bool
  pub csrc_count : ℕ
  pub marker : Bool
  pub payload_type : ℕ
  pub sequence : ℕ
  pub timestamp : ℕ
  pub ssrc : ℕ

unfoldable pub new : RtpState
new = record {
  version = 2;
  padding = false;
  extension = false;
  csrc_count = 0;
  marker = false;
  payload_type = 33;
  sequence = 0;
  timestamp = 0;
  ssrc = 0;
}

unfoldable pub flag : Bool → ℕ
flag b = if b then 1 else 0

-- The errors of `unpack`.
pub data UnpackError : Type 0 where
  invalid_packet : UnpackError
  invalid_version : UnpackError
  unsupported_padding : UnpackError
  unsupported_extension : UnpackError
  unsupported_csrc_count : UnpackError
  unsupported_marker : UnpackError
  invalid_payload_type : UnpackError
  invalid_ssrc : UnpackError

pub data Result (A : Type 0) : Type 0 where
  ok : A → Result A
  err : UnpackError → Result A

-- The source drawn where none is set yet.
unfoldable pub chosen_ssrc : RtpState → ℕ → ℕ
chosen_ssrc s random = if s.ssrc == 0 then random else s.ssrc

-- `ssrc + (nanos * 90_000 / 1_000_000_000) as u32`, in 32 bits that wrap.
unfoldable pub rtp_timestamp : ℕ → ℕ → ℕ
rtp_timestamp ssrc nanos = (ssrc + nanos * 90000 / 1000000000 % 2 ^ 32) % 2 ^ 32

-- `pack`, for a drawn number of 32 bits and the nanoseconds since the start.
unfoldable pub pack : ℕ → ℕ → RtpState → List ℕ → RtpState × List ℕ
unfolding flag chosen_ssrc rtp_timestamp be_bytes32
pack random nanos s payload =
    let b0 =
      bit_or
        (bit_or (bit_or (s.version * 2 ^ 6 % 256) (flag s.padding * 2 ^ 5))
          (flag s.extension * 2 ^ 4))
        s.csrc_count in
    let b1 = bit_or (flag s.marker * 2 ^ 7) s.payload_type in
    let ssrc = chosen_ssrc s random in
    let ts = rtp_timestamp ssrc nanos in
    let s' : RtpState = record {
      version = s.version;
      padding = s.padding;
      extension = s.extension;
      csrc_count = s.csrc_count;
      marker = s.marker;
      payload_type = s.payload_type;
      sequence = (s.sequence + 1) % 2 ^ 16;
      timestamp = ts;
      ssrc = ssrc;
    } in
    (
      s',
      b0
          ∷ b1
          ∷ (s.sequence / 2 ^ 8 % 256)
          ∷ (s.sequence % 256)
          ∷ (be_bytes32 ts ++ (be_bytes32 ssrc ++ payload)),
    )

-- `u32::from_be_bytes`
unfoldable pub from_be_bytes32 : ℕ → ℕ → ℕ → ℕ → ℕ
from_be_bytes32 b0 b1 b2 b3 = b0 * 2 ^ 24 + b1 * 2 ^ 16 + b2 * 2 ^ 8 + b3

unfoldable pub with_ssrc : RtpState → ℕ → RtpState
with_ssrc s ssrc = record {
  version = s.version;
  padding = s.padding;
  extension = s.extension;
  csrc_count = s.csrc_count;
  marker = s.marker;
  payload_type = s.payload_type;
  sequence = s.sequence;
  timestamp = s.timestamp;
  ssrc = ssrc;
}

-- `unpack`: the first sender's source is kept, and others are refused.
unfoldable pub unpack : RtpState → List ℕ → RtpState × Result (List ℕ)
unfolding from_be_bytes32 with_ssrc
unpack s packet =
    let b0 = get_or packet 0 0 in
    let b1 = get_or packet 1 0 in
    let ssrc =
      from_be_bytes32 (get_or packet 8 0) (get_or packet 9 0) (get_or packet 10 0)
        (get_or packet 11 0) in
    if ltb (length packet) 12
    then (s, err invalid_packet)
    else if not (b0 / 2 ^ 6 == s.version)
    then (s, err invalid_version)
    else if not (bit_and b0 0x20 == 0)
    then (s, err unsupported_padding)
    else if not (bit_and b0 0x10 == 0)
    then (s, err unsupported_extension)
    else if not (bit_and b0 0x0F == 0)
    then (s, err unsupported_csrc_count)
    else if not (bit_and b1 0x80 == 0)
    then (s, err unsupported_marker)
    else if not (bit_and b1 0x7F == s.payload_type)
    then (s, err invalid_payload_type)
    else if s.ssrc == 0
    then (with_ssrc s ssrc, ok (drop 12 packet))
    else if ssrc == s.ssrc
    then (s, ok (drop 12 packet))
    else (s, err invalid_ssrc)
