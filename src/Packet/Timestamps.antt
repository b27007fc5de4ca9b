-- ===== src/Packet/Timestamps.antt =====
-- PES time stamps of src/packet.rs: `pkt_pts_dts` and the five-byte stamp.
use mymuxer.Base.{
  ℕ, ◌+◌, ◌*◌, ◌/◌, ◌%◌, ◌^◌, ◌≤◌, ◌<◌, ◌≡◌, refl, List, [], ◌∷◌, ◌++◌, length, get_or, Option,
  some, none, bit_and, bit_or, ret, All, arith, byte_at-append_right, byte_at-append_start, Returns,
  returns, Returns-eq, Returns-if, Returns-bind, Returns-eq_ret, Returns-byte_at, get_or-All, not,
  ◌&&◌, ◌||◌, ltb, leb, ◌==◌,
}
use mymuxer.Base.Bits.{bit_and_mid, bit_or_disjoint}
use mymuxer.Packet.Fields.{pkt_pid_lem}
use mymuxer.Packet.{
  IsPacket, IsByte, is_media_stream, read_stamp, read_dts, stamp_offset, pes_pts_dts, pkt_pts_dts,
}

-- The 33-bit value of five stamp bytes: three, eight, seven, eight and seven bits.
abbrev pub stamp_value : ℕ → ℕ → ℕ → ℕ → ℕ → ℕ
stamp_value b0 b1 b2 b3 b4 =
    b0 / 2 % 8 * 2 ^ 30 + b1 * 2 ^ 22 + b2 / 2 % 128 * 2 ^ 15 + b3 * 2 ^ 7 + b4 / 2 % 128

join_stamp :
    (b0 b1 b2 b3 b4 : ℕ)
    → b1 < 256
    → b3 < 256
    → bit_or
        (bit_or
          (bit_or (bit_or (bit_and b0 0x0E * 2 ^ 29) (b1 * 2 ^ 22)) (bit_and b2 0xFE * 2 ^ 14))
          (b3 * 2 ^ 7))
        (bit_and b4 0xFE / 2)
      ≡ stamp_value b0 b1 b2 b3 b4
join_stamp b0 b1 b2 b3 b4 h1 h3 = ground (
  arith,
  bit_and_mid 1 3 b0,
  bit_and_mid 1 7 b2,
  bit_and_mid 1 7 b4,
  bit_or_disjoint 30 (b0 / 2 % 8 * 2 ^ 30) (b1 * 2 ^ 22),
  bit_or_disjoint 22 (b0 / 2 % 8 * 2 ^ 30 + b1 * 2 ^ 22) (b2 / 2 % 128 * 2 ^ 15),
  bit_or_disjoint 15 (b0 / 2 % 8 * 2 ^ 30 + b1 * 2 ^ 22 + b2 / 2 % 128 * 2 ^ 15) (b3 * 2 ^ 7),
  bit_or_disjoint 7 (b0 / 2 % 8 * 2 ^ 30 + b1 * 2 ^ 22 + b2 / 2 % 128 * 2 ^ 15 + b3 * 2 ^ 7)
      (b4 / 2 % 128),
)

-- A stamp inside the packet is read without a panic, and fits 33 bits.
read_stamp-lt :
    (p : List ℕ) (off : ℕ)
    → All IsByte p
    → off + 5 ≤ length p
    → Returns (λ v. v < 2 ^ 33) (read_stamp p off)
unfolding read_stamp
read_stamp-lt p off bytes h = Returns-byte_at p off _ (omega arith) (
    Returns-byte_at p (off + 1) _ (omega arith) (
      Returns-byte_at p (off + 2) _ (omega arith) (
        Returns-byte_at p (off + 3) _ (omega arith) (
          Returns-byte_at p (off + 4) _ (omega arith) (
            returns (
              rw
                (join_stamp (get_or p off 0) (get_or p (off + 1) 0) (get_or p (off + 2) 0)
                  (get_or p (off + 3) 0) (get_or p (off + 4) 0) b1 b3)
                (omega (arith, b1, b3))))))))
  where
    b1 : get_or p (off + 1) 0 < 256
    b1 = get_or-All IsByte p (off + 1) 0 bytes (omega arith)

    b3 : get_or p (off + 3) 0 < 256
    b3 = get_or-All IsByte p (off + 3) 0 bytes (omega arith)

-- The five bytes that carry the stamp `v` behind the four bits `prefix`, with the marker bits set.
abbrev pub encode_stamp : ℕ → ℕ → List ℕ
encode_stamp prefix v =
    (prefix * 16 + v / 2 ^ 30 * 2 + 1)
    ∷ (v / 2 ^ 22 % 256)
    ∷ (v / 2 ^ 15 % 128 * 2 + 1)
    ∷ (v / 2 ^ 7 % 256)
    ∷ (v % 128 * 2 + 1)
    ∷ []

-- A time stamp of 33 bits laid out as the PES header prescribes is read back, wherever it stands.
pub read_stamp-encode_stamp :
    (front back : List ℕ) (prefix v : ℕ)
    → v < 2 ^ 33
    → read_stamp (front ++ (encode_stamp prefix v ++ back)) (length front) ≡ ret v
unfolding read_stamp
read_stamp-encode_stamp front back prefix v h = ground (
  arith,
  byte_at-append_start front bytes (prefix * 16 + v / 2 ^ 30 * 2 + 1) refl,
  byte_at-append_right front bytes 1 (v / 2 ^ 22 % 256) refl,
  byte_at-append_right front bytes 2 (v / 2 ^ 15 % 128 * 2 + 1) refl,
  byte_at-append_right front bytes 3 (v / 2 ^ 7 % 256) refl,
  byte_at-append_right front bytes 4 (v % 128 * 2 + 1) refl,
  join_stamp (prefix * 16 + v / 2 ^ 30 * 2 + 1) (v / 2 ^ 22 % 256) (v / 2 ^ 15 % 128 * 2 + 1)
      (v / 2 ^ 7 % 256) (v % 128 * 2 + 1) (omega arith) (omega arith),
)
  where
    bytes : List ℕ
    bytes = encode_stamp prefix v ++ back

-- What `pkt_pts_dts` may answer: nothing, or two stamps of 33 bits.
abbrev pub InRange : Option (ℕ × ℕ) → Type 0
InRange none = Unit {0}
InRange (some (pts, dts)) = (pts < 2 ^ 33) × (dts < 2 ^ 33)

read_dts-lt :
    (p : List ℕ) (offset flags pts : ℕ)
    → IsPacket p
    → pts < 2 ^ 33
    → Returns (λ v. v < 2 ^ 33) (read_dts p offset flags pts)
unfolding read_dts
read_dts-lt p offset flags pts v h =
    Returns-if (flags == 3)
      (λ _.
        Returns-if (leb 188 (offset + 14 + 4)) (λ _. returns h)
          (λ k. read_stamp-lt p (offset + 14) v.bytes (ground (arith, v.size))))
      (λ _. returns h)

pes_pts_dts-InRange :
    (p : List ℕ) (offset : ℕ) → IsPacket p → Returns InRange (pes_pts_dts p offset)
unfolding pes_pts_dts
pes_pts_dts-InRange p offset v =
    let b : ℕ → ℕ = λ i. get_or p (offset + i) 0 in
    Returns-if (ltb 188 (offset + 14)) (λ _. returns tt)
      λ fits.
        let inside : offset + 14 ≤ 188 = ground arith in
        Returns-byte_at p offset _ (omega arith) (
          Returns-byte_at p (offset + 1) _ (omega arith) (
            Returns-byte_at p (offset + 2) _ (omega arith) (
              Returns-if (not (get_or p offset 0 == 0 && (b 1 == 0 && b 2 == 1))) (λ _. returns tt)
                λ _. Returns-byte_at p (offset + 3) _ (omega arith) (
                  Returns-if (not (is_media_stream (b 3))) (λ _. returns tt)
                    λ _. Returns-byte_at p (offset + 7) _ (omega arith) (
                      Returns-if (ltb (bit_and (b 7) 0xC0 / 64) 2 || leb 188 (offset + 9 + 4))
                        (λ _. returns tt)
                        λ _.
                          Returns-bind (read_stamp-lt p (offset + 9) v.bytes (omega arith))
                            (λ pts hp.
                              Returns-bind (read_dts-lt p offset _ pts v hp)
                                (λ dts hd. returns (hp, hd))))))))

stamp_offset-ret :
    (p : List ℕ) (control : ℕ) → IsPacket p → Returns (λ _. Unit {0}) (stamp_offset p control)
unfolding stamp_offset
stamp_offset-ret p control v =
    Returns-if (control == 1) (λ _. returns tt)
      λ _.
        Returns-if (not (control == 3)) (λ _. returns tt)
          λ _. Returns-byte_at p 4 _ (omega arith) (returns tt)

pes_at :
    (p : List ℕ) (o : Option ℕ)
    → IsPacket p
    → Returns InRange (elim o [ none ↦ ret none | some off ↦ pes_pts_dts p off ])
pes_at p none v = returns tt
pes_at p (some off) v = pes_pts_dts-InRange p off v

-- On every packet `pkt_pts_dts` returns, whatever its header claims, and what it finds are stamps of
-- 33 bits.
pub pkt_pts_dts-InRange :
    (p : List ℕ) (pid : ℕ)
    → IsPacket p
    → (r : Option (ℕ × ℕ)) × (pkt_pts_dts p pid ≡ ret r) × InRange r
unfolding pkt_pts_dts
pkt_pts_dts-InRange p pid v = Returns-eq (
    Returns-if (ltb (length p) 188) (λ _. returns tt)
      λ _. Returns-byte_at p 0 _ (omega arith) (
        Returns-if (not (get_or p 0 0 == 0x47)) (λ _. returns tt)
          λ _. Returns-eq_ret _ (pkt_pid_lem p (omega arith) v.bytes) (
            Returns-if (not (get_or p 1 0 % 32 * 256 + get_or p 2 0 == pid)) (λ _. returns tt)
              λ _. Returns-byte_at p 1 _ (omega arith) (
                Returns-if (bit_and (get_or p 1 0) 0x40 == 0) (λ _. returns tt)
                  λ _.
                    Returns-byte_at p 3 _ (omega arith)
                      (Returns-bind (stamp_offset-ret p _ v) (λ o _. pes_at p o v))))))
