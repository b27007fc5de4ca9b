-- ===== src/Biss/Clear.antt =====
-- What descrambling makes of a packet.
use mymuxer.Base.{
  ◌*◌, ◌/◌, sym, ◌≢◌, ◌⊎◌, inl, inr, Bool-cases, drop, drop-set, drop-append_left, get_or-set_ne,
  get_or-append_left, get_or-take, ltb_false→le, ◌++◌, ℕ, ◌+◌, ◌%◌, ◌≤◌, ◌<◌, ◌≡◌, refl, ap, arith,
  bit_and, List, Bool, true, false, not, ◌||◌, ltb, ◌==◌, if◌then◌else◌, length, get_or, set, take,
  length-append, length-take, get_or-All, ◌∙◌, get_or-set_self,
}
use mymuxer.Base.Bits.{bit_and_low, bit_and_mid}
use mymuxer.Packet.{IsByte, IsPacket, ts_packet_size}
use mymuxer.Biss.{payload_offset, descramble_ts_packet}

cleared : (b : ℕ) → b < 256 → bit_and (bit_and b 0x3F) 0xC0 ≡ 0
cleared b h = ground (arith, bit_and_low 6 b, bit_and_mid 6 2 (b % 64))

payload_offset-ge : (p : List ℕ) → 4 ≤ payload_offset p
unfolding payload_offset
payload_offset-ge p = ground arith

-- The bits of byte 3 tell whether a packet is scrambled.
bits_scrambled : (b : ℕ) → b < 256 → (bit_and b 0xC0 == 0 || bit_and b 0xC0 == 0x40) ≡ ltb b 128
bits_scrambled b h =
    let high : bit_and b 0xC0 ≡ b / 64 % 4 * 64 = bit_and_mid 6 2 b in rw high (ground arith)

module _ {Key : Type 0} (decrypt : Key → List ℕ → List ℕ) (key_even key_odd : Key) where
  -- The key that byte 3 asks for.
  abbrev pub key_of : List ℕ → Key
  key_of p = if bit_and (get_or p 3 0) 0xC0 == 0x80 then key_even else key_odd

  -- The payload is too short to be scrambled.
  abbrev pub too_short : List ℕ → Bool
  too_short p = ltb ts_packet_size (payload_offset p + 8)

  -- What a scrambled packet `p` becomes.
  pub record IsClear (p : List ℕ) (r : List ℕ × Bool) : Type 0 where
    pub marked_clear : get_or r.0 3 0 ≡ get_or p 3 0 % 64
    pub header : (i : ℕ) → i < payload_offset p → i < 188 → i ≢ 3 → get_or r.0 i 0 ≡ get_or p i 0
    pub payload : drop (payload_offset p) r.0 ≡ (
        if too_short p
        then drop (payload_offset p) p
        else decrypt (key_of p) (drop (payload_offset p) p))
    pub told : r.1 ≡ not (too_short p)
    pub again : descramble_ts_packet decrypt key_even key_odd r.0 ≡ (r.0, false)

  settled :
      (q : List ℕ)
      → bit_and (get_or q 3 0) 0xC0 ≡ 0
      → descramble_ts_packet decrypt key_even key_odd q ≡ (q, false)
  unfolding descramble_ts_packet
  settled q h = ground (arith, h)

  -- The bits are cleared in bytes that go on as the packet does.
  cleared_in :
      (p xs : List ℕ) (flag : Bool)
      → IsPacket p
      → 4 ≤ length xs
      → ((i : ℕ) → i < payload_offset p → i < 188 → i ≢ 3 → get_or xs i 0 ≡ get_or p i 0)
      → drop (payload_offset p) xs ≡ (
          if too_short p
          then drop (payload_offset p) p
          else decrypt (key_of p) (drop (payload_offset p) p))
      → flag ≡ not (too_short p)
      → IsClear p (set xs 3 (bit_and (get_or p 3 0) 0x3F), flag)
  cleared_in p xs flag v h same payload told =
      let b = bit_and (get_or p 3 0) 0x3F in
      let byte = get_or-All IsByte p 3 0 v.bytes (omega (arith, v.size)) in
      let at3 = get_or-set_self xs 3 b 0 (omega arith) in
      record {
        marked_clear = at3 ∙ bit_and_low 6 (get_or p 3 0);
        header = λ i k l n. get_or-set_ne xs 3 i b 0 (λ e. n (sym e)) ∙ same i k l n;
        payload = drop-set (payload_offset p) 3 xs b (omega (arith, payload_offset-ge p)) ∙ payload;
        told = told;
        again = settled (set xs 3 b) (ap (λ n. bit_and n 0xC0) at3 ∙ cleared (get_or p 3 0) byte);
      }

  scrambled-IsClear :
      (p : List ℕ)
      → IsPacket p
      → (get_or p 0 0 == 0x47) ≡ true
      → (bit_and (get_or p 3 0) 0xC0 == 0 || bit_and (get_or p 3 0) 0xC0 == 0x40) ≡ false
      → IsClear p (descramble_ts_packet decrypt key_even key_odd p)
  unfolding descramble_ts_packet
  scrambled-IsClear p v sync scrambled = elim (Bool-cases (too_short p)) [
    | inl short ↦
        rw (sync, scrambled, short)
          (cleared_in p p false v (omega (arith, v.size)) (λ i k l n. refl) (rw short refl)
            (rw short refl))
    | inr long ↦
        let offset = payload_offset p in
        let inside : offset ≤ 188 = omega (arith, ltb_false→le _ _ long) in
        let size : length (take offset p) ≡ offset = omega (arith, length-take offset p, v.size) in
        let rest = decrypt (key_of p) (drop offset p) in
        rw (sync, scrambled, long)
          (cleared_in p (take offset p ++ rest) true v
            (omega (arith, payload_offset-ge p, length-append (take offset p) rest))
            (λ i k l n.
              get_or-append_left (take offset p) rest i 0 (omega arith)
              ∙ get_or-take offset p i 0 k)
            (rw long (drop-append_left offset (take offset p) rest size)) (rw long refl))
  ]

  -- A packet that does not start with the sync byte, or whose byte 3 says that it is not scrambled,
  -- stays as it is. Of any other packet of 188 bytes the scrambling bits are cleared and the rest of
  -- the header stays; the payload is decrypted with the key that the bits ask for, or stays if it is
  -- too short, and the answer tells which. Descrambling the result again changes nothing.
  pub descramble_ts_packet-IsClear :
      (p : List ℕ)
      → IsPacket p
      → (((get_or p 0 0 ≢ 0x47) ⊎ (get_or p 3 0 < 128))
          × (descramble_ts_packet decrypt key_even key_odd p ≡ (p, false)))
        ⊎ ((get_or p 0 0 ≡ 0x47)
            × (128 ≤ get_or p 3 0)
            × IsClear p (descramble_ts_packet decrypt key_even key_odd p))
  unfolding descramble_ts_packet
  descramble_ts_packet-IsClear p v =
      let byte = get_or-All IsByte p 3 0 v.bytes (omega (arith, v.size)) in
      let bits = bits_scrambled (get_or p 3 0) byte in
      elim (Bool-cases (get_or p 0 0 == 0x47)) [
        | inr off ↦ inl (inl (ground arith), rw off refl)
        | inl sync ↦ elim (Bool-cases (ltb (get_or p 3 0) 128)) [
          | inl plain ↦ inl (inr (ground arith), rw (sync, bits, plain) refl)
          | inr marked ↦
              inr (ground arith, ground arith, scrambled-IsClear p v sync (bits ∙ marked))
        ]
      ]
