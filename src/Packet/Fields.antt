-- ===== src/Packet/Fields.antt =====
-- PID, payload, counter and discontinuity of src/packet.rs on packets of the right size.
use mymuxer.Base.{
  ℕ, ◌+◌, ◌*◌, ◌/◌, ◌%◌, ◌≤◌, ◌<◌, ◌≡◌, refl, List, ◌∷◌, length, get_or, take, drop, Bool, true,
  false, Bool-cases, inl, inr, ltb, bit_and, bit_or, byte_at, store, ret, All, arith, byte_at-ret,
  get_or-All,
}
use mymuxer.Base.Bits.{bit_and_low, bit_and_mid, bit_or_disjoint, bit_or_top}
use mymuxer.Packet.{
  IsPacket, IsByte, pkt_pid, pkt_next, pkt_set_discontinuity, pkt_get_discontinuity,
}
use mymuxer.Packet.Shape.{packet_cases}
use mymuxer.Packet.Bits.{join_pid, flag_80}

-- The PID is the low five bits of byte 1 and byte 2, most significant first.
pub pkt_pid_lem :
    (p : List ℕ)
    → 3 ≤ length p
    → All IsByte p
    → pkt_pid p ≡ ret (get_or p 1 0 % 32 * 256 + get_or p 2 0)
unfolding pkt_pid
pkt_pid_lem p h bytes = rw (
  byte_at-ret p 1 (omega arith),
  byte_at-ret p 2 (omega arith),
  join_pid (get_or p 1 0) (get_or p 2 0) (get_or-All IsByte p 2 0 bytes (omega arith)),
)

-- The continuity counter: the low half of byte 3.
abbrev pub counter : List ℕ → ℕ
counter p = get_or p 3 0 % 16

-- The byte 3 of the following packet.
next_byte :
    (b : ℕ)
    → b < 256
    → bit_or (bit_and b 0xF0) (bit_and (bit_and b 0x0F + 1) 0x0F) ≡ b / 16 * 16 + (b % 16 + 1) % 16
next_byte b h = ground (
  arith,
  bit_and_mid 4 4 b,
  bit_and_low 4 b,
  bit_and_low 4 (b % 16 + 1),
  bit_or_disjoint 4 (b / 16 * 16) ((b % 16 + 1) % 16),
)

abbrev Advances : List ℕ → Type 0
Advances p =
    All IsByte p
    → (q : List ℕ) × (pkt_next p ≡ ret q)
      × IsPacket q
      × (counter q ≡ (counter p + 1) % 16)
      × (get_or q 3 0 / 16 ≡ get_or p 3 0 / 16)
      × (take 3 q ≡ take 3 p)
      × (drop 4 q ≡ drop 4 p)

advance :
    (a0 a1 a2 a3 a4 a5 a6 a7 a8 a9 a10 a11 : ℕ) (rest : List ℕ)
    → length rest ≡ 176
    → Advances (a0 ∷ a1 ∷ a2 ∷ a3 ∷ a4 ∷ a5 ∷ a6 ∷ a7 ∷ a8 ∷ a9 ∷ a10 ∷ a11 ∷ rest)
unfolding pkt_next byte_at store
advance a0 a1 a2 a3 a4 a5 a6 a7 a8 a9 a10 a11 rest h bytes = (
  _,
  refl,
  record { size = omega arith; bytes = ground (arith, next_byte a3) },
  ground (arith, next_byte a3),
  ground (arith, next_byte a3),
  refl,
  refl,
)

-- On a packet of 188 bytes `pkt_next` advances the continuity counter modulo 16, keeps the upper
-- half of its byte, and leaves the rest of the packet.
pub pkt_next_lem :
    (p : List ℕ)
    → IsPacket p
    → (q : List ℕ) × (pkt_next p ≡ ret q)
      × IsPacket q
      × (counter q ≡ (counter p + 1) % 16)
      × (get_or q 3 0 / 16 ≡ get_or p 3 0 / 16)
      × (take 3 q ≡ take 3 p)
      × (drop 4 q ≡ drop 4 p)
pkt_next_lem p v = packet_cases Advances advance p v.size v.bytes

abbrev SetsFlag : List ℕ → Type 0
SetsFlag p =
    All IsByte p
    → (q : List ℕ) × (done : Bool) × (pkt_set_discontinuity p ≡ ret (q, done))
      × IsPacket q
      × (pkt_get_discontinuity q ≡ ret done)
      × (done ≡ false → q ≡ p)

set_flag :
    (a0 a1 a2 a3 a4 a5 a6 a7 a8 a9 a10 a11 : ℕ) (rest : List ℕ)
    → length rest ≡ 176
    → SetsFlag (a0 ∷ a1 ∷ a2 ∷ a3 ∷ a4 ∷ a5 ∷ a6 ∷ a7 ∷ a8 ∷ a9 ∷ a10 ∷ a11 ∷ rest)
unfolding pkt_set_discontinuity pkt_get_discontinuity byte_at store
set_flag a0 a1 a2 a3 a4 a5 a6 a7 a8 a9 a10 a11 rest h bytes =
    elim (Bool-cases (ltb (bit_and (a3 / 16) 0x03) 2)) [
      | inl e ↦ (
        _,
        false,
        ground arith,
        record { size = omega arith; bytes = bytes },
        ground arith,
        λ _. refl,
      )
      | inr e ↦ elim (Bool-cases (ltb a4 1)) [
        | inl k ↦ (
          _,
          false,
          ground arith,
          record { size = omega arith; bytes = bytes },
          ground arith,
          λ _. refl,
        )
        | inr k ↦ (
          a0 ∷ a1 ∷ a2 ∷ a3 ∷ a4 ∷ bit_or a5 0x80 ∷ a6 ∷ a7 ∷ a8 ∷ a9 ∷ a10 ∷ a11 ∷ rest,
          true,
          ground arith,
          record { size = omega arith; bytes = ground (arith, bit_or_top a5) },
          ground (arith, bit_or_top a5, flag_80 (bit_or a5 0x80)),
          λ e. cc,
        )
      ]
    ]

-- On a packet of 188 bytes `pkt_set_discontinuity` returns and the flag reads back as its answer;
-- where the answer is no, the packet is left as it was.
pub pkt_set_discontinuity_lem :
    (p : List ℕ)
    → IsPacket p
    → (q : List ℕ) × (done : Bool) × (pkt_set_discontinuity p ≡ ret (q, done))
      × IsPacket q
      × (pkt_get_discontinuity q ≡ ret done)
      × (done ≡ false → q ≡ p)
pkt_set_discontinuity_lem p v = packet_cases SetsFlag set_flag p v.size v.bytes
