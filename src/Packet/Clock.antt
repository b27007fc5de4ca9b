-- ===== src/Packet/Clock.antt =====
-- The program clock reference of src/packet.rs: `pkt_extract_pcr`, `pkt_write_pcr`,
-- `pkt_is_pcr_present`.
use mymuxer.Base.{
  ℕ, ◌+◌, ◌*◌, ◌/◌, ◌%◌, ◌^◌, ◌≡◌, refl, List, ◌∷◌, length, take, drop, true, false, some, ◌↔◌, ◌⊎◌,
  bit_and, bit_or, byte_at, store, ret, All, arith,
}
use mymuxer.Base.Bits.{bit_and_low}
use mymuxer.Packet.{
  IsPacket, IsByte, pkt_extract_pcr, pkt_write_pcr, pkt_is_pcr_present, pcr_of_bytes,
}
use mymuxer.Packet.Shape.{packet_cases}
use mymuxer.Packet.Bits.{pcr_of_bytes_lem, middle_byte}

-- One cycle of the 27 MHz clock.
abbrev pub pcr_cycle : ℕ
pcr_cycle = 2 ^ 33 * 300

-- What a packet is after its clock has been written.
pub record Restamped (p q : List ℕ) (pcr : ℕ) : Type 0 where
  pub packet : IsPacket q
  pub clock : pkt_extract_pcr q ≡ ret (some (pcr % pcr_cycle))
  pub front : take 6 q ≡ take 6 p
  pub back : drop 12 q ≡ drop 12 p

written_clock :
    (pcr : ℕ)
    → pcr_of_bytes
        (pcr / 300 / 2 ^ 25 % 256)
        (pcr / 300 / 2 ^ 17 % 256)
        (pcr / 300 / 2 ^ 9 % 256)
        (pcr / 300 / 2 % 256)
        (bit_or
          (bit_or (bit_and (pcr / 300 * 2 ^ 7 % 256) 0x80) 0x7E)
          (bit_and (pcr % 300 / 2 ^ 8 % 256) 0x01))
        (bit_and (pcr % 300) 0xFF % 256)
      ≡ pcr % pcr_cycle
written_clock pcr =
    rw
      (
        middle_byte (pcr / 300) (pcr % 300),
        bit_and_low 8 (pcr % 300),
        pcr_of_bytes_lem (pcr / 300 / 2 ^ 25 % 256) (pcr / 300 / 2 ^ 17 % 256)
            (pcr / 300 / 2 ^ 9 % 256) (pcr / 300 / 2 % 256)
            (pcr / 300 % 2 * 128 + 126 + pcr % 300 / 256 % 2) (pcr % 300 % 256 % 256) (omega arith)
            (omega arith) (omega arith) (omega arith) (omega arith),
      )
      (omega arith)

-- The statement for one packet, as `packet_cases` takes it.
abbrev ReadsBack : ℕ → List ℕ → Type 0
ReadsBack pcr p =
    All IsByte p
    → pkt_is_pcr_present p ≡ ret true
    → (q : List ℕ) × (pkt_write_pcr p pcr ≡ ret q) × Restamped p q pcr

restamp :
    (pcr a0 a1 a2 a3 a4 a5 a6 a7 a8 a9 a10 a11 : ℕ) (rest : List ℕ)
    → length rest ≡ 176
    → ReadsBack pcr (a0 ∷ a1 ∷ a2 ∷ a3 ∷ a4 ∷ a5 ∷ a6 ∷ a7 ∷ a8 ∷ a9 ∷ a10 ∷ a11 ∷ rest)
unfolding pkt_write_pcr pkt_extract_pcr pkt_is_pcr_present byte_at store
restamp pcr a0 a1 a2 a3 a4 a5 a6 a7 a8 a9 a10 a11 rest h bytes present = (
  _,
  refl,
  record {
    packet = record {
      size = omega arith;
      bytes = ground (arith, middle_byte (pcr / 300) (pcr % 300));
    };
    clock = ground (arith, written_clock pcr);
    front = refl;
    back = refl;
  },
)

-- A PCR written into a packet of 188 bytes that carries one is read back, up to the clock's cycle; the rest of
-- the packet stays.
pub pkt_extract_pcr-write_pcr :
    (p : List ℕ) (pcr : ℕ)
    → IsPacket p
    → pkt_is_pcr_present p ≡ ret true
    → (q : List ℕ) × (pkt_write_pcr p pcr ≡ ret q) × Restamped p q pcr
pkt_extract_pcr-write_pcr p pcr v present =
    packet_cases (ReadsBack pcr) (restamp pcr) p v.size v.bytes present

abbrev PresentIff : List ℕ → Type 0
PresentIff p =
    (pkt_is_pcr_present p ≡ ret true) ↔ ((pcr : ℕ) × (pkt_extract_pcr p ≡ ret (some pcr)))

present :
    (a0 a1 a2 a3 a4 a5 a6 a7 a8 a9 a10 a11 : ℕ) (rest : List ℕ)
    → length rest ≡ 176
    → PresentIff (a0 ∷ a1 ∷ a2 ∷ a3 ∷ a4 ∷ a5 ∷ a6 ∷ a7 ∷ a8 ∷ a9 ∷ a10 ∷ a11 ∷ rest)
unfolding pkt_extract_pcr pkt_is_pcr_present byte_at
present a0 a1 a2 a3 a4 a5 a6 a7 a8 a9 a10 a11 rest h =
    (λ e. (pcr_of_bytes a6 a7 a8 a9 a10 a11, ground arith), λ e. ground arith)

-- A PCR is read from exactly the packets that carry one.
pub pkt_extract_pcr-present :
    (p : List ℕ)
    → IsPacket p
    → (pkt_is_pcr_present p ≡ ret true) ↔ ((pcr : ℕ) × (pkt_extract_pcr p ≡ ret (some pcr)))
pkt_extract_pcr-present p v = packet_cases PresentIff present p v.size

abbrev Answered : List ℕ → Type 0
Answered p = (pkt_is_pcr_present p ≡ ret true) ⊎ (pkt_is_pcr_present p ≡ ret false)

answered :
    (a0 a1 a2 a3 a4 a5 a6 a7 a8 a9 a10 a11 : ℕ) (rest : List ℕ)
    → length rest ≡ 176
    → Answered (a0 ∷ a1 ∷ a2 ∷ a3 ∷ a4 ∷ a5 ∷ a6 ∷ a7 ∷ a8 ∷ a9 ∷ a10 ∷ a11 ∷ rest)
unfolding pkt_is_pcr_present byte_at
answered a0 a1 a2 a3 a4 a5 a6 a7 a8 a9 a10 a11 rest h = ground arith

-- Whether a packet carries a clock is always answered.
pub pkt_is_pcr_present-total :
    (p : List ℕ)
    → IsPacket p
    → (pkt_is_pcr_present p ≡ ret true) ⊎ (pkt_is_pcr_present p ≡ ret false)
pkt_is_pcr_present-total p v = packet_cases Answered answered p v.size
