-- ===== src/Psi/Rounds.antt =====
-- The packets of `pack_multi`, seen as a header and a payload, and what a reassembler makes of them.
use mymuxer.Base.{
  ℕ, suc, ◌+◌, ◌*◌, ◌/◌, ◌%◌, ◌^◌, ◌<◌, ◌≡◌, bit_and, bit_or, arith, List, ◌∷◌, ◌++◌, Bool, true,
  false, not, none, some, ◌==◌, length, take, drop, replicate, length-append, length-take,
  length-drop, length-replicate, ret, byte_at, slice_from, if◌then◌else◌,
}
use mymuxer.Base.Bits.{bit_and_low, bit_or_disjoint, bit_or_comm, bit_or-zero}
use mymuxer.Packet.{pkt_pid}
use mymuxer.Packet.Bits.{join_pid, control_lem, flag_40}
use mymuxer.Psi.Pack.{pack_round}
use mymuxer.Psi.Section.{
  SectionReassembler, take_complete, payload_offset, append_from, push_start, push_payload, push,
}

-- Header bytes 1 to 3.
abbrev pub header1 : Bool → ℕ → ℕ
header1 first pid = bit_or (bit_and (pid / 2 ^ 8 % 256) 0x1F) (if first then 0x40 else 0x00)

abbrev pub header3 : ℕ → ℕ
header3 cc = bit_or 0x10 (bit_and cc 0x0F)

abbrev pub padding : List ℕ → ℕ → List ℕ
padding sent size = drop (length sent) (replicate size 0xFF)

pub pack_round-first :
    (rest : List ℕ) (pid cc : ℕ)
    → pack_round true rest pid cc
      ≡ 0x47
        ∷ header1 true pid
        ∷ bit_and pid 0xFF
        ∷ header3 cc
        ∷ 0
        ∷ (take 183 rest ++ padding (take 183 rest) 183)
unfolding pack_round
pack_round-first rest pid cc =
    let n = length (take 183 rest) in
    let e : 5 + n ≡ suc (suc (suc (suc (suc n)))) = omega arith in rw e

pub pack_round-next :
    (rest : List ℕ) (pid cc : ℕ)
    → pack_round false rest pid cc
      ≡ 0x47
        ∷ header1 false pid
        ∷ bit_and pid 0xFF
        ∷ header3 cc
        ∷ (take 184 rest ++ padding (take 184 rest) 184)
unfolding pack_round
pack_round-next rest pid cc =
    let n = length (take 184 rest) in let e : 4 + n ≡ suc (suc (suc (suc n))) = omega arith in rw e

pub length-payload : (n : ℕ) (rest : List ℕ) → length (take n rest ++ padding (take n rest) n) ≡ n
length-payload n rest = omega (
  arith,
  length-append (take n rest) (padding (take n rest) n),
  length-drop {A = ℕ} (length (take n rest)) (replicate n 0xFF),
  length-replicate {A = ℕ} n 0xFF,
  length-take n rest,
)

header1_lem :
    (first : Bool) (pid : ℕ)
    → pid < 8192
    → header1 first pid ≡ pid / 256 + (if first then 64 else 0)
header1_lem true pid h = ground (
  arith,
  bit_and_low 5 (pid / 256 % 256),
  bit_or_comm (pid / 256) 64,
  bit_or_disjoint 6 64 (pid / 256),
)
header1_lem false pid h = ground (arith, bit_and_low 5 (pid / 256 % 256), bit_or-zero (pid / 256))

header3_lem : (cc : ℕ) → header3 cc ≡ 16 + cc % 16
header3_lem cc = ground (arith, bit_and_low 4 cc, bit_or_disjoint 4 16 (cc % 16))

-- A packet with a payload only, of the reassembler's PID, goes to `push_payload` at offset 4.
push_header :
    (r : SectionReassembler) (b1 b2 b3 : ℕ) (payload : List ℕ)
    → length payload ≡ 184
    → b2 < 256
    → b1 % 32 * 256 + b2 ≡ r.pid
    → b3 / 16 % 4 ≡ 1
    → push r (0x47 ∷ b1 ∷ b2 ∷ b3 ∷ payload)
      ≡ push_payload r (0x47 ∷ b1 ∷ b2 ∷ b3 ∷ payload) (not (bit_and b1 0x40 == 0)) (some 4)
unfolding push pkt_pid byte_at payload_offset
push_header r b1 b2 b3 payload size hb e control = ground (arith, join_pid b1 b2, control_lem b3)

-- The first packet of a section replaces whatever the reassembler held.
pub push-first :
    (r : SectionReassembler) (pid cc : ℕ) (payload : List ℕ)
    → length payload ≡ 183
    → pid < 8192
    → r.pid ≡ pid
    → push r (0x47 ∷ header1 true pid ∷ bit_and pid 0xFF ∷ header3 cc ∷ 0 ∷ payload)
      ≡ ret (take_complete (record { pid = pid; buffer = payload; expected_len = none }))
unfolding push_payload push_start append_from byte_at slice_from
push-first r pid cc payload size h e = ground (
  arith,
  push_header r (header1 true pid) (bit_and pid 0xFF) (header3 cc) (0 ∷ payload),
  header1_lem true pid h,
  header3_lem cc,
  bit_and_low 8 pid,
  flag_40 (header1 true pid),
)

-- A later packet adds its payload to a section under way.
pub push-next :
    (r : SectionReassembler) (pid cc x : ℕ) (buffer payload : List ℕ)
    → length payload ≡ 184
    → pid < 8192
    → r.pid ≡ pid
    → r.buffer ≡ x ∷ buffer
    → push r (0x47 ∷ header1 false pid ∷ bit_and pid 0xFF ∷ header3 cc ∷ payload)
      ≡ ret (take_complete (record r { buffer = r.buffer ++ payload }))
unfolding push_payload append_from slice_from
push-next r pid cc x buffer payload size h e started = ground (
  arith,
  push_header r (header1 false pid) (bit_and pid 0xFF) (header3 cc) payload,
  header1_lem false pid h,
  header3_lem cc,
  bit_and_low 8 pid,
  flag_40 (header1 false pid),
)
