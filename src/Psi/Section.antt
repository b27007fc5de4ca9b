-- ===== src/Psi/Section.antt =====
-- src/psi/mod.rs: `SectionReassembler` and `SectionReassemblerMap`, which put the sections of a table
-- together from the payloads of the packets of one PID.
use mymuxer.Base.{
  ℕ, ◌+◌, ◌*◌, ◌^◌, bit_and, bit_or, List, [], ◌∷◌, ◌++◌, Bool, true, false, not, ◌&&◌, ◌||◌,
  Option, none, some, ltb, leb, ◌==◌, if◌then◌else◌, length, get_or, take, Outcome, ret, ◌>>=◌,
  byte_at, slice, slice_from,
}
use mymuxer.Packet.{ts_packet_size, ts_sync_byte, af_control, pkt_pid}

pub record SectionReassembler : Type 0 where
  pub pid : ℕ
  pub buffer : List ℕ
  pub expected_len : Option ℕ

unfoldable pub new : ℕ → SectionReassembler
new pid = record { pid = pid; buffer = []; expected_len = none }

abbrev pub clear : SectionReassembler → SectionReassembler
clear r = record r { buffer = []; expected_len = none }

abbrev pub is_empty {ℓ} : {A : Type ℓ} → List A → Bool
is_empty [] = true
is_empty (x ∷ xs) = false

abbrev pub is_none {ℓ} : {A : Type ℓ} → Option A → Bool
is_none none = true
is_none (some a) = false

-- `section_len + 3`, from bytes 1 and 2 of the section.
unfoldable pub total_len : List ℕ → ℕ
total_len s = bit_or (bit_and (get_or s 1 0) 0x0F * 2 ^ 8) (get_or s 2 0) + 3

-- The second half of `take_complete`: the section, once the buffer holds it whole.
unfoldable pub take_expected : SectionReassembler → SectionReassembler × Option (List ℕ)
take_expected r = elim r.expected_len [
  | none ↦ (r, none)
  | some n ↦ if ltb (length r.buffer) n then (r, none) else (clear r, some (take n r.buffer))
]

-- Bytes 1 and 2 of the buffer are read only where it holds three.
unfoldable pub take_complete : SectionReassembler → SectionReassembler × Option (List ℕ)
take_complete r =
    if is_none r.expected_len && leb 3 (length r.buffer)
    then if ltb (3 + 4095) (total_len r.buffer)
      then (clear r, none)
      else take_expected (record r { expected_len = some (total_len r.buffer) })
    else take_expected r

unfoldable pub payload_offset : List ℕ → Outcome (Option ℕ)
payload_offset packet = if ltb (length packet) ts_packet_size then ret none else do
  b3 ← byte_at packet 3
  if af_control b3 == 0 || af_control b3 == 2
      then ret none
      else if af_control b3 == 1
      then ret (some 4)
      else if leb (length packet) 4
      then ret none
      else do
        af_length ← byte_at packet 4
        ret (if ltb (length packet) (4 + (af_length + 1)) then none else some (4 + (af_length + 1)))

-- The end of `push`: the packet from `offset` on joins the buffer.
unfoldable pub append_from :
    SectionReassembler → List ℕ → ℕ → Outcome (SectionReassembler × Option (List ℕ))
append_from r packet offset = if leb (length packet) offset then ret (r, none) else do
  rest ← slice_from packet offset
  ret (take_complete (record r { buffer = r.buffer ++ rest }))

-- A packet in which a section starts: what stands before the pointer ends the previous section.
unfoldable pub push_start :
    SectionReassembler → List ℕ → ℕ → Outcome (SectionReassembler × Option (List ℕ))
push_start r packet at = if leb (length packet) at then ret (clear r, none) else do
  pointer ← byte_at packet at
  let offset = at + 1
  let pointer_end = offset + pointer
  if ltb (length packet) pointer_end
      then ret (clear r, none)
      else if not (not (is_empty r.buffer) && ltb 0 pointer)
      then append_from (clear r) packet pointer_end
      else do
        before ← slice packet offset pointer_end
        let (r', complete) = take_complete (record r { buffer = r.buffer ++ before })
        elim complete [
          | some section ↦ ret (clear r', some section)
          | none ↦ append_from (clear r') packet pointer_end
        ]

-- The payload at `offset`, if the packet has one.
unfoldable pub push_payload :
    SectionReassembler → List ℕ → Bool → Option ℕ → Outcome (SectionReassembler × Option (List ℕ))
push_payload r packet pusi none = ret (r, none)
push_payload r packet true (some offset) = push_start r packet offset
push_payload r packet false (some offset) =
    if is_empty r.buffer then ret (r, none) else append_from r packet offset

unfoldable pub push : SectionReassembler → List ℕ → Outcome (SectionReassembler × Option (List ℕ))
push r packet = if ltb (length packet) ts_packet_size then ret (clear r, none) else do
  b0 ← byte_at packet 0
  if not (b0 == ts_sync_byte) then ret (clear r, none) else do
    pid ← pkt_pid packet
    if not (pid == r.pid) then ret (r, none) else do
      b1 ← byte_at packet 1
      offset ← payload_offset packet
      push_payload r packet (not (bit_and b1 0x40 == 0)) offset

-- `SectionReassemblerMap`: the map from PIDs to reassemblers as an association list.
abbrev pub SectionReassemblerMap : Type 0
SectionReassemblerMap = List (ℕ × SectionReassembler)

-- `entry(pid).or_insert_with(...)`, the reassembler found or made.
unfoldable pub entry : SectionReassemblerMap → ℕ → SectionReassembler
entry [] pid = new pid
entry ((k, r) ∷ m) pid = if k == pid then r else entry m pid

unfoldable pub insert : SectionReassemblerMap → ℕ → SectionReassembler → SectionReassemblerMap
insert [] pid r = (pid, r) ∷ []
insert ((k, s) ∷ m) pid r = if k == pid then (pid, r) ∷ m else (k, s) ∷ insert m pid r

unfoldable pub push_map :
    SectionReassemblerMap → List ℕ → Outcome (SectionReassemblerMap × Option (List ℕ))
push_map m packet = if ltb (length packet) ts_packet_size then ret (m, none) else do
  b0 ← byte_at packet 0
  if not (b0 == ts_sync_byte) then ret (m, none) else do
    pid ← pkt_pid packet
    (r, section) ← push (entry m pid) packet
    ret (insert m pid r, section)
