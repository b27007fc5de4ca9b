-- ===== src/Psi/Pack.antt =====
-- src/psi/mod.rs: `pack_multi` and `pack`, which spread a section over transport packets.
use mymuxer.Base.{
  ℕ, zero, suc, ◌+◌, ◌-◌, ◌/◌, ◌%◌, ◌^◌, bit_and, bit_or, List, [], ◌∷◌, ◌++◌, Bool, true, false,
  ◌||◌, Option, none, some, ltb, if◌then◌else◌, length, take, drop, set, replicate,
}
use mymuxer.Packet.{ts_packet_size, ts_sync_byte}

-- `packet[at..at + data.len()].copy_from_slice(data)`
unfoldable pub copy_at : List ℕ → ℕ → List ℕ → List ℕ
copy_at packet at data' = take at packet ++ (data' ++ drop (at + length data') packet)

-- The four header bytes over a packet of 0xFF.
unfoldable pub pack_header : Bool → ℕ → ℕ → List ℕ
pack_header first pid cc =
    let p0 = set (replicate ts_packet_size 0xFF) 0 ts_sync_byte in
    let p1 = set p0 1 (bit_or (bit_and (pid / 2 ^ 8 % 256) 0x1F) (if first then 0x40 else 0x00)) in
    let p2 = set p1 2 (bit_and pid 0xFF) in set p2 3 (bit_or 0x10 (bit_and cc 0x0F))

-- One round of the loop: the packet; `rest` is the section from `offset` on.
unfoldable pub pack_round : Bool → List ℕ → ℕ → ℕ → List ℕ
unfolding pack_header copy_at
pack_round first rest pid cc =
    let header = pack_header first pid cc in
    let packet = if first then set header 4 0x00 else header in
    let payload : ℕ = if first then 5 else 4 in
    copy_at packet payload (take (ts_packet_size - payload) rest)

-- `while first || offset < section.len()`, on fuel: `none` means that the fuel ran out. The counter
-- is the eight-bit `*cc`.
unfoldable pub pack_loop : ℕ → Bool → List ℕ → ℕ → ℕ → Option (List (List ℕ) × ℕ)
pack_loop zero first rest pid cc = none
pack_loop (suc fuel) first rest pid cc =
    let payload : ℕ = if first then 5 else 4 in
    let more =
      pack_loop fuel false (drop (ts_packet_size - payload) rest) pid
        (bit_and ((cc + 1) % 256) 0x0F) in
    if first || ltb 0 (length rest)
    then elim more [
      | none ↦ none
      | some (packets, cc') ↦ some (pack_round first rest pid cc ∷ packets, cc')
    ]
    else some ([], cc)

-- A round sends 183 bytes or more while there are any, and the first is always made.
unfoldable pub pack_multi : List ℕ → ℕ → ℕ → Option (List (List ℕ) × ℕ)
pack_multi section pid cc = pack_loop (length section + 2) true section pid cc

-- The first packet only.
unfoldable pub pack : List ℕ → ℕ → ℕ → Option (List ℕ)
pack section pid cc = elim (pack_multi section pid cc) [
  | none ↦ none
  | some (packets, cc') ↦ elim packets [
    | [] ↦ some (replicate ts_packet_size 0xFF)
    | p ∷ ps ↦ some p
  ]
]
