-- ===== src/Mux/Sync.antt =====
-- src/mux.rs: `sync_buffer` finds the start of the packets in the bytes received.
pub mod Search
use mymuxer.Base.{
  ℕ, zero, suc, ◌+◌, ◌*◌, List, [], ◌∷◌, Bool, true, false, ◌&&◌, Option, none, some, ltb, leb,
  ◌==◌, if◌then◌else◌, length, get_or, drop,
}
use mymuxer.Packet.{ts_packet_size, ts_sync_byte}

-- `position(|&b| b == TS_SYNC_BYTE)`
unfoldable pub position : List ℕ → Option ℕ
position [] = none
position (b ∷ rest) =
    if b == ts_sync_byte
    then some 0
    else elim (position rest) [ none ↦ none | some i ↦ some (suc i) ]

-- Three sync bytes a packet apart. The loop reads them only in 564 bytes or more.
unfoldable pub three_syncs : List ℕ → Bool
three_syncs buff =
    get_or buff 0 0 == ts_sync_byte
    && (get_or buff ts_packet_size 0 == ts_sync_byte
        && get_or buff (ts_packet_size * 2) 0 == ts_sync_byte)

-- The loop of `sync_buffer` on fuel (`none`: it ran out), with what is left of the buffer.
unfoldable pub sync_loop : ℕ → List ℕ → Option (Bool × List ℕ)
sync_loop zero buff = none
sync_loop (suc fuel) buff =
    let next : Option (Bool × List ℕ) = elim (position (drop 1 buff)) [
      | none ↦ some (false, [])
      | some pos ↦ sync_loop fuel (drop (pos + 1) buff)
    ] in
    if ltb (length buff) (ts_packet_size * 3)
    then some (false, buff)
    else if three_syncs buff
    then some (true, buff)
    else next

-- Each round drops a byte or more.
unfoldable pub sync_buffer : List ℕ → Option (Bool × List ℕ)
sync_buffer buff = sync_loop (suc (length buff)) buff
