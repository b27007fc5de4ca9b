-- ===== src/Biss.antt =====
-- src/biss.rs: BISS-1 keys and the packets that they descramble (feature "dvbcsa").
pub mod Keys
pub mod Clear
use mymuxer.Base.{
  ℕ, zero, suc, ◌+◌, ◌-◌, ◌*◌, ◌/◌, ◌%◌, ◌^◌, bit_and, bit_or, List, [], ◌∷◌, ◌++◌, Bool, true,
  false, not, ◌&&◌, ◌||◌, Option, none, some, ltb, leb, ◌==◌, if◌then◌else◌, length, get_or, set,
  take, drop,
}
use mymuxer.Packet.{ts_packet_size}
use mymuxer.Mux.Sync.{sync_buffer}

infixl 5 ◌>>=◌
abbrev ◌>>=◌ : {A B : Type 0} → Option A → (A → Option B) → Option B
none >>= f = none
some a >>= f = f a

unfoldable pub hex_val : ℕ → Option ℕ
hex_val b =
    if leb 48 b && leb b 57
    then some (b - 48)
    else if leb 97 b && leb b 102
    then some (b - 97 + 10)
    else if leb 65 b && leb b 70
    then some (b - 65 + 10)
    else none

-- The loop of `parse_hex_bytes`, two digits a round.
unfoldable pub hex_pairs : List ℕ → Option (List ℕ)
unfolding hex_val
hex_pairs [] = some []
hex_pairs (d ∷ []) = none
hex_pairs (d ∷ e ∷ rest) = do
  hi ← hex_val d
  lo ← hex_val e
  out ← hex_pairs rest
  some (bit_or (hi * 2 ^ 4 % 256) lo ∷ out)

unfoldable pub parse_hex_bytes : List ℕ → Option (List ℕ)
unfolding hex_pairs
parse_hex_bytes s = if not (length s % 2 == 0) then none else hex_pairs s

-- The control word of six or eight bytes.
unfoldable pub control_word : List ℕ → Option (List ℕ)
control_word (b0 ∷ b1 ∷ b2 ∷ b3 ∷ b4 ∷ b5 ∷ []) = some (
    b0
    ∷ b1
    ∷ b2
    ∷ ((b0 + b1) % 2 ^ 8 + b2) % 2 ^ 8
    ∷ b3
    ∷ b4
    ∷ b5
    ∷ ((b3 + b4) % 2 ^ 8 + b5) % 2 ^ 8
    ∷ [])
control_word bytes = if length bytes == 8 then some bytes else none

-- `strip_prefix("0x")`
unfoldable pub without_prefix : List ℕ → List ℕ
without_prefix [] = []
without_prefix (a ∷ []) = a ∷ []
without_prefix (a ∷ b ∷ rest) = if a == 48 && b == 120 then rest else (a ∷ b ∷ rest)

-- `parse_biss1_key` on the bytes of a key; `trim` takes the white space off.
unfoldable pub parse_biss1_key : (List ℕ → List ℕ) → List ℕ → Option (List ℕ)
unfolding without_prefix parse_hex_bytes control_word
parse_biss1_key trim key_hex =
    let s = without_prefix (trim key_hex) in
    if not (length s == 12) && not (length s == 16)
    then none
    else (do bytes ← parse_hex_bytes s; control_word bytes)

-- Where the payload of a packet starts.
unfoldable pub payload_offset : List ℕ → ℕ
payload_offset packet =
    let af_control = bit_and (get_or packet 3 0 / 2 ^ 4) 0x03 in
    if af_control == 1 then 4 else if af_control == 3 then 5 + get_or packet 4 0 else ts_packet_size

module _ {Key : Type 0} (decrypt : Key → List ℕ → List ℕ) (key_even key_odd : Key) where
  -- `descramble_ts_packet`, on a packet of 188 bytes: the packet, and whether it was decrypted.
  unfoldable pub descramble_ts_packet : List ℕ → List ℕ × Bool
  unfolding payload_offset
  descramble_ts_packet packet =
      let b3 = get_or packet 3 0 in
      let scrambling = bit_and b3 0xC0 in
      let offset = payload_offset packet in
      let key : Key = if scrambling == 0x80 then key_even else key_odd in
      if not (get_or packet 0 0 == 0x47)
      then (packet, false)
      else if scrambling == 0 || scrambling == 0x40
      then (packet, false)
      else if ltb ts_packet_size (offset + 8)
      then (set packet 3 (bit_and b3 0x3F), false)
      else (set (take offset packet ++ decrypt key (drop offset packet)) 3 (bit_and b3 0x3F), true)

  -- The loop of `descramble_ts_packets`, on the number of whole packets: the buffer, and how many
  -- packets were decrypted.
  unfoldable pub descramble_chunks : ℕ → List ℕ → List ℕ × ℕ
  unfolding descramble_ts_packet
  descramble_chunks zero bytes = (bytes, 0)
  descramble_chunks (suc n) bytes =
      let (packet, done) = descramble_ts_packet (take ts_packet_size bytes) in
      let (rest, processed) = descramble_chunks n (drop ts_packet_size bytes) in
      (packet ++ rest, (if done then 1 else 0) + processed)

  unfoldable pub descramble_ts_packets : List ℕ → List ℕ × ℕ
  unfolding descramble_chunks
  descramble_ts_packets bytes = descramble_chunks (length bytes / ts_packet_size) bytes

  -- `descramble_ts_stream`: what is left of the buffer, and the packets split off. `none` is the
  -- fuel of `sync_buffer` run out.
  unfoldable pub descramble_ts_stream : List ℕ → Option (List ℕ × Option (List ℕ))
  unfolding descramble_ts_packets
  descramble_ts_stream buff = do
    (found, synced) ← sync_buffer buff
    let len = length synced / ts_packet_size * ts_packet_size
    if not found
        then some (synced, none)
        else some (drop len synced, some ((descramble_ts_packets (take len synced)).0))
