-- ===== src/Pes/Nal.antt =====
-- src/pes/es_parsers.rs: the units of H.264 in `EsParser27`. Its reading of the sequence parameter set
-- itself stands on src/pes/golomb.rs.
pub mod Escape
pub mod Sps
use mymuxer.Base.{
  ℕ, zero, suc, ◌+◌, ◌-◌, ◌%◌, ◌^◌, bit_and, List, [], ◌∷◌, Bool, true, false, not, ◌&&◌, Option,
  none, some, ltb, ◌==◌, if◌then◌else◌, length, Outcome, ret, panic, ◌>>=◌, byte_at, slice,
}

-- The loop of `ebsp_to_rbsp`, from so many zeros on.
unfoldable pub rbsp_from : ℕ → List ℕ → List ℕ
rbsp_from zero_count [] = []
rbsp_from zero_count (b ∷ bs) =
    let dropped = rbsp_from 0 bs in
    let kept = b ∷ rbsp_from (if b == 0 then zero_count + 1 else 0) bs in
    if (zero_count == 2) && (b == 3) then dropped else kept

unfoldable pub ebsp_to_rbsp : List ℕ → List ℕ
ebsp_to_rbsp bytes = rbsp_from 0 bytes

-- `data[i] == 0 && data[i + 1] == 0 && data[i + 2] == 1`
unfoldable pub starts_code : List ℕ → ℕ → Outcome Bool
starts_code bytes i = do
  b0 ← byte_at bytes i
  if not (b0 == 0) then ret false else do
    b1 ← byte_at bytes (i + 1)
    if not (b1 == 0) then ret false else do b2 ← byte_at bytes (i + 2); ret (b2 == 1)

-- One round of the search for the next start code, with three bytes or with four.
unfoldable pub starts_next : List ℕ → ℕ → Outcome Bool
starts_next bytes j = do
  b0 ← byte_at bytes j
  if not (b0 == 0) then ret false else do
    b1 ← byte_at bytes (j + 1)
    if not (b1 == 0) then ret false else do
      b2 ← byte_at bytes (j + 2)
      if b2 == 1
          then ret true
          else if not (ltb (j + 3) (length bytes) && (b2 == 0))
          then ret false
          else do b3 ← byte_at bytes (j + 3); ret (b3 == 1)

-- The loop on `j`, on the number of its rounds: where the next start code is, or the end.
unfoldable pub next_code : ℕ → List ℕ → ℕ → Outcome ℕ
next_code zero bytes j = ret (length bytes)
next_code (suc n) bytes j =
    let more = next_code n bytes (j + 1) in
    do there ← starts_next bytes j; if there then ret j else more

-- The zeros at the end of a unit that starts at `data_start` are no part of it.
unfoldable pub trim_zeros : List ℕ → ℕ → ℕ → Outcome ℕ
trim_zeros bytes data_start zero = ret 0
trim_zeros bytes data_start (suc data_end) =
    let shorter = trim_zeros bytes data_start data_end in
    if not (ltb data_start (suc data_end))
    then ret (suc data_end)
    else do b ← byte_at bytes data_end; if b == 0 then shorter else ret (suc data_end)

-- One unit: its bytes behind the header if it is a sequence parameter set, and where the next starts.
unfoldable pub unit_at : List ℕ → ℕ → Outcome (Option (List ℕ) × ℕ)
unit_at bytes data_start = do
  next_start ← next_code (length bytes - 2 - data_start) bytes data_start
  if not (ltb data_start (length bytes)) then ret (none, next_start) else do
    header_byte ← byte_at bytes data_start
    data_end ← trim_zeros bytes data_start next_start
    if not (bit_and header_byte 0x1F == 7)
        then ret (none, next_start)
        else do unit ← slice bytes (data_start + 1) data_end; ret (some unit, next_start)

-- The loop of `find_sps`; `len - 2` wraps. A round that has no fuel counts as a panic.
unfoldable pub sps_loop : ℕ → List ℕ → ℕ → Outcome (Option (List ℕ))
sps_loop zero bytes i = panic
sps_loop (suc fuel) bytes i =
    let next = sps_loop fuel bytes (i + 1) in
    let behind = λ (j : ℕ). sps_loop fuel bytes j in
    if not (ltb i ((length bytes + 2 ^ 64 - 2) % 2 ^ 64)) then ret none else do
      code ← starts_code bytes i
      if not code then next else do
        (unit, next_start) ← unit_at bytes (i + 3)
        elim unit [ none ↦ behind next_start | some bytes' ↦ ret (some bytes') ]

unfoldable pub find_sps : List ℕ → Outcome (Option (List ℕ))
find_sps bytes = sps_loop (length bytes + 2) bytes 0
