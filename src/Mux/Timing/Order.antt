-- ===== src/Mux/Timing/Order.antt =====
-- The comparisons of src/mux.rs order time stamps that are less than half a cycle apart.
use mymuxer.Base.{
  ℕ, ◌+◌, ◌-◌, ◌/◌, ◌%◌, ◌^◌, ◌≤◌, ◌<◌, ◌≡◌, ◌⊎◌, ◌↔◌, true, false, none, some, bit_and, arith,
}
use mymuxer.Base.Bits.{bit_and_low}
use mymuxer.Base.Int.{pos_part, neg_part}
use mymuxer.Mux.Timing.{
  dts_after, dts_signed_delta, dts_forward_delta_ms, dts_half, pcr_cycle, pcr_half, pcr_after,
  pcr_sub, pcr_add, pcr_normalize, pcr_signed_delta, wrapping_sub,
}

-- The difference that all DTS functions look at, for stamps of 33 bits.
abbrev pub dts_diff : ℕ → ℕ → ℕ
dts_diff a b = (a + 2 ^ 33 - b) % 2 ^ 33

pub diff_lem :
    (a b : ℕ) → a < 2 ^ 33 → b < 2 ^ 33 → bit_and (wrapping_sub a b) (2 ^ 33 - 1) ≡ dts_diff a b
diff_lem a b h k = rw (bit_and_low 33 (wrapping_sub a b)) (omega arith)

-- Of two stamps of 33 bits exactly one is after the other, unless they are the same or half a cycle
-- apart: then neither is.
pub dts_after_order :
    (a b : ℕ)
    → a < 2 ^ 33
    → b < 2 ^ 33
    → (dts_after a b ≡ true) × (dts_after b a ≡ false)
      ⊎ (dts_after a b ≡ false) × (dts_after b a ≡ true)
      ⊎ (dts_after a b ≡ false)
        × (dts_after b a ≡ false)
        × ((a ≡ b) ⊎ (a + dts_half ≡ b) ⊎ (b + dts_half ≡ a))
unfolding dts_after
dts_after_order a b h k = ground (arith, diff_lem a b, diff_lem b a)

-- For stamps of 33 bits the signed delta leads from `b` to `a` modulo 2^33; it is less than half a
-- cycle forwards, at most half a cycle backwards, and positive exactly where `dts_after` holds.
pub dts_signed_delta_lem :
    (a b : ℕ)
    → a < 2 ^ 33
    → b < 2 ^ 33
    → ((b + 2 ^ 33 + pos_part (dts_signed_delta a b) - neg_part (dts_signed_delta a b)) % 2 ^ 33
        ≡ a)
      × (pos_part (dts_signed_delta a b) < dts_half)
      × (neg_part (dts_signed_delta a b) ≤ dts_half)
      × ((dts_after a b ≡ true) ↔ (0 < pos_part (dts_signed_delta a b)))
unfolding dts_after dts_signed_delta
dts_signed_delta_lem a b h k = ground (arith, diff_lem a b)

pub dts_forward_delta_ms_lem :
    (a b : ℕ)
    → a < 2 ^ 33
    → b < 2 ^ 33
    → (dts_after a b ≡ true)
        × (dts_forward_delta_ms a b ≡ some (pos_part (dts_signed_delta a b) / 90))
      ⊎ (dts_after a b ≡ false) × (dts_forward_delta_ms a b ≡ none)
unfolding dts_after dts_signed_delta dts_forward_delta_ms
dts_forward_delta_ms_lem a b h k = ground (arith, diff_lem a b)

-- `pcr_sub` undoes `pcr_add`, and both stay within the cycle.
pub pcr_sub-add :
    (a b : ℕ)
    → (pcr_sub (pcr_add a b) b ≡ pcr_normalize a)
      × (pcr_add (pcr_sub a b) b ≡ pcr_normalize a)
      × (pcr_add a b < pcr_cycle)
      × (pcr_sub a b < pcr_cycle)
unfolding pcr_sub pcr_add
pcr_sub-add a b = ground arith

-- The signed PCR delta is the one offset of at most half a cycle that leads from `b` to `a`, and it
-- is positive exactly where `pcr_after` holds.
pub pcr_signed_delta_lem :
    (a b : ℕ)
    → ((b % pcr_cycle
            + pcr_cycle
            + pos_part (pcr_signed_delta a b)
            - neg_part (pcr_signed_delta a b))
          % pcr_cycle
        ≡ a % pcr_cycle)
      × (pos_part (pcr_signed_delta a b) < pcr_half)
      × (neg_part (pcr_signed_delta a b) ≤ pcr_half)
      × ((pcr_after a b ≡ true) ↔ (0 < pos_part (pcr_signed_delta a b)))
unfolding pcr_signed_delta pcr_after
pcr_signed_delta_lem a b = ground arith

-- A bound `d` ticks ahead of the clock, as the scheduler uses it: a stamp `e` ticks ahead is after
-- the bound exactly if it is further ahead, within half a cycle.
pub pcr_after-add :
    (c d e : ℕ)
    → d < pcr_half
    → e < pcr_half
    → (pcr_after (pcr_add c e) (pcr_add c d) ≡ true) ↔ (d < e)
unfolding pcr_after pcr_add
pcr_after-add c d e h k = ground arith
