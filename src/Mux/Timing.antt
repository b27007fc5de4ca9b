-- ===== src/Mux/Timing.antt =====
-- src/mux.rs: arithmetic of the 33-bit DTS and of the PCR, both of which wrap.
-- A `u64` is a number; `wrapping_sub` is modulo 2 ^ 64.
pub mod Order
use mymuxer.Base.{
  ℕ, ◌+◌, ◌-◌, ◌*◌, ◌/◌, ◌%◌, ◌^◌, bit_and, Bool, not, ◌&&◌, Option, none, some, ltb, leb, ◌==◌,
  if◌then◌else◌,
}
use mymuxer.Base.Int.{ℤ, pos, sub_ℕ}

abbrev pub dts_mask : ℕ
dts_mask = 2 ^ 33 - 1

abbrev pub dts_half : ℕ
dts_half = 2 ^ 32

abbrev pub pcr_cycle : ℕ
pcr_cycle = 2 ^ 33 * 300

abbrev pub pcr_half : ℕ
pcr_half = pcr_cycle / 2

abbrev pub wrapping_sub : ℕ → ℕ → ℕ
wrapping_sub a b = (a + 2 ^ 64 - b) % 2 ^ 64

unfoldable pub dts_after : ℕ → ℕ → Bool
dts_after a b =
    let diff = bit_and (wrapping_sub a b) dts_mask in not (diff == 0) && ltb diff dts_half

unfoldable pub dts_before_or_equal : ℕ → ℕ → Bool
unfolding dts_after
dts_before_or_equal a b = not (dts_after a b)

unfoldable pub dts_signed_delta : ℕ → ℕ → ℤ
dts_signed_delta a b =
    let delta = bit_and (wrapping_sub a b) dts_mask in
    if leb dts_half delta then sub_ℕ delta (dts_mask + 1) else pos delta

unfoldable pub dts_forward_delta_ms : ℕ → ℕ → Option ℕ
dts_forward_delta_ms new_dts last_dts =
    let diff = bit_and (wrapping_sub new_dts last_dts) dts_mask in
    if not (diff == 0) && ltb diff dts_half then some (diff / 90) else none

unfoldable pub pcr_normalize : ℕ → ℕ
pcr_normalize pcr = pcr % pcr_cycle

unfoldable pub pcr_sub : ℕ → ℕ → ℕ
unfolding pcr_normalize
pcr_sub a b =
    let a' = pcr_normalize a in
    let b' = pcr_normalize b in if leb b' a' then a' - b' else pcr_cycle - (b' - a')

unfoldable pub pcr_after : ℕ → ℕ → Bool
unfolding pcr_normalize
pcr_after a b =
    let a' = pcr_normalize a in
    let b' = pcr_normalize b in
    let diff = if leb b' a' then a' - b' else pcr_cycle - (b' - a') in
    not (diff == 0) && ltb diff pcr_half

-- The sum of two values of one cycle fits a `u64`.
unfoldable pub pcr_add : ℕ → ℕ → ℕ
unfolding pcr_normalize
pcr_add a b = pcr_normalize (pcr_normalize a + pcr_normalize b)

unfoldable pub pcr_signed_delta : ℕ → ℕ → ℤ
unfolding pcr_sub
pcr_signed_delta a b =
    let delta = pcr_sub a b in if leb pcr_half delta then sub_ℕ delta pcr_cycle else pos delta
