-- ===== src/Mux/Restamper/Drift.antt =====
-- Restarting the count at each stamp costs less than a tick of 27 MHz.
use native.Mathlib.Decide.{dec_lt}
use native.Mathlib.Nat.{div-lt_iff_lt-mul, div-mul-le_self, lt-div-mul-add}
use mymuxer.Base.{ℕ, ◌+◌, ◌*◌, ◌/◌, ◌≤◌, ◌<◌, ◌≡◌, arith}
use mymuxer.Mux.Restamper.{ticks_sent}

div-add_bounds :
    (a b d : ℕ) → 0 < d → (a / d + b / d ≤ (a + b) / d) × ((a + b) / d ≤ a / d + b / d + 1)
div-add_bounds a b d h = (low, le_of_lt_suc)
  where
    low : a / d + b / d ≤ (a + b) / d
    low = elim (dec_lt ((a + b) / d) (a / d + b / d)) [
      | no k ↦ omega arith
      | yes k ↦ absurd (
          omega (
            arith,
            (div-lt_iff_lt-mul {k = d} {x = a + b} {y = a / d + b / d} h).0 k,
            div-mul-le_self a d,
            div-mul-le_self b d,
          ))
    ]

    below : a + b < (a / d + b / d + 2) * d
    below = omega (arith, lt-div-mul-add {a = a} {b = d} h, lt-div-mul-add {a = b} {b = d} h)

    le_of_lt_suc : (a + b) / d ≤ a / d + b / d + 1
    le_of_lt_suc =
        omega (arith, (div-lt_iff_lt-mul {k = d} {x = a + b} {y = a / d + b / d + 2} h).1 below)

-- At every bit rate but 0, the ticks of `n` packets and of `m` more add up to the ticks of `n + m`
-- packets or to one less.
pub ticks_sent-add :
    (n m bitrate : ℕ)
    → 0 < bitrate
    → (ticks_sent n bitrate + ticks_sent m bitrate ≤ ticks_sent (n + m) bitrate)
      × (ticks_sent (n + m) bitrate ≤ ticks_sent n bitrate + ticks_sent m bitrate + 1)
unfolding ticks_sent
ticks_sent-add n m bitrate h =
    let e : (n + m) * 188 * 8 * 27000000 ≡ n * 188 * 8 * 27000000 + m * 188 * 8 * 27000000 =
      omega arith in
    rw e (div-add_bounds (n * 188 * 8 * 27000000) (m * 188 * 8 * 27000000) bitrate h)
