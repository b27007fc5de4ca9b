-- ===== src/Psi/Time.antt =====
-- src/psi/mod.rs: dates in tables.
pub mod Days
use mymuxer.Base.{
  ℕ, ◌+◌, ◌-◌, ◌*◌, ◌/◌, ◌%◌, ◌^◌, bit_or, List, [], ◌∷◌, ◌++◌, leb, if◌then◌else◌, length, Outcome,
  ret, ◌>>=◌,
}
use mymuxer.Psi.Encode.{high, low, bcd}

-- What the code reads of a `chrono::DateTime<Utc>`.
pub record DateTime : Type 0 where
  pub year : ℕ
  pub month : ℕ
  pub day : ℕ
  pub hour : ℕ
  pub minute : ℕ
  pub second : ℕ

-- The modified Julian day; `30.6001` and `365.25` are taken exactly, and the cast to `u16` wraps.
unfoldable pub mjd_of : (year month day : ℕ) → ℕ
mjd_of year month day =
    let a = year / 100 in
    (1461 * (year + 4716) / 4
      + 306001 * (month + 1) / 10000
      + day
      + (2 + a / 4)
      + 2 ^ 32
      - a
      - 1524
      - 2400001)
    % 2 ^ 16

-- January and February count to the year before.
unfoldable pub mjd : (year month day : ℕ) → ℕ
unfolding mjd_of
mjd year month day =
    if leb month 2 then mjd_of (year - 1) (month + 12) day else mjd_of year month day

unfoldable pub encode_dvb_time : DateTime → List ℕ
unfolding mjd high low bcd
encode_dvb_time dt =
    let day = mjd dt.year dt.month dt.day in
    high day ∷ low day ∷ bcd dt.hour ∷ bcd dt.minute ∷ bcd dt.second ∷ []
