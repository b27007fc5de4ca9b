-- ===== src/Psi/Time/Days.antt =====
-- The days that `mjd` counts are those of the calendar.
use mymuxer.Base.{
  ℕ, zero, suc, ◌+◌, ◌%◌, ◌^◌, ◌≤◌, ◌<◌, ◌≡◌, arith, Bool, inl, inr, Bool-cases, ltb→lt,
  ltb_false→le, ap, sym, ◌∙◌, ◌&&◌, ◌||◌, not, ltb, ◌==◌, if◌then◌else◌,
}
use mymuxer.Psi.Time.{mjd}

-- The Gregorian calendar.
unfoldable pub is_leap : ℕ → Bool
is_leap year = (year % 4 == 0) && (not (year % 100 == 0) || (year % 400 == 0))

unfoldable pub days_in : (year month : ℕ) → ℕ
unfolding is_leap
days_in year month =
    if month == 2
    then (if is_leap year then 29 else 28)
    else if (month == 4) || ((month == 6) || ((month == 9) || (month == 11)))
    then 30
    else 31

-- A day of the calendar, and the one after it.
pub record Day : Type 0 where
  pub year : ℕ
  pub month : ℕ
  pub day : ℕ

pub record IsDay (d : Day) : Type 0 where
  pub year_there : 0 < d.year
  pub month_there : (1 ≤ d.month) × (d.month ≤ 12)
  pub day_there : (1 ≤ d.day) × (d.day ≤ days_in d.year d.month)

unfoldable pub next_day : Day → Day
unfolding days_in
next_day d =
    if ltb d.day (days_in d.year d.month)
    then record d { day = d.day + 1 }
    else if ltb d.month 12
    then record d { month = d.month + 1; day = 1 }
    else record { year = d.year + 1; month = 1; day = 1 }

abbrev pub mjd_day : Day → ℕ
mjd_day d = mjd d.year d.month d.day

same_month :
    (year month day : ℕ) → 0 < year → mjd year month (day + 1) ≡ (mjd year month day + 1) % 2 ^ 16
unfolding mjd
same_month year month day h = ground arith

month_end :
    (year month : ℕ)
    → 0 < year
    → 1 ≤ month
    → month < 12
    → mjd year (month + 1) 1 ≡ (mjd year month (days_in year month) + 1) % 2 ^ 16
unfolding mjd days_in
month_end year zero h i j = absurd (omega arith)
month_end year (suc zero) h i j = ground arith
month_end year (suc (suc zero)) h i j = ground arith
month_end year (suc (suc (suc zero))) h i j = ground arith
month_end year (suc (suc (suc (suc zero)))) h i j = ground arith
month_end year (suc (suc (suc (suc (suc zero))))) h i j = ground arith
month_end year (suc (suc (suc (suc (suc (suc zero)))))) h i j = ground arith
month_end year (suc (suc (suc (suc (suc (suc (suc zero))))))) h i j = ground arith
month_end year (suc (suc (suc (suc (suc (suc (suc (suc zero)))))))) h i j = ground arith
month_end year (suc (suc (suc (suc (suc (suc (suc (suc (suc zero))))))))) h i j = ground arith
month_end year (suc (suc (suc (suc (suc (suc (suc (suc (suc (suc zero)))))))))) h i j = ground arith
month_end year (suc (suc (suc (suc (suc (suc (suc (suc (suc (suc (suc zero))))))))))) h i j =
    ground arith
month_end year (suc (suc (suc (suc (suc (suc (suc (suc (suc (suc (suc (suc m)))))))))))) h i j =
    absurd (omega arith)

year_end :
    (year month day : ℕ)
    → 0 < year
    → month ≡ 12
    → day ≡ days_in year month
    → mjd (year + 1) 1 1 ≡ (mjd year month day + 1) % 2 ^ 16
unfolding mjd days_in
year_end year month day h e f = rw (f, e) (ground arith)

-- The date that `encode_dvb_time` writes grows by one from each day of the calendar after Christ to
-- the next, over the ends of months and years and through leap years, up to its 16 bits.
pub mjd-next_day : (d : Day) → IsDay d → mjd_day (next_day d) ≡ (mjd_day d + 1) % 2 ^ 16
unfolding next_day
mjd-next_day d v = elim (Bool-cases (ltb d.day (days_in d.year d.month))) [
  | inl inside ↦ rw inside (same_month d.year d.month d.day v.year_there)
  | inr past ↦
      let last : d.day ≡ days_in d.year d.month =
        (let there = v.day_there in omega (arith, ltb_false→le _ _ past)) in
      elim (Bool-cases (ltb d.month 12)) [
        | inr end' ↦
            let m : d.month ≡ 12 =
              (let there = v.month_there in omega (arith, ltb_false→le _ _ end')) in
            rw (past, end') (year_end d.year d.month d.day v.year_there m last)
        | inl more ↦
            rw (past, more)
              (month_end d.year d.month v.year_there (v.month_there.0) (ltb→lt _ _ more)
                ∙ ap (λ (t : ℕ). (mjd d.year d.month t + 1) % 2 ^ 16) (sym last))
      ]
]
