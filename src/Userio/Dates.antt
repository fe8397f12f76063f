-- ===== src/Userio/Dates.antt =====
-- The times of a conversation in src/userio.rs: `civil_from_days`. All numbers of the code are positive
-- for a day from the 1st of March of the year 0 on: `civil_from_shifted` is the code after its first
-- line, where `z` is the number of days since then, and `civil_from_days` the whole of it, for days
-- from 1970 on.
pub mod Years
pub mod Next
use grepmesh.Prelude.{
  ℕ, ◌+◌, ◌-◌, ◌*◌, ◌/◌, ◌%◌, ◌≤◌, ◌<◌, ◌≡◌, refl, Bool, true, false, ltb, leb, if◌then◌else◌, ◌==◌,
  ==_iff, nat_ord, arith, not, ◌&&◌, ◌||◌, Bool-cases, inl, inr, subst, sym, ap, ◌∙◌, zero, suc,
}

pub record Date : Type 0 where
  pub year : ℕ
  pub month : ℕ
  pub day : ℕ

abbrev pub year_of_era : ℕ → ℕ
year_of_era doe = (doe - doe / 1460 + doe / 36524 - doe / 146096) / 365

abbrev pub day_of_year : ℕ → ℕ → ℕ
day_of_year doe yoe = doe - (365 * yoe + yoe / 4 - yoe / 100)

-- the month and the day of a year that starts in March
abbrev pub date_in : ℕ → ℕ → Date
date_in y doy =
    let mp = (5 * doy + 2) / 153 in
    let d = doy - (153 * mp + 2) / 5 + 1 in
    let m = if ltb mp 10 then mp + 3 else mp - 9 in
    record { year = if leb m 2 then y + 1 else y; month = m; day = d }

unfoldable pub civil_from_shifted : ℕ → Date
civil_from_shifted z =
    let era = z / 146097 in
    let doe = z % 146097 in
    let yoe = year_of_era doe in date_in (yoe + era * 400) (day_of_year doe yoe)

-- for a day from the 1st of January of 1970 on
unfoldable pub civil_from_days : ℕ → Date
unfolding civil_from_shifted
civil_from_days days = civil_from_shifted (days + 719468)

-- The Gregorian calendar: leap years, the lengths of months, and the day after a day.
abbrev pub is_leap : ℕ → Bool
is_leap y = (y % 4 == 0) && (not (y % 100 == 0) || (y % 400 == 0))

abbrev pub days_in_month : ℕ → ℕ → ℕ
days_in_month y m =
    if m == 2
    then (if is_leap y then 29 else 28)
    else if (m == 4) || ((m == 6) || ((m == 9) || (m == 11)))
    then 30
    else 31

unfoldable pub next_day : Date → Date
next_day date =
    if ltb date.day (days_in_month date.year date.month)
    then record date { day = date.day + 1 }
    else if ltb date.month 12
    then record date { month = date.month + 1; day = 1 }
    else record { year = date.year + 1; month = 1; day = 1 }

-- the date some days after another, one day at a time
unfoldable pub days_after : ℕ → Date → Date
days_after zero date = date
days_after (suc n) date = next_day (days_after n date)
