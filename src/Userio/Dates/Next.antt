-- ===== src/Userio/Dates/Next.antt =====
-- src/userio.rs, `civil_from_days`: the dates of two days that follow each other.
use grepmesh.Prelude.{
  ℕ, ◌+◌, ◌-◌, ◌≤◌, ◌<◌, ◌≡◌, refl, true, false, ltb, ==_iff, nat_ord, arith, Bool-cases, inl, inr,
  subst, sym, ap, ◌∙◌, zero, suc,
}
use grepmesh.Userio.Dates.{
  date_in, civil_from_shifted, civil_from_days, is_leap, next_day, days_after,
}
use grepmesh.Userio.Dates.Years.{
  year_start, year_of, year_of-starts, civil_from_shifted-date_in, year_unique, year_start-longer,
  year_length-leap, year_length-common,
}

next_day-within : (y doy : ℕ) → doy < 364 → next_day (date_in y doy) ≡ date_in y (doy + 1)
unfolding next_day
next_day-within y doy lt = ground (arith, ==_iff {K = ℕ})

next_day-leap : (y : ℕ) → is_leap (y + 1) ≡ true → next_day (date_in y 364) ≡ date_in y 365
unfolding next_day
next_day-leap y leap = simp (leap)

next_day-common : (y : ℕ) → is_leap (y + 1) ≡ false → next_day (date_in y 364) ≡ date_in (y + 1) 0
unfolding next_day
next_day-common y common = simp (common)

next_day-last : (y : ℕ) → is_leap (y + 1) ≡ true → next_day (date_in y 365) ≡ date_in (y + 1) 0
unfolding next_day
next_day-last y leap = simp (leap)

rest_of : (s n d k : ℕ) → n ≡ s + k → s + d + 1 < n → d + 1 < k
rest_of s n d k length lt = omega arith

last_of : (s n d k : ℕ) → n ≡ s + (k + 1) → s + d + 1 ≡ n → d ≡ k
last_of s n d k length last = omega arith

-- the day after a day of a year is in that year, or the first day of the next one
next_day-same_year :
    (y d : ℕ)
    → year_start y + d + 1 < year_start (y + 1)
    → next_day (date_in y d) ≡ date_in y (d + 1)
next_day-same_year y d lt = elim (Bool-cases (is_leap (y + 1))) [
  | inl leap ↦
      let few = rest_of (year_start y) (year_start (y + 1)) d 366 (year_length-leap y leap) lt in
      elim (Bool-cases (ltb d 364)) [
        | inl c ↦ next_day-within y d (ground arith)
        | inr c ↦
            let last : d ≡ 364 = ground arith in
            subst (λ n. next_day (date_in y n) ≡ date_in y (n + 1)) (sym last)
              (next_day-leap y leap)
      ]
  | inr common ↦
      let few =
        rest_of (year_start y) (year_start (y + 1)) d 365 (year_length-common y common) lt in
      next_day-within y d (omega arith)
]

next_day-new_year :
    (y d : ℕ)
    → year_start y + d + 1 ≡ year_start (y + 1)
    → next_day (date_in y d) ≡ date_in (y + 1) 0
next_day-new_year y d end = elim (Bool-cases (is_leap (y + 1))) [
  | inl leap ↦
      let last = last_of (year_start y) (year_start (y + 1)) d 365 (year_length-leap y leap) end in
      subst (λ n. next_day (date_in y n) ≡ date_in (y + 1) 0) (sym last) (next_day-last y leap)
  | inr common ↦
      let last =
        last_of (year_start y) (year_start (y + 1)) d 364 (year_length-common y common) end in
      subst (λ n. next_day (date_in y n) ≡ date_in (y + 1) 0) (sym last) (next_day-common y common)
]

at_least : (s d : ℕ) → s ≤ s + d
at_least s d = omega arith

days_into : (s d : ℕ) → s + d - s ≡ d
days_into s d = omega arith

-- a day that is `d` days into a year is that date
civil_from_shifted-in_year :
    (y d z : ℕ) → z ≡ year_start y + d → z < year_start (y + 1) → civil_from_shifted z ≡ date_in y d
civil_from_shifted-in_year y d z e lt =
    let same : year_of z ≡ y =
      year_unique (year_of z) y z (year_of-starts z)
        (subst (λ n. year_start y ≤ n) (sym e) (at_least (year_start y) d), lt) in
    let into : z - year_start y ≡ d = ap (λ n. n - year_start y) e ∙ days_into (year_start y) d in
    civil_from_shifted-date_in z
    ∙ subst (λ n. date_in (year_of z) (z - year_start (year_of z)) ≡ date_in n (z - year_start n))
        same refl
    ∙ ap (date_in y) into

one_more : (s d z : ℕ) → z ≡ s + d → z + 1 ≡ s + (d + 1)
one_more s d z e = omega arith

from_start : (s : ℕ) → s ≡ s + 0
from_start s = omega arith

not_before : (day end : ℕ) → ltb (day + 1) end ≡ false → day < end → day + 1 ≡ end
not_before day end c lt = ground arith

civil_from_shifted-after :
    (y d z : ℕ)
    → z ≡ year_start y + d
    → z < year_start (y + 1)
    → civil_from_shifted (z + 1) ≡ next_day (date_in y d)
civil_from_shifted-after y d z e lt = elim (Bool-cases (ltb (z + 1) (year_start (y + 1)))) [
  | inl c ↦
      let inside : z + 1 < year_start (y + 1) = ground arith in
      civil_from_shifted-in_year y (d + 1) (z + 1) (one_more (year_start y) d z e) inside
      ∙ sym (next_day-same_year y d (subst (λ n. n + 1 < year_start (y + 1)) e inside))
  | inr c ↦
      let first : z + 1 ≡ year_start (y + 1) = not_before z (year_start (y + 1)) c lt in
      let before : z + 1 < year_start (y + 1 + 1) =
        subst (λ n. n < year_start (y + 1 + 1)) (sym first) (year_start-longer (y + 1)) in
      civil_from_shifted-in_year (y + 1) 0 (z + 1) (first ∙ from_start (year_start (y + 1))) before
      ∙ sym (next_day-new_year y d (subst (λ n. n + 1 ≡ year_start (y + 1)) e first))
]

days_split : (s z : ℕ) → s ≤ z → z ≡ s + (z - s)
days_split s z le = omega arith

-- The date of a day is one calendar day after the date of the day before it.
civil_from_shifted-next_day : (z : ℕ) → civil_from_shifted (z + 1) ≡ next_day (civil_from_shifted z)
civil_from_shifted-next_day z =
    let y = year_of z in
    let within = year_of-starts z in
    let split = days_split (year_start y) z within.0 in
    civil_from_shifted-after y (z - year_start y) z split within.1
    ∙ ap next_day (sym (civil_from_shifted-date_in z))

civil_from_shifted-days_after :
    (z : ℕ) → civil_from_shifted z ≡ days_after z (record { year = 0; month = 3; day = 1 })
unfolding days_after civil_from_shifted
civil_from_shifted-days_after zero = refl
civil_from_shifted-days_after (suc z) =
    let later : suc z ≡ z + 1 = omega arith in
    ap civil_from_shifted later
    ∙ civil_from_shifted-next_day z
    ∙ ap next_day (civil_from_shifted-days_after z)

civil_from_epoch :
    (days : ℕ)
    → civil_from_shifted (days + 719468)
      ≡ days_after days (record { year = 1970; month = 1; day = 1 })
unfolding days_after civil_from_shifted
civil_from_epoch zero = refl
civil_from_epoch (suc days) =
    let later : suc days + 719468 ≡ days + 719468 + 1 = omega arith in
    ap civil_from_shifted later
    ∙ civil_from_shifted-next_day (days + 719468)
    ∙ ap next_day (civil_from_epoch days)

-- For every number `n`, the date that `civil_from_days` computes for `n` days after its epoch is the one
-- that counting forward from the 1st of January of 1970 gives, one calendar day at a time; and the
-- date that the code after its first line computes for `n` days after the 1st of March of the year 0
-- is the one that counting forward from that day gives.
pub civil_from_days-days_after :
    (n : ℕ)
    → (civil_from_shifted n ≡ days_after n (record { year = 0; month = 3; day = 1 }))
      × (civil_from_days n ≡ days_after n (record { year = 1970; month = 1; day = 1 }))
unfolding civil_from_days
civil_from_days-days_after n = (civil_from_shifted-days_after n, civil_from_epoch n)
