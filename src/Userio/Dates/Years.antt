-- ===== src/Userio/Dates/Years.antt =====
-- src/userio.rs, `civil_from_shifted`: the years that it counts start in March, after a leap day.
use grepmesh.Prelude.{
  ℕ, ◌+◌, ◌-◌, ◌*◌, ◌/◌, ◌%◌, ◌≤◌, ◌<◌, ◌≡◌, true, false, leb, ==_iff, nat_ord, arith, Bool-cases,
  inl, inr, subst, sym, ap, ◌∙◌, zero, suc,
}
use grepmesh.Userio.Dates.{year_of_era, day_of_year, date_in, civil_from_shifted, is_leap}

year_of_era-bound : (doe : ℕ) → doe < 146097 → year_of_era doe < 400
year_of_era-bound doe lt = omega arith

day_of_year-bound : (doe : ℕ) → doe < 146097 → day_of_year doe (year_of_era doe) < 366
day_of_year-bound doe lt = omega arith

abbrev pub year_start : ℕ → ℕ
year_start y = 365 * y + y / 4 - y / 100 + y / 400

year_of_era-starts :
    (doe : ℕ)
    → doe < 146097
    → (year_start (year_of_era doe) ≤ doe) × (doe < year_start (year_of_era doe + 1))
year_of_era-starts doe lt = (omega arith, omega arith)

pub year_start-step : (y : ℕ) → year_start y ≤ year_start (y + 1)
year_start-step y = omega arith

pub year_start-grows : (k y : ℕ) → year_start y ≤ year_start (y + k)
year_start-grows zero y = omega arith
year_start-grows (suc k) y =
    let before : year_start y ≤ year_start (y + k) = year_start-grows k y in
    let step : year_start (y + k) ≤ year_start (y + k + 1) = year_start-step (y + k) in
    let same : y + suc k ≡ y + k + 1 = omega arith in
    subst (λ n. year_start y ≤ year_start n) (sym same) (omega arith)

pub year_start_mono : (a b : ℕ) → a ≤ b → year_start a ≤ year_start b
year_start_mono a b le =
    let same : a + (b - a) ≡ b = omega arith in
    subst (λ n. year_start a ≤ year_start n) same (year_start-grows (b - a) a)

no_later : (a b day : ℕ) → year_start b ≤ day → day < year_start (a + 1) → b ≤ a
no_later a b day le lt = elim (Bool-cases (leb b a)) [
  | inl c ↦ ground arith
  | inr c ↦
      let later : a + 1 ≤ b = ground arith in
      let grows : year_start (a + 1) ≤ year_start b = year_start_mono (a + 1) b later in
      absurd (omega arith)
]

pub year_start-eras : (y era : ℕ) → year_start (y + era * 400) ≡ year_start y + 146097 * era
year_start-eras y era =
    let quarters : (y + era * 400) / 4 ≡ y / 4 + 100 * era = omega arith in
    let centuries : (y + era * 400) / 100 ≡ y / 100 + 4 * era = omega arith in
    let eras : (y + era * 400) / 400 ≡ y / 400 + era = omega arith in omega arith

-- the year that starts in March and contains a day
abbrev pub year_of : ℕ → ℕ
year_of z = year_of_era (z % 146097) + z / 146097 * 400

shift_le : (s doe eras t z : ℕ) → z ≡ doe + 146097 * eras → t ≡ s + 146097 * eras → s ≤ doe → t ≤ z
shift_le s doe eras t z whole first le = omega arith

shift_lt : (s doe eras t z : ℕ) → z ≡ doe + 146097 * eras → t ≡ s + 146097 * eras → doe < s → z < t
shift_lt s doe eras t z whole next lt = omega arith

shift_sub : (s doe eras t z : ℕ) → z ≡ doe + 146097 * eras → t ≡ s + 146097 * eras → z - t ≡ doe - s
shift_sub s doe eras t z whole first = omega arith

pub year_of-starts : (z : ℕ) → (year_start (year_of z) ≤ z) × (z < year_start (year_of z + 1))
year_of-starts z =
    let doe = z % 146097 in
    let era = z / 146097 in
    let yoe = year_of_era doe in
    let bound : doe < 146097 = omega arith in
    let within = year_of_era-starts doe bound in
    let whole : z ≡ doe + 146097 * era = omega arith in
    let same : yoe + 1 + era * 400 ≡ yoe + era * 400 + 1 = omega arith in
    let next : year_start (yoe + era * 400 + 1) ≡ year_start (yoe + 1) + 146097 * era =
      subst (λ n. year_start n ≡ year_start (yoe + 1) + 146097 * era) same
        (year_start-eras (yoe + 1) era) in
    (
      shift_le (year_start yoe) doe era (year_start (yoe + era * 400)) z whole
          (year_start-eras yoe era) within.0,
      shift_lt (year_start (yoe + 1)) doe era (year_start (yoe + era * 400 + 1)) z whole next
          within.1,
    )

day_of_year-eras :
    (doe yoe era z : ℕ)
    → yoe < 400
    → z ≡ doe + 146097 * era
    → day_of_year doe yoe ≡ z - year_start (yoe + era * 400)
day_of_year-eras doe yoe era z bound whole =
    let first : year_start (yoe + era * 400) ≡ year_start yoe + 146097 * era =
      year_start-eras yoe era in
    let start : year_start yoe ≡ 365 * yoe + yoe / 4 - yoe / 100 = omega arith in
    ap (λ n. doe - n) (sym start)
    ∙ sym (shift_sub (year_start yoe) doe era (year_start (yoe + era * 400)) z whole first)

pub civil_from_shifted-date_in :
    (z : ℕ) → civil_from_shifted z ≡ date_in (year_of z) (z - year_start (year_of z))
unfolding civil_from_shifted
civil_from_shifted-date_in z =
    let doe = z % 146097 in
    ap (date_in (year_of z)) (
      day_of_year-eras doe (year_of_era doe) (z / 146097) z (year_of_era-bound doe (omega arith))
        (omega arith))

pub year_length-leap : (y : ℕ) → is_leap (y + 1) ≡ true → year_start (y + 1) ≡ year_start y + 366
year_length-leap y leap = ground (arith, ==_iff {K = ℕ})

pub year_length-common : (y : ℕ) → is_leap (y + 1) ≡ false → year_start (y + 1) ≡ year_start y + 365
year_length-common y common = ground (arith, ==_iff {K = ℕ})

pub year_unique :
    (a b day : ℕ)
    → (year_start a ≤ day) × (day < year_start (a + 1))
    → (year_start b ≤ day) × (day < year_start (b + 1))
    → a ≡ b
year_unique a b day h k =
    let le : b ≤ a = no_later a b day k.0 h.1 in
    let ge : a ≤ b = no_later b a day h.0 k.1 in omega arith

pub year_start-longer : (y : ℕ) → year_start y < year_start (y + 1)
year_start-longer y = omega arith
