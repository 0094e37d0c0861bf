-- ===== src/Time/Calendar.antt =====
-- core/src/time.rs: the date of a day is one of the calendar, and it names the day.
use core_tempo.Common.{
  ℕ, ◌+◌, ◌-◌, ◌*◌, ◌/◌, ◌%◌, ◌<◌, ◌≤◌, ◌≡◌, Bool, ltb, leb, nat_beq, not, ◌&&◌, ◌||◌,
  if◌then◌else◌, arith,
}
use core_tempo.Time.{Civil, year_of_era, days_before, day_of_year, month_from_march}

pub year_of_era-bound : (doe : ℕ) → doe < 146097 → year_of_era doe ≤ 399
year_of_era-bound doe h = omega (arith, h)

pub day_of_year-floor : (doe : ℕ) → doe < 146097 → days_before (year_of_era doe) ≤ doe
day_of_year-floor doe h = omega (arith, h)

pub day_of_year-bound : (doe : ℕ) → doe < 146097 → day_of_year doe ≤ 365
day_of_year-bound doe h = omega (arith, h)

pub month_from_march-bound : (doy : ℕ) → doy ≤ 365 → month_from_march doy ≤ 11
month_from_march-bound doy h = omega (arith, h)

pub month_start : (doy : ℕ) → doy ≤ 365 → (153 * month_from_march doy + 2) / 5 ≤ doy
month_start doy h = omega (arith, h)

pub month_end : (doy : ℕ) → doy ≤ 365 → doy - (153 * month_from_march doy + 2) / 5 + 1 ≤ 31
month_end doy h = omega (arith, h)

-- The Gregorian rule.
abbrev pub is_leap : ℕ → Bool
is_leap y = nat_beq (y % 4) 0 && not (nat_beq (y % 100) 0) || nat_beq (y % 400) 0

-- The days of the years from 0 on before a year: one in four is leap, less one in a hundred, and one in
-- four hundred after all.
abbrev pub days_before_year : ℕ → ℕ
days_before_year y = 365 * y + (y + 3) / 4 - (y + 99) / 100 + (y + 399) / 400

-- The days of a common year before a month.
unfoldable pub days_before_month : ℕ → ℕ
days_before_month m =
    if leb m 1
    then 0
    else if leb m 2
    then 31
    else if leb m 3
    then 59
    else if leb m 4
    then 90
    else if leb m 5
    then 120
    else if leb m 6
    then 151
    else if leb m 7
    then 181
    else if leb m 8
    then 212
    else if leb m 9
    then 243
    else if leb m 10
    then 273
    else if leb m 11
    then 304
    else 334

-- The number of a date, counted in days from the first of January of the year 0.
abbrev pub day_number : Civil → ℕ
day_number date =
    days_before_year date.year
    + days_before_month date.month
    + (if is_leap date.year && ltb 2 date.month then 1 else 0)
    + (date.day - 1)

pub march :
    (era yoe : ℕ)
    → yoe ≤ 399
    → days_before_year (yoe + era * 400) + (if is_leap (yoe + era * 400) then 60 else 59)
      ≡ era * 146097 + days_before yoe + 60
march era yoe h = ground (arith, h)

pub january :
    (era yoe : ℕ)
    → yoe ≤ 399
    → days_before_year (yoe + era * 400 + 1) ≡ era * 146097 + days_before yoe + 366
january era yoe h = omega (arith, h)

pub month_table_low :
    (doy : ℕ)
    → doy ≤ 365
    → month_from_march doy < 10
    → days_before_month (month_from_march doy + 3) ≡ (153 * month_from_march doy + 2) / 5 + 59
unfolding days_before_month
month_table_low doy h low = ground (arith, h, low)
