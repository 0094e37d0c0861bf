-- ===== src/Time.antt =====
-- core/src/time.rs: `Timestamp::from_unix_seconds`. Days since 1970 are not negative, and far below the bounds
-- of `i64`, so natural numbers do for it; each subtraction is of a smaller number, which Time/Calendar shows.
pub mod Calendar
pub mod DayNumber
use core_tempo.Common.{
  ℕ, ◌+◌, ◌-◌, ◌*◌, ◌/◌, ◌%◌, String, str_append, List, [], ◌∷◌, show, concat, ltb, leb,
  if◌then◌else◌,
}

pub record Civil : Type 0 where
  pub year : ℕ
  pub month : ℕ
  pub day : ℕ

-- The day of the 400 years, the year of them, the day of that year from March on, and its month from March.
abbrev pub day_of_era : ℕ → ℕ
day_of_era days = (days + 719468) % 146097

abbrev pub year_of_era : ℕ → ℕ
year_of_era doe = (doe - doe / 1460 + doe / 36524 - doe / 146096) / 365

abbrev pub days_before : ℕ → ℕ
days_before yoe = 365 * yoe + yoe / 4 - yoe / 100

abbrev pub day_of_year : ℕ → ℕ
day_of_year doe = doe - days_before (year_of_era doe)

abbrev pub month_from_march : ℕ → ℕ
month_from_march doy = (5 * doy + 2) / 153

abbrev pub month_of : ℕ → ℕ
month_of mp = if ltb mp 10 then mp + 3 else mp - 9

abbrev pub year_at : ℕ → ℕ → ℕ
year_at year month = if leb month 2 then year + 1 else year

abbrev pub civil_at : ℕ → ℕ → ℕ → Civil
civil_at era yoe doy =
    let mp = month_from_march doy in
    record {
      year = year_at (yoe + era * 400) (month_of mp);
      month = month_of mp;
      day = doy - (153 * mp + 2) / 5 + 1;
    }

unfoldable pub civil : ℕ → Civil
civil days =
    let doe = day_of_era days in
    civil_at ((days + 719468) / 146097) (year_of_era doe) (day_of_year doe)

-- A number in at least so many digits.
abbrev two_digits : ℕ → String
two_digits n = if ltb n 10 then str_append "0" (show n) else show n

abbrev four_digits : ℕ → String
four_digits n =
    if ltb n 10
    then str_append "000" (show n)
    else if ltb n 100
    then str_append "00" (show n)
    else if ltb n 1000
    then str_append "0" (show n)
    else show n

unfoldable pub from_unix_seconds : ℕ → String
unfolding civil
from_unix_seconds secs =
    let rem = secs % 86400 in
    let date = civil (secs / 86400) in
    concat (
      four_digits date.year
      ∷ "-"
      ∷ two_digits date.month
      ∷ "-"
      ∷ two_digits date.day
      ∷ "T"
      ∷ two_digits (rem / 3600)
      ∷ ":"
      ∷ two_digits (rem % 3600 / 60)
      ∷ ":"
      ∷ two_digits (rem % 60)
      ∷ "Z"
      ∷ [])
