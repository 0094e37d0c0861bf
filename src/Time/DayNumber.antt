-- ===== src/Time/DayNumber.antt =====
-- core/src/time.rs: the date of a day, against a count of the days of the years and months before it.
use core_tempo.Common.{
  ℕ, ◌+◌, ◌-◌, ◌*◌, ◌/◌, ◌<◌, ◌≤◌, ◌≡◌, refl, ◌∙◌, true, false, ltb, leb, nat_beq, nat_beq_iff,
  if◌then◌else◌, arith, inl, inr, Bool-cases,
}
use core_tempo.Time.{
  day_of_era, year_of_era, days_before, day_of_year, month_from_march, civil, civil_at,
}
use core_tempo.Time.Calendar.{
  year_of_era-bound, day_of_year-floor, day_of_year-bound, month_from_march-bound, month_start,
  month_end, is_leap, days_before_year, days_before_month, day_number, march, january,
  month_table_low,
}

spring :
    (era yoe doy : ℕ)
    → yoe ≤ 399
    → doy ≤ 365
    → month_from_march doy < 10
    → days_before_year (yoe + era * 400)
        + days_before_month (month_from_march doy + 3)
        + (if is_leap (yoe + era * 400) then 1 else 0)
        + (doy - (153 * month_from_march doy + 2) / 5 + 1 - 1)
      ≡ era * 146097 + days_before yoe + doy + 60
spring era yoe doy hy hd low =
    let table = month_table_low doy hd low in
    let start = month_start doy hd in
    let m = march era yoe hy in
    elim (Bool-cases (is_leap (yoe + era * 400))) [
      | inl leap ↦ rw (leap, table) (omega (arith, start, rw leap at m))
      | inr common ↦ rw (common, table) (omega (arith, start, rw common at m))
    ]

winter :
    (era yoe doy : ℕ)
    → yoe ≤ 399
    → doy ≤ 365
    → 10 ≤ month_from_march doy
    → days_before_year (yoe + era * 400 + 1)
        + days_before_month (month_from_march doy - 9)
        + (doy - (153 * month_from_march doy + 2) / 5 + 1 - 1)
      ≡ era * 146097 + days_before yoe + doy + 60
unfolding days_before_month
winter era yoe doy hy hd high =
    let j = january era yoe hy in
    let top = month_from_march-bound doy hd in
    let start = month_start doy hd in
    elim (Bool-cases (nat_beq (month_from_march doy) 10)) [
      | inl ten ↦
          let is : month_from_march doy ≡ 10 = (nat_beq_iff (month_from_march doy) 10).0 ten in
          rw is (omega (arith, j, rw is at start))
      | inr eleven ↦
          let is : month_from_march doy ≡ 11 =
            ground (arith, top, high, nat_beq_iff (month_from_march doy) 10, eleven) in
          rw is (omega (arith, j, rw is at start))
    ]

civil_at-day_number :
    (era yoe doy mp : ℕ)
    → yoe ≤ 399
    → doy ≤ 365
    → month_from_march doy ≡ mp
    → day_number (civil_at era yoe doy) ≡ era * 146097 + days_before yoe + doy + 60
civil_at-day_number era yoe doy mp hy hd is = elim (Bool-cases (ltb mp 10)) [
  | inl low ↦
      let s = rw is at (spring era yoe doy hy hd (rw is (ground (arith, low)))) in
      let after : leb (mp + 3) 2 ≡ false = ground arith in
      let past : ltb 2 (mp + 3) ≡ true = ground arith in
      elim (Bool-cases (is_leap (yoe + era * 400))) [
        | inl leap ↦ rw (is, low, after, past, leap) (rw leap at s)
        | inr common ↦ rw (is, low, after, past, common) (rw common at s)
      ]
  | inr high ↦
      let top = rw is at (month_from_march-bound doy hd) in
      let w = rw is at (winter era yoe doy hy hd (rw is (ground (arith, high)))) in
      let first : leb (mp - 9) 2 ≡ true = ground (arith, top) in
      let early : ltb 2 (mp - 9) ≡ false = ground (arith, top) in
      elim (Bool-cases (is_leap (yoe + era * 400 + 1))) [
        | inl leap ↦ rw (is, high, first, early, leap) (omega (arith, w))
        | inr common ↦ rw (is, high, first, early, common) (omega (arith, w))
      ]
]

civil_at_bounds :
    (era yoe doy : ℕ)
    → doy ≤ 365
    → (1 ≤ (civil_at era yoe doy).month)
      × ((civil_at era yoe doy).month ≤ 12)
      × (1 ≤ (civil_at era yoe doy).day)
      × ((civil_at era yoe doy).day ≤ 31)
civil_at_bounds era yoe doy hd =
    let top = month_from_march-bound doy hd in
    let end = month_end doy hd in
    elim (Bool-cases (ltb (month_from_march doy) 10)) [
      | inl low ↦ rw low (ground (arith, low), ground (arith, low), omega arith, end)
      | inr high ↦ rw high (ground (arith, high), ground (arith, top), omega arith, end)
    ]

-- The date written for a day since 1970 is the one whose days of the years and months before it number that
-- day, counted by the Gregorian rule from the first of January of the year 0; its month is from 1 to 12
-- and its day from 1 to 31.
pub civil-day_number :
    (days : ℕ)
    → (day_number (civil days) ≡ days + 719528)
      × (1 ≤ (civil days).month)
      × ((civil days).month ≤ 12)
      × (1 ≤ (civil days).day)
      × ((civil days).day ≤ 31)
unfolding civil
civil-day_number days =
    let below : day_of_era days < 146097 = omega arith in
    let doy = day_of_year (day_of_era days) in
    let yoe_top = year_of_era-bound (day_of_era days) below in
    let doy_top = day_of_year-bound (day_of_era days) below in
    let floor = day_of_year-floor (day_of_era days) below in
    let era : days + 719468 ≡ (days + 719468) / 146097 * 146097 + day_of_era days = omega arith in
    let number =
      civil_at-day_number ((days + 719468) / 146097) (year_of_era (day_of_era days)) doy
        (month_from_march doy) yoe_top doy_top refl in
    let split : days_before (year_of_era (day_of_era days)) + doy ≡ day_of_era days =
      omega (arith, floor) in
    let bounds =
      civil_at_bounds ((days + 719468) / 146097) (year_of_era (day_of_era days)) doy doy_top in
    (number ∙ omega (arith, era, split), bounds.0, bounds.1, bounds.2, bounds.3)
