-- ===== src/Calendar.antt =====
-- common/utils/timezone.util.ts, the part on calendar dates. A date key 'YYYY-MM-DD' is the record of
-- its three numbers; for the years 0 to 9999 the order of two keys as texts is the order by year,
-- month and day. `Date.UTC` counts days in the Gregorian calendar; a `Date` is its milliseconds since
-- the epoch, none of them before it.
pub mod Days
use guardtrak_api.Prelude.{
  ℕ, zero, suc, ◌+◌, ◌-◌, ◌*◌, ◌/◌, ◌%◌, ◌≤◌, Bool, true, false, not, ◌&&◌, ◌||◌, ltb, leb, ◌==◌,
  if◌then◌else◌,
}
use guardtrak_api.Prelude.Int.{ℤ, pos, negsuc}

pub record DateKey : Type 0 where
  pub year : ℕ
  pub month : ℕ
  pub day : ℕ

-- `a < b`
unfoldable pub before : DateKey → DateKey → Bool
before a b =
    ltb a.year b.year
    || (a.year == b.year && (ltb a.month b.month || (a.month == b.month && ltb a.day b.day)))

-- `a === b`
unfoldable pub same_key : DateKey → DateKey → Bool
same_key a b = a.year == b.year && (a.month == b.month && a.day == b.day)

unfoldable pub is_leap : ℕ → Bool
is_leap y = y % 4 == 0 && (not (y % 100 == 0) || y % 400 == 0)

unfoldable pub days_in_month : ℕ → ℕ → ℕ
unfolding is_leap
days_in_month y m =
    if m == 2
    then (if is_leap y then 29 else 28)
    else (if m == 4 || (m == 6 || (m == 9 || m == 11)) then 30 else 31)

-- A date of the calendar, as every key is that the code computes.
abbrev pub IsDate : DateKey → Type 0
IsDate k = (1 ≤ k.month) × (k.month ≤ 12) × (1 ≤ k.day) × (k.day ≤ days_in_month k.year k.month)

unfoldable pub days_before_year : ℕ → ℕ
days_before_year y = y * 365 + (y + 3) / 4 + (y + 399) / 400 - (y + 99) / 100

-- The days of the first months of a year.
unfoldable pub days_of_months : ℕ → ℕ → ℕ
days_of_months y zero = 0
days_of_months y (suc m) = days_of_months y m + days_in_month y (suc m)

-- The number of a day, counted from the beginning of the year 0.
unfoldable pub day_number : DateKey → ℕ
day_number k = days_before_year k.year + days_of_months k.year (k.month - 1) + k.day

-- The number of 1970-01-01.
abbrev pub epoch_day : ℕ
epoch_day = 719529

-- `Date.UTC(year, month - 1, day, hour, minute, second)`
unfoldable pub date_utc : DateKey → ℕ → ℕ → ℕ → ℕ
unfolding day_number
date_utc k hour minute second =
    (day_number k - epoch_day) * 86400000 + hour * 3600000 + minute * 60000 + second * 1000

unfoldable pub next_day : DateKey → DateKey
next_day k =
    if ltb k.day (days_in_month k.year k.month)
    then record k { day = k.day + 1 }
    else if ltb k.month 12
    then record { year = k.year; month = k.month + 1; day = 1 }
    else record { year = k.year + 1; month = 1; day = 1 }

unfoldable pub previous_day : DateKey → DateKey
previous_day k =
    if ltb 1 k.day
    then record k { day = k.day - 1 }
    else if ltb 1 k.month
    then record { year = k.year; month = k.month - 1; day = days_in_month k.year (k.month - 1) }
    else record { year = k.year - 1; month = 12; day = 31 }

later_by : ℕ → DateKey → DateKey
later_by zero k = k
later_by (suc n) k = next_day (later_by n k)

earlier_by : ℕ → DateKey → DateKey
earlier_by zero k = k
earlier_by (suc n) k = previous_day (earlier_by n k)

-- `addCalendarDays`: `Date.UTC` takes a day outside of its month over into the months beside it.
unfoldable pub add_calendar_days : DateKey → ℤ → DateKey
unfolding later_by earlier_by
add_calendar_days k (pos n) = later_by n k
add_calendar_days k (negsuc n) = earlier_by (suc n) k

-- `dateKeyToUtcDate`
unfoldable pub date_key_to_utc_date : DateKey → ℕ
unfolding date_utc
date_key_to_utc_date k = date_utc k 0 0 0
