-- ===== src/Calendar/Days.antt =====
-- The days of the calendar and their numbers.
use guardtrak_api.Prelude.{
  ℕ, zero, suc, ◌+◌, ◌-◌, ◌≤◌, ◌<◌, true, false, ◌≡◌, ◌↔◌, ◌⊎◌, inl, inr, refl, arith, ap, ltb,
  Bool-cases, if◌then◌else◌,
}
use guardtrak_api.Prelude.Int.{pos, negsuc}
use guardtrak_api.Calendar.{
  before, DateKey, IsDate, is_leap, days_in_month, days_before_year, days_of_months, day_number,
  next_day, previous_day, add_calendar_days, later_by, earlier_by,
}

pub days_before_year-suc :
    (y : ℕ) → days_before_year (y + 1) ≡ days_before_year y + 365 + (if is_leap y then 1 else 0)
unfolding days_before_year is_leap
days_before_year-suc y = ground arith

pub days_in_month-bounds : (y m : ℕ) → (28 ≤ days_in_month y m) × (days_in_month y m ≤ 31)
unfolding days_in_month
days_in_month-bounds y m = ground arith

pub days_of_months_year : (y : ℕ) → days_of_months y 12 ≡ 365 + (if is_leap y then 1 else 0)
unfolding days_of_months days_in_month
days_of_months_year y = ground arith

pub next_day-IsDate : (k : DateKey) → IsDate k → IsDate (next_day k)
unfolding next_day
next_day-IsDate k v =
    ground
      (arith, v, days_in_month-bounds k.year (k.month + 1), days_in_month-bounds (k.year + 1) 1)

month_step : (y m : ℕ) → 1 ≤ m → days_of_months y (m - 1) + days_in_month y m ≡ days_of_months y m
unfolding days_of_months
month_step y zero h = absurd (omega arith)
month_step y (suc m) h = let e : suc m - 1 ≡ m = omega arith in rw e

-- Each day's number is one more than that of the day before.
pub day_number-next_day : (k : DateKey) → IsDate k → day_number (next_day k) ≡ day_number k + 1
unfolding next_day day_number days_of_months
day_number-next_day k v =
    ground
      (arith, v, month_step k.year k.month, days_of_months_year k.year, days_before_year-suc k.year)

pub previous_day-next_day : (k : DateKey) → IsDate k → previous_day (next_day k) ≡ k
unfolding next_day previous_day days_in_month
previous_day-next_day k v = ground arith

months_le : (y d m n : ℕ) → m + d ≡ n → days_of_months y m ≤ days_of_months y n
unfolding days_of_months
months_le y zero m n e = let e' : m ≡ n = omega arith in rw e' (omega arith)
months_le y (suc d) m n e =
    let e' : n ≡ suc (m + d) = omega arith in rw e' (omega (arith, months_le y d m (m + d) refl))

years_le : (d y z : ℕ) → y + d ≡ z → days_before_year y ≤ days_before_year z
years_le zero y z e = let e' : y ≡ z = omega arith in rw e' (omega arith)
years_le (suc d) y z e =
    let e' : z ≡ y + d + 1 = omega arith in
    rw e' (omega (arith, years_le d y (y + d) refl, days_before_year-suc (y + d)))

-- A date lies within its month and its year.
in_year :
    (k : DateKey)
    → IsDate k
    → (1 ≤ k.day)
      × (days_of_months k.year (k.month - 1) + k.day ≤ days_of_months k.year k.month)
      × (days_of_months k.year k.month ≤ days_of_months k.year 12)
      × (days_before_year k.year + days_of_months k.year 12 ≡ days_before_year (k.year + 1))
in_year k v = (
  v.2,
  omega (arith, month_step k.year k.month),
  months_le k.year (12 - k.month) k.month 12 (omega arith),
  omega (arith, days_of_months_year k.year, days_before_year-suc k.year),
)

-- Earlier by year, month and day is a smaller number.
earlier_year : (a b : DateKey) → IsDate a → IsDate b → a.year < b.year → day_number a < day_number b
unfolding day_number
earlier_year a b v w h = omega (
  arith,
  years_le (b.year - (a.year + 1)) (a.year + 1) b.year (omega arith),
  in_year a v,
  in_year b w,
)

earlier_month :
    (y : ℕ) (m d m' d' : ℕ)
    → IsDate (record { year = y; month = m; day = d })
    → IsDate (record { year = y; month = m'; day = d' })
    → m < m'
    → day_number (record { year = y; month = m; day = d })
      < day_number (record { year = y; month = m'; day = d' })
unfolding day_number
earlier_month y m d m' d' v w h = omega (
  arith,
  months_le y (m' - 1 - m) m (m' - 1) (omega arith),
  in_year (record { year = y; month = m; day = d }) v,
)

abbrev date : ℕ → ℕ → ℕ → DateKey
date y m d = record { year = y; month = m; day = d }

same_year :
    (y y' m d m' d' : ℕ)
    → y ≡ y'
    → IsDate (date y m d)
    → IsDate (date y' m' d')
    → ltb m m' ≡ true
    → day_number (date y m d) < day_number (date y' m' d')
same_year y y' m d m' d' e v w h =
    rw (← e) (earlier_month y m d m' d' v (rw (← e) at w) (ground arith))

same_month :
    (y y' m d m' d' : ℕ)
    → y ≡ y'
    → m ≡ m'
    → d < d'
    → day_number (date y m d) < day_number (date y' m' d')
unfolding day_number
same_month y y' m d m' d' e f h = rw (← e, ← f) (omega arith)

pub before-lt :
    (a b : DateKey) → IsDate a → IsDate b → before a b ≡ true → day_number a < day_number b
unfolding before
before-lt a b v w h = elim (Bool-cases (ltb a.year b.year)) [
  | inl e ↦ earlier_year a b v w (ground arith)
  | inr e ↦ elim (Bool-cases (ltb a.month b.month)) [
    | inl f ↦ same_year a.year b.year a.month a.day b.month b.day (ground arith) v w f
    | inr f ↦
        same_month a.year b.year a.month a.day b.month b.day (ground arith) (ground arith)
          (ground arith)
  ]
]

not_before :
    (a b : DateKey)
    → before a b ≡ false
    → (before b a ≡ true) ⊎ ((a.year ≡ b.year) × (a.month ≡ b.month) × (a.day ≡ b.day))
unfolding before
not_before a b h = ground arith

-- The order of two dates, by year, month and day, is that of their numbers.
pub before_iff :
    (a b : DateKey) → IsDate a → IsDate b → (before a b ≡ true) ↔ (day_number a < day_number b)
unfolding day_number
before_iff a b v w = (
  before-lt a b v w,
  λ h. elim (Bool-cases (before a b)) [
    | inl e ↦ e
    | inr e ↦ elim (not_before a b e) [
      | inl later ↦ absurd (omega (arith, before-lt b a w v later))
      | inr same ↦ absurd (
          omega (
            arith,
            ap days_before_year same.0,
            ap (λ y. days_of_months y (a.month - 1)) same.0,
            ap (λ m. days_of_months b.year (m - 1)) same.1,
          ))
    ]
  ],
)

later_by-IsDate : (n : ℕ) (k : DateKey) → IsDate k → IsDate (later_by n k)
unfolding later_by
later_by-IsDate zero k v = v
later_by-IsDate (suc n) k v = next_day-IsDate (later_by n k) (later_by-IsDate n k v)

-- Adding n days to a date gives a date, n days later.
pub add_calendar_days-IsDate :
    (k : DateKey) (n : ℕ) → IsDate k → IsDate (add_calendar_days k (pos n))
unfolding add_calendar_days
add_calendar_days-IsDate k n v = later_by-IsDate n k v

-- Adding days to a date of the calendar moves its day number by as many, over the ends of months
-- and years and in leap years too.
pub day_number-add_calendar_days :
    (k : DateKey) (n : ℕ) → IsDate k → day_number (add_calendar_days k (pos n)) ≡ day_number k + n
unfolding add_calendar_days later_by
day_number-add_calendar_days k zero v = omega arith
day_number-add_calendar_days k (suc n) v = omega (
  arith,
  day_number-next_day (later_by n k) (later_by-IsDate n k v),
  day_number-add_calendar_days k n v,
)

-- The day before the day after a date of the calendar is that date.
pub add_calendar_days_back :
    (k : DateKey) → IsDate k → add_calendar_days (add_calendar_days k (pos 1)) (negsuc 0) ≡ k
unfolding add_calendar_days later_by earlier_by
add_calendar_days_back k v = previous_day-next_day k v
