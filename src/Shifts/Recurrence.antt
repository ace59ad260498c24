-- ===== src/Shifts/Recurrence.antt =====
-- modules/shifts/shift-recurrence.util.ts. A date key that a client sends counts only where it is equal
-- to a computed one, so one that is no date is `none`.
pub mod Range
pub mod Window
pub mod Dates
pub mod Expand
pub mod ClockIn
pub mod Scheduled
use guardtrak_api.Prelude.{
  ℕ, zero, suc, ◌+◌, ◌-◌, ◌*◌, Bool, true, false, not, ◌&&◌, ◌||◌, Option, none, some, List, [],
  ◌∷◌, map, ltb, leb, ◌==◌, if◌then◌else◌,
}
use guardtrak_api.Prelude.Int.{ℤ, pos, negsuc, JsNumber, fin, non_finite}
use guardtrak_api.Calendar.{DateKey, before, same_key, day_number, add_calendar_days}
use guardtrak_api.Timezone.{Intl, resolve_time_zone, zoned_parts, zoned_date_key, zoned_date_time}
use guardtrak_api.Shifts.Schedule.{ranges_overlap}

pub data RecurrenceType : Type 0 where
  not_recurring daily weekly custom_weekdays : RecurrenceType

pub record ShiftRecurrenceInput : Type 0 where
  pub recurrence_type : Option RecurrenceType
  pub scheduled_start_at : ℕ
  pub scheduled_end_at : ℕ
  pub recurrence_end_at : Option ℕ
  pub recurrence_days_of_week : List JsNumber
  pub timezone : Option ℕ
  pub organisation_timezone : Option ℕ

pub record ShiftOccurrence : Type 0 where
  pub date_key : DateKey
  pub start_at : ℕ
  pub end_at : ℕ

unfoldable pub is_recurring_shift : Option RecurrenceType → Bool
is_recurring_shift (some daily) = true
is_recurring_shift (some weekly) = true
is_recurring_shift (some custom_weekdays) = true
is_recurring_shift _ = false

unfoldable pub includes_day : List ℕ → ℕ → Bool
includes_day [] day = false
includes_day (d ∷ days) day = d == day || includes_day days day

-- A day put into a set that is in order.
insert_day : ℕ → List ℕ → List ℕ
insert_day day [] = day ∷ []
insert_day day (d ∷ days) =
    let rest = insert_day day days in
    if day == d then d ∷ days else (if ltb day d then day ∷ d ∷ days else d ∷ rest)

-- The filter, the set and the sorting of `normaliseDaysOfWeek`.
unfoldable pub normalise_days_of_week : List JsNumber → List ℕ
unfolding insert_day
normalise_days_of_week [] = []
normalise_days_of_week (fin (pos day) ∷ days) =
    let rest = normalise_days_of_week days in if leb day 6 then insert_day day rest else rest
normalise_days_of_week (fin (negsuc n) ∷ days) = normalise_days_of_week days
normalise_days_of_week (non_finite ∷ days) = normalise_days_of_week days

abbrev pub every_day : List ℕ
every_day = 0 ∷ 1 ∷ 2 ∷ 3 ∷ 4 ∷ 5 ∷ 6 ∷ []

abbrev or_days : List ℕ → List ℕ → List ℕ
or_days [] fallback = fallback
or_days (d ∷ days) fallback = d ∷ days

module _ (intl : Intl) where
  unfoldable pub resolve_shift_time_zone : ShiftRecurrenceInput → ℕ
  resolve_shift_time_zone input = resolve_time_zone intl input.timezone input.organisation_timezone

  unfoldable pub start_key : ShiftRecurrenceInput → DateKey
  unfolding resolve_shift_time_zone
  start_key input = zoned_date_key intl input.scheduled_start_at (resolve_shift_time_zone input)

  -- The days of the week of a recurring shift; an empty list is a recurrence on no day.
  unfoldable pub matching_weekdays : ShiftRecurrenceInput → List ℕ
  unfolding normalise_days_of_week resolve_shift_time_zone
  matching_weekdays input =
      let explicit = normalise_days_of_week input.recurrence_days_of_week in
      elim input.recurrence_type [
        | none ↦ []
        | some kind ↦ elim kind [
          | not_recurring ↦ []
          | daily ↦ every_day
          | weekly ↦ or_days explicit (
              (zoned_parts intl input.scheduled_start_at (resolve_shift_time_zone input)).weekday
              ∷ [])
          | custom_weekdays ↦ explicit
        ]
      ]

  -- `dateKey > endKey`, where the series has an end.
  unfoldable pub after_end : ShiftRecurrenceInput → DateKey → Bool
  unfolding resolve_shift_time_zone
  after_end input key = elim input.recurrence_end_at [
    | none ↦ false
    | some end ↦ before (zoned_date_key intl end (resolve_shift_time_zone input)) key
  ]

  -- The weekday of a date, read at noon.
  unfoldable pub weekday_of : ShiftRecurrenceInput → DateKey → ℕ
  unfolding resolve_shift_time_zone
  weekday_of input key =
      let zone = resolve_shift_time_zone input in
      (zoned_parts intl (zoned_date_time intl zone key 12 0 0) zone).weekday

  -- The start on another date, at the same wall clock.
  unfoldable pub start_on : ShiftRecurrenceInput → DateKey → ℕ
  unfolding resolve_shift_time_zone
  start_on input key =
      let zone = resolve_shift_time_zone input in
      let parts = zoned_parts intl input.scheduled_start_at zone in
      zoned_date_time intl zone key parts.hour parts.minute parts.second

  unfoldable pub occurrence_on_date : ShiftRecurrenceInput → DateKey → Option ShiftOccurrence
  occurrence_on_date input key =
      if before key (start_key input) || after_end input key
      then none
      else if not (is_recurring_shift input.recurrence_type)
      then (if same_key key (start_key input)
          then some (record {
            date_key = key;
            start_at = input.scheduled_start_at;
            end_at = input.scheduled_end_at;
          })
          else none)
      else if includes_day (matching_weekdays input) (weekday_of input key)
      then some (record {
        date_key = key;
        start_at = start_on input key;
        end_at = start_on input key + (input.scheduled_end_at - input.scheduled_start_at);
      })
      else none
