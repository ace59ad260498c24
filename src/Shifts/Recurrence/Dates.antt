-- ===== src/Shifts/Recurrence/Dates.antt =====
-- On which dates a shift takes place, and when on these.
use guardtrak_api.Prelude.{◌-◌, true, false, ◌≡◌, ◌⊎◌, some, none, arith}
use guardtrak_api.Calendar.{DateKey, before, same_key}
use guardtrak_api.Timezone.{Intl}
use guardtrak_api.Shifts.Recurrence.{
  ShiftRecurrenceInput, ShiftOccurrence, is_recurring_shift, includes_day, matching_weekdays,
  after_end, weekday_of, start_key, occurrence_on_date,
}

-- An occurrence on a date is of that date, which is not before the start of the shift nor after the end
-- of its recurrence, and lasts as long as the shift. The date is the first one of a shift that does not
-- recur, or on one of its days of the week.
pub occurrence_on_date-holds :
    (intl : Intl) (input : ShiftRecurrenceInput) (key : DateKey) (o : ShiftOccurrence)
    → occurrence_on_date intl input key ≡ some o
    → (o.date_key ≡ key)
      × (before key (start_key intl input) ≡ false)
      × (after_end intl input key ≡ false)
      × (o.end_at - o.start_at ≡ input.scheduled_end_at - input.scheduled_start_at)
      × (((is_recurring_shift input.recurrence_type ≡ false)
            × (same_key key (start_key intl input) ≡ true))
          ⊎ (includes_day (matching_weekdays intl input) (weekday_of intl input key) ≡ true))
unfolding occurrence_on_date
occurrence_on_date-holds intl input key o h = ground arith

-- A shift that does not recur takes place on no other date than its first.
pub no_other_date :
    (intl : Intl) (input : ShiftRecurrenceInput) (key : DateKey)
    → is_recurring_shift input.recurrence_type ≡ false
    → same_key key (start_key intl input) ≡ false
    → occurrence_on_date intl input key ≡ none
unfolding occurrence_on_date
no_other_date intl input key r k = ground arith
