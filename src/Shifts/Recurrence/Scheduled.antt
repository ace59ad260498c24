-- ===== src/Shifts/Recurrence/Scheduled.antt =====
-- When an occurrence that a clock-in is for starts and ends.
use guardtrak_api.Prelude.{
  ℕ, ◌+◌, ◌-◌, true, false, ◌≡◌, ◌⊎◌, inl, inr, arith, Option, none, some, Bool-cases,
}
use guardtrak_api.Prelude.Int.{ℤ, pos, negsuc}
use guardtrak_api.Calendar.{DateKey, before, same_key, add_calendar_days}
use guardtrak_api.Timezone.{Intl}
use guardtrak_api.Shifts.Recurrence.{
  ShiftRecurrenceInput, ShiftOccurrence, is_recurring_shift, occurrence_on_date, after_end,
  start_key, start_on, weekday_of, includes_day, matching_weekdays, resolve_shift_time_zone,
}
use guardtrak_api.Shifts.Recurrence.Window.{
  today_key, today_occurrence, current_occurrence, is_nearby, occurrence_from_client_date,
  resolve_clock_in_occurrence, as_daily, or_occurrence,
}
use guardtrak_api.Shifts.Recurrence.ClockIn.{first_of, windowed}

-- The occurrence is of the shift's schedule: its date is not before the first one of the shift, nor
-- after the end of its recurrence, where it has one. It is the shift itself, as it is planned, on its first
-- date, or it
-- starts on its date at the wall clock of the shift's start and lasts as long as the shift; the date is
-- then on a weekday of the recurrence, or the shift does not recur.
pub record IsOnSchedule (intl : Intl) (input : ShiftRecurrenceInput) (o : ShiftOccurrence)
    : Type 0 where
  pub not_before : before o.date_key (start_key intl input) ≡ false
  pub not_after : after_end intl input o.date_key ≡ false
  pub times :
      ((is_recurring_shift input.recurrence_type ≡ false)
        × (same_key o.date_key (start_key intl input) ≡ true)
        × (o.start_at ≡ input.scheduled_start_at)
        × (o.end_at ≡ input.scheduled_end_at))
      ⊎ ((o.start_at ≡ start_on intl input o.date_key)
          × (o.end_at
              ≡ start_on intl input o.date_key
                + (input.scheduled_end_at - input.scheduled_start_at))
          × ((is_recurring_shift input.recurrence_type ≡ false)
              ⊎ (includes_day (matching_weekdays intl input) (weekday_of intl input o.date_key)
                  ≡ true)))

module _ (intl : Intl) (input : ShiftRecurrenceInput) where
  on_date-IsOnSchedule :
      (key : DateKey) (o : ShiftOccurrence)
      → occurrence_on_date intl input key ≡ some o
      → IsOnSchedule intl input o
  unfolding occurrence_on_date
  on_date-IsOnSchedule key o h = record {
    not_before = ground arith;
    not_after = ground arith;
    times = ground arith;
  }

  module _ (now : ℕ) where
    current_on_date :
        (early_ms : ℕ) (grace_ms : ℤ) (o : ShiftOccurrence)
        → current_occurrence intl input now early_ms grace_ms ≡ some o
        → (key : DateKey) × (occurrence_on_date intl input key ≡ some o)
    unfolding current_occurrence
    current_on_date early_ms grace_ms o h =
        let today = today_key intl input now in
        elim (first_of _ _ o h) [
          | inl e ↦ (add_calendar_days today (negsuc 0), windowed now early_ms grace_ms _ o e)
          | inr e ↦ elim (first_of _ _ o e) [
            | inl e ↦ (today, windowed now early_ms grace_ms _ o e)
            | inr e ↦ (add_calendar_days today (pos 1), windowed now early_ms grace_ms _ o e)
          ]
        ]

    client_on_date :
        (client : Option DateKey) (o : ShiftOccurrence)
        → occurrence_from_client_date intl input now client ≡ some o
        → (key : DateKey) × (occurrence_on_date intl input key ≡ some o)
    unfolding occurrence_from_client_date
    client_on_date none o h = cc
    client_on_date (some k) o h = elim (Bool-cases (is_nearby intl input now k)) [
      | inl e ↦ (k, rw e at h)
      | inr e ↦ let g = rw e at h in cc
    ]

    candidate-IsOnSchedule :
        (early_ms : ℕ) (grace_ms : ℤ) (client : Option DateKey) (o : ShiftOccurrence)
        → or_occurrence (occurrence_from_client_date intl input now client) (
            or_occurrence
              (current_occurrence intl input now early_ms grace_ms)
              (today_occurrence intl input now))
          ≡ some o
        → IsOnSchedule intl input o
    unfolding today_occurrence
    candidate-IsOnSchedule early_ms grace_ms client o h = elim (first_of _ _ o h) [
      | inl e ↦ let (k, f) = client_on_date client o e in on_date-IsOnSchedule k o f
      | inr e ↦ elim (first_of _ _ o e) [
        | inl e ↦ let (k, f) = current_on_date early_ms grace_ms o e in on_date-IsOnSchedule k o f
        | inr e ↦ on_date-IsOnSchedule (today_key intl input now) o e
      ]
    ]

-- What the schedule of every day says of a shift that does not recur.
daily-IsOnSchedule :
    (intl : Intl) (input : ShiftRecurrenceInput) (o : ShiftOccurrence)
    → is_recurring_shift input.recurrence_type ≡ false
    → IsOnSchedule intl (as_daily input) o
    → IsOnSchedule intl input o
unfolding start_key after_end start_on resolve_shift_time_zone is_recurring_shift
daily-IsOnSchedule intl input o r s = record {
  not_before = s.not_before;
  not_after = s.not_after;
  times = elim s.times [ inl t ↦ absurd (ground arith) | inr t ↦ inr (t.0, t.1, inl r) ];
}

pub resolve_clock_in_occurrence-IsOnSchedule :
    (intl : Intl) (input : ShiftRecurrenceInput) (now early_ms : ℕ) (grace_ms : ℤ)
    (client : Option DateKey) (o : ShiftOccurrence)
    → resolve_clock_in_occurrence intl input now early_ms grace_ms client ≡ some o
    → IsOnSchedule intl input o
unfolding resolve_clock_in_occurrence
resolve_clock_in_occurrence-IsOnSchedule intl input now early_ms grace_ms client o h =
    elim (first_of _ _ o h) [
      | inl e ↦ candidate-IsOnSchedule intl input now early_ms grace_ms client o e
      | inr e ↦ elim (Bool-cases (is_recurring_shift input.recurrence_type)) [
        | inl r ↦ let g = rw r at e in cc
        | inr r ↦ daily-IsOnSchedule intl input o r (
            candidate-IsOnSchedule intl (as_daily input) now early_ms grace_ms client o (rw r at e))
      ]
    ]
