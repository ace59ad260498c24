-- ===== src/Tests/Dates.antt =====
-- Calendar days, the zone UTC, and the occurrences of a shift that recurs.
use guardtrak_api.Prelude.{
  ◌+◌, ◌-◌, ◌*◌, ◌/◌, ◌%◌, ◌≡◌, ◌≢◌, ◌==◌, refl, false, none, some, [], arith,
}
use guardtrak_api.Prelude.Int.{pos}
use guardtrak_api.Calendar.{
  DateKey, IsDate, day_number, add_calendar_days, next_day, is_leap, days_in_month,
  days_before_year, days_of_months, date_utc, epoch_day, before,
}
use guardtrak_api.Calendar.Days.{add_calendar_days-IsDate, day_number-add_calendar_days}
use guardtrak_api.Timezone.{
  Intl, IsCalendar, actual_as_utc, zoned_date_time, zoned_parts, zoned_date_key, resolve_time_zone,
}
use guardtrak_api.Timezone.Wall.{HasFixedOffset, zoned_date_time_exact}
use guardtrak_api.Shifts.Recurrence.{
  ShiftRecurrenceInput, RecurrenceType, is_recurring_shift, after_end, start_key,
}
use guardtrak_api.Shifts.Recurrence.Range.{first_key, last_key, expand_occurrences}
use guardtrak_api.Shifts.Recurrence.Window.{today_key, resolve_clock_in_occurrence}
use guardtrak_api.Shifts.Recurrence.Expand.{take, visible_on, expand_occurrences-eq-take}
use guardtrak_api.Shifts.Recurrence.ClockIn.{standing_post}

abbrev february : DateKey
february = record { year = 2024; month = 2; day = 28 }

february-IsDate : IsDate february
unfolding days_in_month is_leap
february-IsDate = (omega arith, omega arith, omega arith, omega arith)

abbrev pub epoch : DateKey
epoch = record { year = 1970; month = 1; day = 1 }

epoch-IsDate : IsDate epoch
unfolding days_in_month is_leap
epoch-IsDate = (omega arith, omega arith, omega arith, omega arith)

epoch_number : day_number epoch ≡ epoch_day
unfolding day_number days_before_year days_of_months days_in_month is_leap
epoch_number = refl

-- The zone UTC, as the only one.
abbrev pub utc : Intl
utc = record {
  is_valid_time_zone = λ zone. zone == 0;
  format_to_parts = λ t zone. record {
    date = add_calendar_days epoch (pos (t / 86400000));
    hour = t % 86400000 / 3600000;
    minute = t % 3600000 / 60000;
    second = t % 60000 / 1000;
    weekday = (4 + t / 86400000) % 7;
  };
}

utc-IsCalendar : IsCalendar utc
utc-IsCalendar = record {
  dates = λ t zone. add_calendar_days-IsDate epoch (t / 86400000) epoch-IsDate;
  weekdays = λ t zone. omega arith;
}

utc-HasFixedOffset : HasFixedOffset utc 0
unfolding actual_as_utc zoned_parts date_utc resolve_time_zone
utc-HasFixedOffset = record {
  ahead = 0;
  behind = 0;
  offset = λ s h.
      rw (day_number-add_calendar_days epoch (s * 1000 / 86400000) epoch-IsDate, epoch_number)
        (omega arith);
}

zoned_date_time_exact_example :
    actual_as_utc utc 0 (zoned_date_time utc 0 february 7 30 0) ≡ date_utc february 7 30 0
unfolding utc-HasFixedOffset date_utc
zoned_date_time_exact_example =
    zoned_date_time_exact utc 0 utc-HasFixedOffset february 7 30 0 refl (omega arith)

abbrev pub shift_with : RecurrenceType → ShiftRecurrenceInput
shift_with kind = record {
  recurrence_type = some kind;
  scheduled_start_at = 28800000;
  scheduled_end_at = 57600000;
  recurrence_end_at = none;
  recurrence_days_of_week = [];
  timezone = none;
  organisation_timezone = none;
}

expand_occurrences-eq-take_example :
    expand_occurrences utc (shift_with RecurrenceType.daily) 0 300000000 3
    ≡ take 3 (
        visible_on utc
          (shift_with RecurrenceType.daily)
          0
          300000000
          (day_number (last_key utc (shift_with RecurrenceType.daily) 300000000)
            + 1
            - day_number (first_key utc (shift_with RecurrenceType.daily) 0))
          (first_key utc (shift_with RecurrenceType.daily) 0))
unfolding is_recurring_shift
expand_occurrences-eq-take_example =
    expand_occurrences-eq-take utc (shift_with RecurrenceType.daily) 0 300000000 3 utc-IsCalendar
      refl

not_before_start :
    before
      (today_key utc (shift_with RecurrenceType.not_recurring) 200000000)
      (start_key utc (shift_with RecurrenceType.not_recurring))
    ≡ false
unfolding before today_key start_key zoned_date_key add_calendar_days next_day days_in_month
not_before_start = refl

-- Two days after a shift that does not recur.
standing_post_example :
    resolve_clock_in_occurrence utc
      (shift_with RecurrenceType.not_recurring)
      200000000
      7200000
      (pos 300000)
      none
    ≢ none
unfolding is_recurring_shift after_end
standing_post_example =
    standing_post utc (shift_with RecurrenceType.not_recurring) 200000000 7200000 (pos 300000) none
      utc-IsCalendar refl not_before_start refl
