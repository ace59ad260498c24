-- ===== src/Shifts/Recurrence/Window.antt =====
-- The occurrence of a moment: `currentOccurrence` and the functions that fall back from it.
use guardtrak_api.Prelude.{
  ℕ, ◌+◌, ◌-◌, Bool, not, ◌&&◌, ◌||◌, Option, none, some, leb, if◌then◌else◌,
}
use guardtrak_api.Prelude.Int.{ℤ, pos, negsuc}
use guardtrak_api.Calendar.{DateKey, same_key, add_calendar_days}
use guardtrak_api.Timezone.{Intl, zoned_date_key}
use guardtrak_api.Shifts.Recurrence.{
  ShiftRecurrenceInput, ShiftOccurrence, daily, is_recurring_shift, resolve_shift_time_zone,
  occurrence_on_date,
}

-- `date + ms`, where `ms` may be negative.
abbrev pub plus_ms : ℕ → ℤ → ℕ
plus_ms date (pos ms) = date + ms
plus_ms date (negsuc ms) = date - (ms + 1)

-- `a ?? b`
abbrev pub or_occurrence : Option ShiftOccurrence → Option ShiftOccurrence → Option ShiftOccurrence
or_occurrence none b = b
or_occurrence (some a) b = some a

-- `now >= startAt - earlyMs && now <= endAt + graceMs`
unfoldable pub in_window : ℕ → ℕ → ℤ → Option ShiftOccurrence → Option ShiftOccurrence
in_window now early_ms grace_ms none = none
in_window now early_ms grace_ms (some o) =
    if leb o.start_at (now + early_ms) && leb now (plus_ms o.end_at grace_ms) then some o else none

-- `{ ...input, recurrenceType: RecurrenceType.DAILY }`
abbrev pub as_daily : ShiftRecurrenceInput → ShiftRecurrenceInput
as_daily input = record input { recurrence_type = some daily }

-- `primary`, or else the same for the daily shift, where the shift is not a recurring one.
abbrev pub or_as_daily :
    (ShiftRecurrenceInput → Option ShiftOccurrence) → ShiftRecurrenceInput → Option ShiftOccurrence
unfolding is_recurring_shift
or_as_daily resolve input =
    or_occurrence (resolve input)
      (if not (is_recurring_shift input.recurrence_type) then resolve (as_daily input) else none)

abbrev not_ended : ℕ → ℤ → Option ShiftOccurrence → Option ShiftOccurrence
not_ended now grace_ms none = none
not_ended now grace_ms (some o) = if leb now (plus_ms o.end_at grace_ms) then some o else none

module _ (intl : Intl) where
  unfoldable pub today_key : ShiftRecurrenceInput → ℕ → DateKey
  unfolding resolve_shift_time_zone
  today_key input now = zoned_date_key intl now (resolve_shift_time_zone intl input)

  -- Yesterday, today and tomorrow, in this order.
  unfoldable pub current_occurrence : ShiftRecurrenceInput → ℕ → ℕ → ℤ → Option ShiftOccurrence
  current_occurrence input now early_ms grace_ms =
      let today = today_key input now in
      let at = λ (k : DateKey). in_window now early_ms grace_ms (occurrence_on_date intl input k) in
      or_occurrence (at (add_calendar_days today (negsuc 0)))
        (or_occurrence (at today) (at (add_calendar_days today (pos 1))))

  unfoldable pub today_occurrence : ShiftRecurrenceInput → ℕ → Option ShiftOccurrence
  today_occurrence input now = occurrence_on_date intl input (today_key input now)

  unfoldable pub is_nearby : ShiftRecurrenceInput → ℕ → DateKey → Bool
  is_nearby input now key =
      let today = today_key input now in
      same_key today key
      || (same_key (add_calendar_days today (negsuc 0)) key
          || same_key (add_calendar_days today (pos 1)) key)

  unfoldable pub occurrence_from_client_date :
      ShiftRecurrenceInput → ℕ → Option DateKey → Option ShiftOccurrence
  occurrence_from_client_date input now none = none
  occurrence_from_client_date input now (some key) =
      if is_nearby input now key then occurrence_on_date intl input key else none

  unfoldable pub calendar_occurrence_near : ShiftRecurrenceInput → ℕ → Option ShiftOccurrence
  calendar_occurrence_near input now =
      let today = today_key input now in
      or_occurrence (occurrence_on_date intl input today) (
        or_occurrence (occurrence_on_date intl input (add_calendar_days today (negsuc 0)))
          (occurrence_on_date intl input (add_calendar_days today (pos 1))))

  unfoldable pub resolve_duty_occurrence :
      ShiftRecurrenceInput → ℕ → ℕ → ℤ → Bool → Option ShiftOccurrence
  resolve_duty_occurrence input now early_ms grace_ms allow_outside_window =
      or_occurrence (current_occurrence input now early_ms grace_ms)
        (if allow_outside_window then today_occurrence input now else none)

  unfoldable pub resolve_active_or_upcoming_today :
      ShiftRecurrenceInput → ℕ → ℕ → ℤ → Option ShiftOccurrence
  unfolding is_recurring_shift
  resolve_active_or_upcoming_today input now early_ms grace_ms =
      or_as_daily
        (λ candidate.
          or_occurrence (current_occurrence candidate now early_ms grace_ms)
            (not_ended now grace_ms (today_occurrence candidate now)))
        input

  unfoldable pub resolve_clock_in_occurrence :
      ShiftRecurrenceInput → ℕ → ℕ → ℤ → Option DateKey → Option ShiftOccurrence
  unfolding is_recurring_shift
  resolve_clock_in_occurrence input now early_ms grace_ms client_date_key =
      or_as_daily
        (λ candidate. or_occurrence (occurrence_from_client_date candidate now client_date_key) (
          or_occurrence (current_occurrence candidate now early_ms grace_ms)
            (today_occurrence candidate now)))
        input
