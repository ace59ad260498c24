-- ===== src/Shifts/Recurrence/ClockIn.antt =====
-- Which occurrence a clock-in is for.
use guardtrak_api.Prelude.{
  ℕ, ◌≤◌, Bool, true, false, not, ◌≡◌, ◌≢◌, ◌⊎◌, inl, inr, arith, Option, none, some, Bool-cases,
  if◌then◌else◌,
}
use guardtrak_api.Prelude.Int.{ℤ, pos, negsuc}
use guardtrak_api.Calendar.{DateKey, same_key, before, add_calendar_days}
use guardtrak_api.Timezone.{Intl, IsCalendar, zoned_parts}
use guardtrak_api.Shifts.Recurrence.{
  ShiftRecurrenceInput, ShiftOccurrence, is_recurring_shift, occurrence_on_date, after_end,
  start_key, weekday_of, includes_day, matching_weekdays, every_day, resolve_shift_time_zone,
}
use guardtrak_api.Shifts.Recurrence.Dates.{occurrence_on_date-holds}
use guardtrak_api.Shifts.Recurrence.Window.{
  today_key, today_occurrence, current_occurrence, in_window, is_nearby,
  occurrence_from_client_date, resolve_clock_in_occurrence, as_daily, or_occurrence,
}

same_key_refl : (k : DateKey) → same_key k k ≡ true
unfolding same_key
same_key_refl k = ground arith

pub windowed :
    (now early_ms : ℕ) (grace_ms : ℤ) (found : Option ShiftOccurrence) (o : ShiftOccurrence)
    → in_window now early_ms grace_ms found ≡ some o
    → found ≡ some o
unfolding in_window
windowed now early_ms grace_ms none o h = cc
windowed now early_ms grace_ms (some p) o h = ground arith

pub first_of :
    (a b : Option ShiftOccurrence) (o : ShiftOccurrence)
    → or_occurrence a b ≡ some o
    → (a ≡ some o) ⊎ (b ≡ some o)
first_of none b o h = inr h
first_of (some a) b o h = inl h

or_none : (a b : Option ShiftOccurrence) → or_occurrence a b ≡ none → b ≡ none
or_none none b h = h
or_none (some a) b h = cc

module _ (intl : Intl) (input : ShiftRecurrenceInput) (now : ℕ) where
  -- An occurrence on a date is known by it.
  on_date :
      (k : DateKey) (o : ShiftOccurrence)
      → occurrence_on_date intl input k ≡ some o
      → same_key k o.date_key ≡ true
  unfolding same_key
  on_date k o h = let e = (occurrence_on_date-holds intl input k o h).0 in ground arith

  near : ShiftOccurrence → Bool
  near o = is_nearby intl input now o.date_key

  today-near : (o : ShiftOccurrence) → today_occurrence intl input now ≡ some o → near o ≡ true
  unfolding today_occurrence is_nearby near
  today-near o h = ground (arith, on_date (today_key intl input now) o h)

  current-near :
      (early_ms : ℕ) (grace_ms : ℤ) (o : ShiftOccurrence)
      → current_occurrence intl input now early_ms grace_ms ≡ some o
      → near o ≡ true
  unfolding current_occurrence is_nearby near
  current-near early_ms grace_ms o h =
      let today = today_key intl input now in
      let yesterday = add_calendar_days today (negsuc 0) in
      let tomorrow = add_calendar_days today (pos 1) in
      elim (first_of _ _ o h) [
        | inl e ↦ let f = on_date yesterday o (windowed now early_ms grace_ms _ o e) in ground arith
        | inr e ↦ elim (first_of _ _ o e) [
          | inl e ↦ let f = on_date today o (windowed now early_ms grace_ms _ o e) in ground arith
          | inr e ↦
              let f = on_date tomorrow o (windowed now early_ms grace_ms _ o e) in ground arith
        ]
      ]

  client-near :
      (client : Option DateKey) (o : ShiftOccurrence)
      → occurrence_from_client_date intl input now client ≡ some o
      → near o ≡ true
  unfolding occurrence_from_client_date near
  client-near none o h = cc
  client-near (some k) o h = elim (Bool-cases (is_nearby intl input now k)) [
    | inl e ↦ let same = (occurrence_on_date-holds intl input k o (rw e at h)).0 in rw same e
    | inr e ↦ let g = rw e at h in cc
  ]

  candidate-near :
      (early_ms : ℕ) (grace_ms : ℤ) (client : Option DateKey) (o : ShiftOccurrence)
      → or_occurrence (occurrence_from_client_date intl input now client) (
          or_occurrence
            (current_occurrence intl input now early_ms grace_ms)
            (today_occurrence intl input now))
        ≡ some o
      → near o ≡ true
  candidate-near early_ms grace_ms client o h = elim (first_of _ _ o h) [
    | inl e ↦ client-near client o e
    | inr e ↦ elim (first_of _ _ o e) [
      | inl e ↦ current-near early_ms grace_ms o e
      | inr e ↦ today-near o e
    ]
  ]

-- An occurrence that a clock-in is for is on the date of the moment, or one beside it.
pub resolve_clock_in_occurrence-near :
    (intl : Intl) (input : ShiftRecurrenceInput) (now early_ms : ℕ) (grace_ms : ℤ)
    (client : Option DateKey) (o : ShiftOccurrence)
    → resolve_clock_in_occurrence intl input now early_ms grace_ms client ≡ some o
    → is_nearby intl input now o.date_key ≡ true
unfolding resolve_clock_in_occurrence near is_nearby today_key resolve_shift_time_zone
resolve_clock_in_occurrence-near intl input now early_ms grace_ms client o h =
    elim (first_of _ _ o h) [
      | inl e ↦ candidate-near intl input now early_ms grace_ms client o e
      | inr e ↦ elim (Bool-cases (is_recurring_shift input.recurrence_type)) [
        | inl r ↦ let g = rw r at e in cc
        | inr r ↦ candidate-near intl (as_daily input) now early_ms grace_ms client o (rw r at e)
      ]
    ]

any_day : (d : ℕ) → d ≤ 6 → includes_day every_day d ≡ true
unfolding includes_day
any_day d h = ground arith

daily_today :
    (intl : Intl) (input : ShiftRecurrenceInput) (now : ℕ)
    → IsCalendar intl
    → before (today_key intl input now) (start_key intl input) ≡ false
    → after_end intl input (today_key intl input now) ≡ false
    → today_occurrence intl (as_daily input) now ≢ none
unfolding today_occurrence occurrence_on_date today_key resolve_shift_time_zone start_key after_end
    is_recurring_shift matching_weekdays weekday_of zoned_parts
daily_today intl input now c b e h =
    let d = λ (t zone : ℕ). any_day (intl.format_to_parts t zone).weekday (c.weekdays t zone) in
    let g = rw (b, e, d _ _) at h in cc

-- A shift that does not recur has an occurrence for a clock-in on every date, in its zone, from its
-- first one to the end of its recurrence, where it has one, for a calendar with seven weekdays.
pub standing_post :
    (intl : Intl) (input : ShiftRecurrenceInput) (now early_ms : ℕ) (grace_ms : ℤ)
    (client : Option DateKey)
    → IsCalendar intl
    → is_recurring_shift input.recurrence_type ≡ false
    → before (today_key intl input now) (start_key intl input) ≡ false
    → after_end intl input (today_key intl input now) ≡ false
    → resolve_clock_in_occurrence intl input now early_ms grace_ms client ≢ none
unfolding resolve_clock_in_occurrence
standing_post intl input now early_ms grace_ms client c r b e h =
    let candidate = λ (i : ShiftRecurrenceInput).
      or_occurrence (occurrence_from_client_date intl i now client) (
        or_occurrence (current_occurrence intl i now early_ms grace_ms)
          (today_occurrence intl i now)) in
    let g =
      or_none (candidate input)
        (if not (is_recurring_shift input.recurrence_type)
          then candidate (as_daily input)
          else none)
        h in
    daily_today intl input now c b e (or_none _ _ (or_none _ _ (rw r at g)))
