-- ===== src/Shifts/Recurrence/Range.antt =====
-- `expandOccurrences` and `recurrencesOverlap`: the occurrences of a range of time.
use guardtrak_api.Prelude.{
  ℕ, zero, suc, ◌+◌, ◌-◌, Bool, false, not, ◌&&◌, ◌||◌, Option, none, some, List, [], ◌∷◌, ltb, leb,
  if◌then◌else◌,
}
use guardtrak_api.Prelude.Int.{pos}
use guardtrak_api.Calendar.{DateKey, before, day_number, add_calendar_days}
use guardtrak_api.Timezone.{Intl, zoned_date_key}
use guardtrak_api.Shifts.Schedule.{ranges_overlap}
use guardtrak_api.Shifts.Recurrence.{
  ShiftRecurrenceInput, ShiftOccurrence, is_recurring_shift, resolve_shift_time_zone, start_key,
  occurrence_on_date,
}

-- `endAt >= from && startAt <= to`
unfoldable pub visible : ℕ → ℕ → Option ShiftOccurrence → Option ShiftOccurrence
visible from to none = none
visible from to (some o) = if leb from o.end_at && leb o.start_at to then some o else none

abbrev pub push : Option ShiftOccurrence → List ShiftOccurrence → List ShiftOccurrence
push none results = results
push (some o) results = o ∷ results

abbrev pub left_after : Option ShiftOccurrence → ℕ → ℕ
left_after none left = left
left_after (some o) left = left - 1

module _ (intl : Intl) where
  -- The `while` loop, with `left` results to go. The fuel is the number of days up to `last`.
  unfoldable pub expand_loop :
      ShiftRecurrenceInput → ℕ → ℕ → ℕ → DateKey → DateKey → ℕ → List ShiftOccurrence
  expand_loop input from to zero cursor last left = []
  expand_loop input from to (suc fuel) cursor last left =
      let found = visible from to (occurrence_on_date intl input cursor) in
      let rest =
        expand_loop input from to fuel (add_calendar_days cursor (pos 1)) last
          (left_after found left) in
      if not (before last cursor) && ltb 0 left then push found rest else []

  -- `fromKey < startKey ? startKey : fromKey`
  unfoldable pub first_key : ShiftRecurrenceInput → ℕ → DateKey
  unfolding resolve_shift_time_zone
  first_key input from =
      let from_key = zoned_date_key intl from (resolve_shift_time_zone intl input) in
      if before from_key (start_key intl input) then start_key intl input else from_key

  -- The earlier one of the end of the series and of the range.
  unfoldable pub last_key : ShiftRecurrenceInput → ℕ → DateKey
  unfolding resolve_shift_time_zone
  last_key input to =
      let zone = resolve_shift_time_zone intl input in
      let to_key = zoned_date_key intl to zone in
      elim input.recurrence_end_at [
        | none ↦ to_key
        | some end ↦
            let end_key = zoned_date_key intl end zone in
            if before end_key to_key then end_key else to_key
      ]

  unfoldable pub expand_occurrences : ShiftRecurrenceInput → ℕ → ℕ → ℕ → List ShiftOccurrence
  unfolding expand_loop
  expand_occurrences input from to limit =
      if not (is_recurring_shift input.recurrence_type)
      then push (visible from to (occurrence_on_date intl input (start_key intl input))) []
      else expand_loop input from to
          (day_number (last_key input to) + 1 - day_number (first_key input from))
          (first_key input from) (last_key input to) limit

unfoldable pub overlaps : ShiftOccurrence → ShiftOccurrence → Bool
unfolding ranges_overlap
overlaps a b = ranges_overlap a.start_at a.end_at b.start_at b.end_at

unfoldable pub any_overlaps : ShiftOccurrence → List ShiftOccurrence → Bool
unfolding overlaps
any_overlaps a [] = false
any_overlaps a (b ∷ bs) = overlaps a b || any_overlaps a bs

-- The two loops of `recurrencesOverlap`.
unfoldable pub some_overlap : List ShiftOccurrence → List ShiftOccurrence → Bool
unfolding any_overlaps overlaps
some_overlap [] bs = false
some_overlap (a ∷ as_) bs = any_overlaps a bs || some_overlap as_ bs

unfoldable pub recurrences_overlap :
    Intl → ShiftRecurrenceInput → ShiftRecurrenceInput → ℕ → ℕ → Bool
unfolding some_overlap
recurrences_overlap intl left right from to =
    some_overlap (expand_occurrences intl left from to 62)
      (expand_occurrences intl right from to 62)
