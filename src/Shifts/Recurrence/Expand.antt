-- ===== src/Shifts/Recurrence/Expand.antt =====
-- The loop over the dates of a range, against the list of all of them.
use guardtrak_api.Prelude.{
  ℕ, zero, suc, ◌+◌, ◌-◌, ◌≤◌, true, false, ◌||◌, ◌≡◌, refl, sym, arith, List, [], ◌∷◌, ltb,
  if◌then◌else◌, inl, inr, Option-cases, Bool-cases,
}
use guardtrak_api.Prelude.Int.{pos}
use guardtrak_api.Calendar.{DateKey, IsDate, day_number, add_calendar_days}
use guardtrak_api.Calendar.Days.{before_iff, add_calendar_days-IsDate, day_number-add_calendar_days}
use guardtrak_api.Timezone.{Intl, IsCalendar, zoned_parts, zoned_date_key}
use guardtrak_api.Shifts.Schedule.{ranges_overlap}
use guardtrak_api.Shifts.Recurrence.{
  ShiftRecurrenceInput, ShiftOccurrence, is_recurring_shift, occurrence_on_date, start_key,
  resolve_shift_time_zone,
}
use guardtrak_api.Shifts.Recurrence.Range.{
  visible, push, expand_loop, expand_occurrences, first_key, last_key, overlaps, any_overlaps,
  some_overlap, recurrences_overlap,
}

unfoldable pub take {ℓ} : {A : Type ℓ} → ℕ → List A → List A
take n [] = []
take n (x ∷ xs) = let rest = take (n - 1) xs in if ltb 0 n then x ∷ rest else []

-- The occurrences that are visible on `n` dates from `key` on.
unfoldable pub visible_on : Intl → ShiftRecurrenceInput → ℕ → ℕ → ℕ → DateKey → List ShiftOccurrence
visible_on intl input from to zero key = []
visible_on intl input from to (suc n) key =
    push (visible from to (occurrence_on_date intl input key))
      (visible_on intl input from to n (add_calendar_days key (pos 1)))

take_zero {ℓ} : {A : Type ℓ} (xs : List A) → take 0 xs ≡ []
unfolding take
take_zero [] = refl
take_zero (x ∷ xs) = refl

module _ (intl : Intl) (input : ShiftRecurrenceInput) (from to : ℕ) (last : DateKey)
    (last_date : IsDate last) where
  expand_loop-eq-take :
      (n : ℕ) (cursor : DateKey) (left : ℕ)
      → IsDate cursor
      → day_number cursor + n ≤ day_number last + 1
      → expand_loop intl input from to n cursor last left
        ≡ take left (visible_on intl input from to n cursor)
  unfolding expand_loop visible_on take
  expand_loop-eq-take zero cursor left v h = refl
  expand_loop-eq-take (suc n) cursor left v h =
      let later = add_calendar_days cursor (pos 1) in
      let later_date = add_calendar_days-IsDate cursor 1 v in
      let within : day_number later + n ≤ day_number last + 1 =
        omega (arith, day_number-add_calendar_days cursor 1 v) in
      let test = before_iff last cursor last_date v in
      elim (Option-cases (visible from to (occurrence_on_date intl input cursor))) [
        | inl e ↦
            let ih = expand_loop-eq-take n later left later_date within in
            rw e (ground (arith, test, ih, take_zero (visible_on intl input from to n later)))
        | inr (o, e) ↦
            let ih = expand_loop-eq-take n later (left - 1) later_date within in
            rw e (ground (arith, test, ih))
      ]

keys-IsDate : (intl : Intl) → IsCalendar intl → (t zone : ℕ) → IsDate (zoned_date_key intl t zone)
unfolding zoned_date_key zoned_parts
keys-IsDate intl c t zone = c.dates t _

first_key-IsDate :
    (intl : Intl) (input : ShiftRecurrenceInput) (from : ℕ)
    → IsCalendar intl
    → IsDate (first_key intl input from)
unfolding first_key start_key
first_key-IsDate intl input from c = ground (
  arith,
  keys-IsDate intl c from (resolve_shift_time_zone intl input),
  keys-IsDate intl c input.scheduled_start_at (resolve_shift_time_zone intl input),
)

last_key-IsDate :
    (intl : Intl) (input : ShiftRecurrenceInput) (to : ℕ)
    → IsCalendar intl
    → IsDate (last_key intl input to)
unfolding last_key
last_key-IsDate intl input to c = elim (Option-cases input.recurrence_end_at) [
  | inl e ↦ rw e (keys-IsDate intl c to (resolve_shift_time_zone intl input))
  | inr (end, e) ↦ rw e (
      ground (
        arith,
        keys-IsDate intl c to (resolve_shift_time_zone intl input),
        keys-IsDate intl c end (resolve_shift_time_zone intl input),
      ))
]

empty_range :
    (intl : Intl) (input : ShiftRecurrenceInput) (from to : ℕ) (first last : DateKey) (limit : ℕ)
    → expand_loop intl input from to 0 first last limit
      ≡ take limit (visible_on intl input from to 0 first)
unfolding expand_loop visible_on take
empty_range intl input from to first last limit = refl

-- For a shift that recurs and a calendar that computes dates, the loop over the days finds as many
-- as the limit allows of the visible occurrences, in the order of their dates, among those of all
-- days from the first to the last one.
pub expand_occurrences-eq-take :
    (intl : Intl) (input : ShiftRecurrenceInput) (from to limit : ℕ)
    → IsCalendar intl
    → is_recurring_shift input.recurrence_type ≡ true
    → expand_occurrences intl input from to limit
      ≡ take limit (
          visible_on intl input from to
            (day_number (last_key intl input to) + 1 - day_number (first_key intl input from))
            (first_key intl input from))
unfolding expand_occurrences
expand_occurrences-eq-take intl input from to limit c r =
    let first = first_key intl input from in
    let last = last_key intl input to in
    rw r (elim (Bool-cases (ltb (day_number first) (day_number last + 2))) [
      | inl e ↦
          expand_loop-eq-take intl input from to last (last_key-IsDate intl input to c) _ first
            limit (first_key-IsDate intl input from c) (ground arith)
      | inr e ↦
          let none_left : day_number last + 1 - day_number first ≡ 0 = ground arith in
          rw none_left (empty_range intl input from to first last limit)
    ])

overlaps_sym : (a b : ShiftOccurrence) → overlaps a b ≡ overlaps b a
unfolding overlaps ranges_overlap
overlaps_sym a b = ground arith

some_overlap-cons :
    (xs : List ShiftOccurrence) (y : ShiftOccurrence) (ys : List ShiftOccurrence)
    → some_overlap xs (y ∷ ys) ≡ (any_overlaps y xs || some_overlap xs ys)
unfolding some_overlap any_overlaps
some_overlap-cons [] y ys = refl
some_overlap-cons (x ∷ xs) y ys = ground (arith, some_overlap-cons xs y ys, overlaps_sym x y)

some_overlap-none : (xs : List ShiftOccurrence) → some_overlap xs [] ≡ false
unfolding some_overlap any_overlaps
some_overlap-none [] = refl
some_overlap-none (x ∷ xs) = some_overlap-none xs

some_overlap_sym : (xs ys : List ShiftOccurrence) → some_overlap xs ys ≡ some_overlap ys xs
unfolding some_overlap
some_overlap_sym [] ys = sym (some_overlap-none ys)
some_overlap_sym (x ∷ xs) ys =
    rw (some_overlap-cons ys x xs) (ground (arith, some_overlap_sym xs ys))

-- Whether two shifts overlap does not depend on the order in which they are named.
pub recurrences_overlap_sym :
    (intl : Intl) (left right : ShiftRecurrenceInput) (from to : ℕ)
    → recurrences_overlap intl left right from to ≡ recurrences_overlap intl right left from to
unfolding recurrences_overlap
recurrences_overlap_sym intl left right from to =
    some_overlap_sym (expand_occurrences intl left from to 62)
      (expand_occurrences intl right from to 62)
