-- ===== src/Assignments/Invariant.antt =====
-- What holds of the assignments between two requests.
use guardtrak_api.Prelude.{
  ℕ, ◌≤◌, Bool, true, false, ◌&&◌, not, ◌≡◌, refl, arith, Option, none, some, List, ◌∷◌, ◌==◌,
  is_some, total, indicator, find_first, update_where, find_first-holds, find_first-none,
  find_first-widen, total-update_where, All, All-weaken, Pairwise, only_row, Keeps,
  Pairwise-update_where, insert_once,
}
use guardtrak_api.Database.{Assignment, Shift}
use guardtrak_api.Transitions.AssignmentStatus.{active_assignment_statuses}
use guardtrak_api.Shifts.Schedule.{ranges_overlap}
use guardtrak_api.Shifts.Recurrence.{is_recurring_shift}
use guardtrak_api.Attendance.Presence.{has_assignment_id}
use guardtrak_api.Assignments.Checks.{is_active_for}
use guardtrak_api.Assignments.Status.{is_assignment_of}

-- A shift that is there once, and not deleted.
abbrev is_one_off : Shift → Bool
is_one_off s = not (is_some s.deleted_at) && not (is_recurring_shift (some s.recurrence_type))

-- Two one-off shifts at overlapping times.
abbrev pub one_off_overlap : Option Shift → Option Shift → Bool
one_off_overlap (some s) (some t) =
    is_one_off s
    && (is_one_off t
        && ranges_overlap t.scheduled_start_at t.scheduled_end_at s.scheduled_start_at
            s.scheduled_end_at)
one_off_overlap _ _ = false

abbrev pub is_booked : Assignment → Bool
is_booked a = a.is_active && active_assignment_statuses a.status

abbrev pub shift_row : List Shift → ℕ → Option Shift
shift_row shifts id = find_first (λ s. s.id == id) shifts

-- Two assignments book an officer twice: both are active, and their shifts are one-off shifts at
-- overlapping times.
unfoldable pub double_booked : List Shift → Assignment → Assignment → Bool
double_booked shifts a b =
    (a.organisation_id == b.organisation_id && a.officer_id == b.officer_id)
    && ((is_booked a && is_booked b)
        && one_off_overlap (shift_row shifts a.shift_id) (shift_row shifts b.shift_id))

-- Assignments and shifts have distinct identifiers, an officer has at most one active assignment for
-- a shift, and no officer is booked twice.
pub record Sound (shifts : List Shift) (assignments : List Assignment) : Type 0 where
  pub distinct : (i : ℕ) → total (indicator (has_assignment_id i)) assignments ≤ 1
  pub one_active : (o s f : ℕ) → total (indicator (is_active_for o s f)) assignments ≤ 1
  pub distinct_shifts : (i : ℕ) → total (indicator (λ (s : Shift). s.id == i)) shifts ≤ 1
  pub not_double : Pairwise (λ a b. double_booked shifts a b ≡ false) assignments

-- A change of a row that moves nothing, and activates nothing that was not active.
pub record Settles (a b : Assignment) : Type 0 where
  pub same_id : b.id ≡ a.id
  pub same_organisation : b.organisation_id ≡ a.organisation_id
  pub same_shift : b.shift_id ≡ a.shift_id
  pub same_officer : b.officer_id ≡ a.officer_id
  pub same_flag : b.is_active ≡ a.is_active
  pub activates_nothing :
      active_assignment_statuses b.status ≡ true → active_assignment_statuses a.status ≡ true

Settles-double :
    (shifts : List Shift) (a b c : Assignment)
    → Settles a b
    → double_booked shifts a c ≡ false
    → double_booked shifts b c ≡ false
unfolding double_booked
Settles-double shifts a b c s h =
    rw (s.same_organisation, s.same_shift, s.same_officer, s.same_flag)
      (let e = s.activates_nothing in ground arith)

double-Settles :
    (shifts : List Shift) (a b c : Assignment)
    → Settles a b
    → double_booked shifts c a ≡ false
    → double_booked shifts c b ≡ false
unfolding double_booked
double-Settles shifts a b c s h =
    rw (s.same_organisation, s.same_shift, s.same_officer, s.same_flag)
      (let e = s.activates_nothing in ground arith)

active_less :
    (o s f : ℕ) (a b : Assignment)
    → Settles a b
    → indicator (is_active_for o s f) b ≤ indicator (is_active_for o s f) a
unfolding is_active_for
active_less o s f a b m =
    rw (m.same_organisation, m.same_shift, m.same_officer)
      (let e = m.activates_nothing in ground arith)

pub found_by_id :
    (o id : ℕ) (assignments : List Assignment) (row : Assignment)
    → total (indicator (has_assignment_id row.id)) assignments ≤ 1
    → find_first (is_assignment_of o id) assignments ≡ some row
    → find_first (has_assignment_id row.id) assignments ≡ some row
found_by_id o id assignments row u found =
    let h = find_first-holds (is_assignment_of o id) assignments row found in
    let same : row.id ≡ id = ground arith in
    find_first-widen (is_assignment_of o id) (has_assignment_id row.id)
      (λ r e. rw same (ground arith)) assignments row u found

-- A row that is found and settled.
pub update-Sound :
    (shifts : List Shift) (assignments : List Assignment) (row : Assignment)
    (change : Assignment → Assignment)
    → find_first (has_assignment_id row.id) assignments ≡ some row
    → Settles row (change row)
    → Sound shifts assignments
    → Sound shifts (update_where (has_assignment_id row.id) change assignments)
update-Sound shifts assignments row change found m v = record {
  distinct = λ i.
      let t =
        total-update_where (indicator (has_assignment_id i)) (has_assignment_id row.id) change
          assignments row (v.distinct row.id) found in
      let u = v.distinct i in let e = m.same_id in ground arith;
  one_active = λ o s f.
      let t =
        total-update_where (indicator (is_active_for o s f)) (has_assignment_id row.id) change
          assignments row (v.distinct row.id) found in
      let u = v.one_active o s f in let l = active_less o s f row (change row) m in omega arith;
  distinct_shifts = v.distinct_shifts;
  not_double =
      let R = λ (a b : Assignment). double_booked shifts a b ≡ false in
      Pairwise-update_where R (has_assignment_id row.id) change assignments
        (All-weaken (λ r. has_assignment_id row.id r ≡ true → r ≡ row)
          (λ r. has_assignment_id row.id r ≡ true → Keeps R change r)
          (λ r only hit. rw (only hit) (
            (λ b. Settles-double shifts row (change row) b m),
            (λ b. double-Settles shifts row (change row) b m),
          ))
          assignments
          (only_row (has_assignment_id row.id) assignments row (v.distinct row.id) found))
        v.not_double;
}

same_active :
    (o s f : ℕ) (a : Assignment)
    → is_active_for o s f a ≡ true
    → is_active_for a.organisation_id a.shift_id a.officer_id ≡ is_active_for o s f
unfolding is_active_for
same_active o s f a h =
    let e : a.organisation_id ≡ o = ground arith in
    let e' : a.shift_id ≡ s = ground arith in
    let e'' : a.officer_id ≡ f = ground arith in rw (e, e', e'') refl

-- A new row with an unused identifier that nothing stands in the way of.
pub insert-Sound :
    (shifts : List Shift) (assignments : List Assignment) (created : Assignment)
    → find_first (has_assignment_id created.id) assignments ≡ none
    → find_first
        (is_active_for created.organisation_id created.shift_id created.officer_id)
        assignments
      ≡ none
    → All (λ a. double_booked shifts created a ≡ false) assignments
    → Sound shifts assignments
    → Sound shifts (created ∷ assignments)
insert-Sound shifts assignments created fresh free apart v = record {
  distinct = λ i. insert_once (has_assignment_id i) assignments created (v.distinct i) (λ e.
      let same : created.id ≡ i = ground arith in
      rw (← same) (find_first-none (has_assignment_id created.id) assignments fresh));
  one_active = λ o s f.
      insert_once (is_active_for o s f) assignments created (v.one_active o s f)
        (λ e. rw (← same_active o s f created e) (find_first-none _ assignments free));
  distinct_shifts = v.distinct_shifts;
  not_double = (apart, v.not_double);
}
