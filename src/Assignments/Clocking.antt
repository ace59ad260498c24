-- ===== src/Assignments/Clocking.antt =====
-- What clocking in and out does to assignments and shifts, and the invariant of Assignments/Invariant.
use guardtrak_api.Prelude.{
  ℕ, Bool, true, false, ◌≡◌, refl, arith, Option, none, some, List, [], ◌∷◌, ◌==◌, indicator,
  find_first, find_first-holds, update_where, Pairwise-weaken, Option-cases, inl, inr,
  total-update_same, if_both, if◌then◌else◌,
}
use guardtrak_api.Errors.{ok}
use guardtrak_api.Common.Tenant.{RequestUser, tenant_not_found}
use guardtrak_api.Environment.{Environment, Call}
use guardtrak_api.Database.{Db, Attendance, Assignment, Shift}
use guardtrak_api.Transitions.AssignmentStatus.{AssignmentStatus, active_assignment_statuses}
use guardtrak_api.Transitions.ShiftStatus.{ShiftStatus}
use guardtrak_api.Shifts.Recurrence.{is_recurring_shift}
use guardtrak_api.Attendance.Presence.{has_assignment_id}
use guardtrak_api.Attendance.ClockIn.{ClockInDto, own_assignment}
use guardtrak_api.Attendance.ClockIn.Perform.{
  is_waiting, start_assignment, start_shift, write_clock_in, perform_clock_in,
}
use guardtrak_api.Attendance.ClockIn.Laws.{perform_clock_in-ClockedIn, admit_clock_in-IsAdmitted}
use guardtrak_api.Attendance.ClockOut.{ClockOutDto}
use guardtrak_api.Attendance.ClockOut.Perform.{
  is_in_progress, leave_assignment, write_clock_out, perform_clock_out,
}
use guardtrak_api.Attendance.ClockOut.Laws.{perform_clock_out-ClockedOut, admit_clock_out-IsLeaving}
use guardtrak_api.Assignments.Status.{is_assignment_of}
use guardtrak_api.Assignments.Invariant.{
  Sound, double_booked, shift_row, one_off_overlap, update-Sound, found_by_id,
}

-- A new status for a shift, where there is one.
abbrev restatus : ℕ → ShiftStatus → Option Shift → Option Shift
restatus id t none = none
restatus id t (some s) = some (if s.id == id then record s { status = t } else s)

row_restatus :
    (id i : ℕ) (t : ShiftStatus) (shifts : List Shift)
    → shift_row (update_where (λ s. s.id == id) (λ s. record s { status = t }) shifts) i
      ≡ restatus id t (shift_row shifts i)
unfolding find_first update_where
row_restatus id i t [] = refl
row_restatus id i t (s ∷ shifts) = ground (arith, row_restatus id i t shifts)

overlap_restatus :
    (id : ℕ) (t : ShiftStatus) (a b : Option Shift)
    → one_off_overlap (restatus id t a) (restatus id t b) ≡ one_off_overlap a b
overlap_restatus id t none b = refl
overlap_restatus id t (some a) none = refl
overlap_restatus id t (some a) (some b) = ground arith

double_restatus :
    (id : ℕ) (t : ShiftStatus) (shifts : List Shift) (a b : Assignment)
    → double_booked shifts a b ≡ false
    → double_booked (update_where (λ s. s.id == id) (λ s. record s { status = t }) shifts) a b
      ≡ false
unfolding double_booked
double_restatus id t shifts a b h =
    rw
      (
        row_restatus id a.shift_id t shifts,
        row_restatus id b.shift_id t shifts,
        overlap_restatus id t (shift_row shifts a.shift_id) (shift_row shifts b.shift_id),
      )
      h

restatus-Sound :
    (id : ℕ) (t : ShiftStatus) (shifts : List Shift) (assignments : List Assignment)
    → Sound shifts assignments
    → Sound (update_where (λ s. s.id == id) (λ s. record s { status = t }) shifts) assignments
restatus-Sound id t shifts assignments v = record {
  distinct = v.distinct;
  one_active = v.one_active;
  distinct_shifts = λ i.
      rw
        (total-update_same (indicator (λ (s : Shift). s.id == i)) (λ s. s.id == id)
          (λ s. record s { status = t }) (λ s. refl) shifts)
        (v.distinct_shifts i);
  not_double =
      let after = update_where (λ s. s.id == id) (λ s. record s { status = t }) shifts in
      Pairwise-weaken (λ a b. double_booked shifts a b ≡ false)
        (λ a b. double_booked after a b ≡ false) (λ a b h. double_restatus id t shifts a b h)
        assignments v.not_double;
}

start_shift-Sound :
    (shift : Shift) (shifts : List Shift) (assignments : List Assignment)
    → Sound shifts assignments
    → Sound (start_shift shift shifts) assignments
unfolding start_shift
start_shift-Sound shift shifts assignments v =
    if_both (λ after. Sound after assignments) _
      (λ e. restatus-Sound shift.id ShiftStatus.in_progress shifts assignments v) (λ e. v)

waiting_active : (s : AssignmentStatus) → is_waiting s ≡ true → active_assignment_statuses s ≡ true
unfolding active_assignment_statuses
waiting_active s h = ground arith

progress_active :
    (s : AssignmentStatus) → is_in_progress s ≡ true → active_assignment_statuses s ≡ true
unfolding active_assignment_statuses
progress_active s h = ground arith

start-Sound :
    (now : ℕ) (a : Assignment) (shifts : List Shift) (assignments : List Assignment)
    → find_first (has_assignment_id a.id) assignments ≡ some a
    → Sound shifts assignments
    → Sound shifts (start_assignment now a assignments)
unfolding start_assignment
start-Sound now a shifts assignments found v =
    if_both (λ after. Sound shifts after) (is_waiting a.status)
      (λ e.
        update-Sound shifts assignments a
          (λ b. record b { status = AssignmentStatus.in_progress; started_at = some now }) found
          (record {
            same_id = refl;
            same_organisation = refl;
            same_shift = refl;
            same_officer = refl;
            same_flag = refl;
            activates_nothing = λ f. waiting_active a.status e;
          })
          v)
      (λ e. v)

leave-Sound :
    (now : ℕ) (a : Assignment) (recurring : Bool) (shifts : List Shift)
    (assignments : List Assignment)
    → find_first (has_assignment_id a.id) assignments ≡ some a
    → Sound shifts assignments
    → Sound shifts (leave_assignment now a recurring assignments)
unfolding leave_assignment
leave-Sound now a recurring shifts assignments found v =
    if_both (λ after. Sound shifts after) (is_in_progress a.status)
      (λ e.
        update-Sound shifts assignments a _ found
          (record {
            same_id = ground arith;
            same_organisation = ground arith;
            same_shift = ground arith;
            same_officer = ground arith;
            same_flag = ground arith;
            activates_nothing = λ f. progress_active a.status e;
          })
          v)
      (λ e. v)

own-found_assignment :
    (db : Db) (o f id : ℕ) (a : Assignment)
    → own_assignment db o f id ≡ ok a
    → find_first (is_assignment_of o id) db.assignments ≡ some a
unfolding own_assignment tenant_not_found
own-found_assignment db o f id a h =
    elim (Option-cases (find_first (is_assignment_of o id) db.assignments)) [
      | inl e ↦ absurd (ground arith)
      | inr (b, e) ↦ ground arith
    ]

pub clock_in-Sound :
    (env : Environment) (call : Call) (user : RequestUser) (o f : ℕ) (dto : ClockInDto) (db : Db)
    (result : Attendance) (db' : Db)
    → perform_clock_in env call user o f dto db ≡ ok (result, db')
    → Sound db.shifts db.assignments
    → Sound db'.shifts db'.assignments
unfolding write_clock_in
clock_in-Sound env call user o f dto db result db' h v =
    let c = perform_clock_in-ClockedIn env call user o f dto db result db' h in
    let i = admit_clock_in-IsAdmitted env call user o f dto db c.a c.admitted in
    let a = c.a.assignment in
    let found =
      found_by_id o dto.assignment_id db.assignments a (v.distinct a.id)
        (own-found_assignment db o f dto.assignment_id a i.own) in
    rw (c.written) (
      start_shift-Sound c.a.shift db.shifts _
        (start-Sound call.now a db.shifts db.assignments found v))

pub clock_out-Sound :
    (env : Environment) (call : Call) (user : RequestUser) (o f : ℕ) (dto : ClockOutDto) (db : Db)
    (result : Attendance) (db' : Db)
    → perform_clock_out env call user o f dto db ≡ ok (result, db')
    → Sound db.shifts db.assignments
    → Sound db'.shifts db'.assignments
unfolding write_clock_out
clock_out-Sound env call user o f dto db result db' h v =
    let c = perform_clock_out-ClockedOut env call user o f dto db result db' h in
    let i = admit_clock_out-IsLeaving env call user o f dto db c.l c.admitted in
    let a = c.l.assignment in
    let same : a.id ≡ c.l.attendance.assignment_id =
      (let q =
          find_first-holds (has_assignment_id c.l.attendance.assignment_id) db.assignments a
            i.of_assignment in
        ground arith) in
    rw (c.written) (
      leave-Sound call.now a (is_recurring_shift (some c.l.shift.recurrence_type)) db.shifts
        db.assignments (rw same i.of_assignment) v)
