-- ===== src/Attendance/ClockOut/Outcomes.antt =====
-- What a clock-out that succeeds promises, and which clock-outs can succeed after it.
use guardtrak_api.Prelude.{
  ℕ, ◌-◌, ◌/◌, ◌*◌, ◌+◌, ◌≤◌, true, false, ◌≡◌, refl, sym, ap, ◌∙◌, ◌⊎◌, arith, none, some, ◌==◌,
  find_first, find_first-update_where, update_where,
}
use guardtrak_api.Prelude.Int.{fin}
use guardtrak_api.Errors.{ok, ok_eq}
use guardtrak_api.Attendance.Geofence.{GeofenceEvaluationResult}
use guardtrak_api.Common.Tenant.{RequestUser}
use guardtrak_api.Environment.{Environment, Call}
use guardtrak_api.Database.{Db, Attendance, Shift}
use guardtrak_api.Calendar.{DateKey, same_key}
use guardtrak_api.Transitions.AttendanceStatus.{
  AttendanceStatus, active_attendance_statuses, assert_attendance_transition,
  attendance_transitions,
}
use guardtrak_api.Breaks.Guards.{completed_minutes}
use guardtrak_api.Breaks.Start.{own_attendance, is_active_of}
use guardtrak_api.Breaks.Rules.{own_attendance-holds}
use guardtrak_api.Shifts.Recurrence.{is_recurring_shift, start_key}
use guardtrak_api.Shifts.Recurrence.Dates.{no_other_date}
use guardtrak_api.Attendance.Calculation.{calculate_totals, clamp_minutes}
use guardtrak_api.Attendance.Correct.{shift_totals}
use guardtrak_api.Attendance.Correct.Laws.{totals_of}
use guardtrak_api.Attendance.Lookup.{is_attendance}
use guardtrak_api.Attendance.Presence.{recurrence_input}
use guardtrak_api.Attendance.ClockOut.{
  ClockOutDto, Leaving, clock_out_totals, clocked_out_row, clock_out_status, clock_out_occurrence,
}
use guardtrak_api.Attendance.ClockOut.Perform.{write_clock_out, perform_clock_out}
use guardtrak_api.Attendance.ClockOut.Laws.{
  perform_clock_out-ClockedOut, admit_clock_out-IsLeaving, own-found,
}

next_status :
    (env : Environment) (g : GeofenceEvaluationResult)
    → (clock_out_status env g ≡ AttendanceStatus.clocked_out)
      ⊎ (clock_out_status env g ≡ AttendanceStatus.pending_supervisor_approval)
unfolding clock_out_status
next_status env g = ground arith

-- An attendance that replaces an own one is an own attendance again.
found-own :
    (db : Db) (o f id : ℕ) (a : Attendance)
    → find_first (is_attendance o id) db.attendances ≡ some a
    → a.officer_id ≡ f
    → own_attendance db o f id ≡ ok a
unfolding own_attendance
found-own db o f id a e h = ground arith

own-replaced :
    (db db' : Db) (o f id : ℕ) (a new : Attendance)
    → own_attendance db o f id ≡ ok a
    → new.id ≡ a.id
    → new.organisation_id ≡ a.organisation_id
    → new.officer_id ≡ a.officer_id
    → new.deleted_at ≡ a.deleted_at
    → db'.attendances ≡ update_where (λ r. r.id == new.id) (λ r. new) db.attendances
    → own_attendance db' o f id ≡ ok new
own-replaced db db' o f id a new h i j k l w =
    let (id_, org, own, there) = own_attendance-holds db o f id a h in
    found-own db' o f id new
      (rw w (
        find_first-update_where (is_attendance o id) (λ r. r.id == new.id) (λ r e. ground arith) new
          db.attendances a (ground arith) (own-found db o f id a h)))
      (k ∙ own)

module _ (env : Environment) (call : Call) (user : RequestUser) (o f : ℕ) (dto : ClockOutDto)
    (db : Db) (result : Attendance) (db' : Db)
    (out : perform_clock_out env call user o f dto db ≡ ok (result, db')) where
  -- A clock-out that succeeds is of an own attendance that was active and has no active break. The
  -- attendance is then clocked out, or waits for a review, with the time of the server as its end,
  -- the whole minutes from its clock-in to then as its gross minutes, its completed breaks as its
  -- break minutes, and its gross minutes less these as its payable minutes, whatever unpaid break
  -- the shift plans.
  pub clock_out-holds :
      (a : Attendance) × (at : ℕ) × (own_attendance db o f dto.attendance_id ≡ ok a)
      × (a.clock_in_server_at ≡ some at)
      × (active_attendance_statuses a.status ≡ true)
      × (find_first (is_active_of dto.attendance_id) db.breaks ≡ none)
      × ((result.status ≡ AttendanceStatus.clocked_out)
          ⊎ (result.status ≡ AttendanceStatus.pending_supervisor_approval))
      × (result.clock_in_server_at ≡ a.clock_in_server_at)
      × (result.clock_out_server_at ≡ some call.now)
      × (result.total_break_minutes ≡ completed_minutes dto.attendance_id db.breaks)
      × (result.gross_minutes ≡ some ((call.now - at) / 60000))
      × (result.payable_minutes
          ≡ some ((call.now - at) / 60000 - completed_minutes dto.attendance_id db.breaks))
  unfolding clocked_out_row clock_out_totals
  clock_out-holds =
      let c = perform_clock_out-ClockedOut env call user o f dto db result db' out in
      let i = admit_clock_out-IsLeaving env call user o f dto db c.l c.admitted in
      let id = (own_attendance-holds db o f dto.attendance_id c.l.attendance i.own).0 in
      let t =
        totals_of _ c.l.clock_in_server_at call.now
          (completed_minutes c.l.attendance.id db.breaks) in
      (
        c.l.attendance,
        c.l.clock_in_server_at,
        i.own,
        i.clocked_in,
        i.active,
        rw (← id) i.no_break,
        rw (c.row, i.status) (next_status env c.l.geofence),
        rw c.row refl,
        rw c.row refl,
        rw (c.row, ← id) t.0,
        rw c.row (ap some t.1),
        rw (c.row, ← id) (ap some t.2),
      )

  -- The row is found again.
  pub found_again : own_attendance db' o f dto.attendance_id ≡ ok result
  unfolding write_clock_out clocked_out_row
  found_again =
      let c = perform_clock_out-ClockedOut env call user o f dto db result db' out in
      let i = admit_clock_out-IsLeaving env call user o f dto db c.l c.admitted in
      own-replaced db db' o f dto.attendance_id c.l.attendance result i.own (rw c.row refl)
        (rw c.row refl) (rw c.row refl) (rw c.row refl) (rw c.written refl)

  -- An attendance that waits for a review, or has been approved, is clocked out by no clock-out
  -- that is to be reviewed: one that succeeds leaves it CLOCKED_OUT.
  pub second_review_refused :
      (a : Attendance)
      → own_attendance db o f dto.attendance_id ≡ ok a
      → (a.status ≡ AttendanceStatus.pending_supervisor_approval)
        ⊎ (a.status ≡ AttendanceStatus.supervisor_approved)
      → result.status ≡ AttendanceStatus.clocked_out
  unfolding assert_attendance_transition attendance_transitions clocked_out_row
  second_review_refused a own from =
      let c = perform_clock_out-ClockedOut env call user o f dto db result db' out in
      let i = admit_clock_out-IsLeaving env call user o f dto db c.l c.admitted in
      let e : a ≡ c.l.attendance = ok_eq (sym own ∙ i.own) in
      let s : result.status ≡ c.l.next_status = rw c.row refl in
      let t = i.transition in
      let u = i.status in let v = next_status env c.l.geofence in ground arith

original_schedule :
    (env : Environment) (shift : Shift) (key : DateKey)
    → is_recurring_shift (some shift.recurrence_type) ≡ false
    → same_key key (start_key env.intl (recurrence_input shift)) ≡ false
    → (clock_out_occurrence env shift key).start_at ≡ shift.scheduled_start_at
unfolding recurrence_input clock_out_occurrence
original_schedule env shift key r k =
    let e = no_other_date env.intl (recurrence_input shift) key r k in
    rw (clock_out_occurrence, e) refl

-- For a shift that does not recur, the clock-out of an attendance of a later date, clocked in a day
-- or more after the original start with its grace period, counts the officer late by a day at
-- least.
pub standing_post_late :
    (env : Environment) (now : ℕ) (l : Leaving) (db : Db)
    → is_recurring_shift (some l.shift.recurrence_type) ≡ false
    → same_key l.attendance.occurrence_date (start_key env.intl (recurrence_input l.shift)) ≡ false
    → l.shift.scheduled_start_at
        + clamp_minutes (fin l.shift.grace_period_minutes) * 60000
        + 86400000
      ≤ l.clock_in_server_at
    → 1440 ≤ (clock_out_totals env now l db).late_minutes
unfolding clock_out_totals shift_totals calculate_totals
standing_post_late env now l db r k h =
    let e = original_schedule env l.shift l.attendance.occurrence_date r k in ground arith
