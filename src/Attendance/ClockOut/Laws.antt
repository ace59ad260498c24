-- ===== src/Attendance/ClockOut/Laws.antt =====
-- What a clock-out that succeeds has checked and written.
use guardtrak_api.Prelude.{
  ℕ, true, not, ◌≡◌, refl, sym, ap, inl, inr, arith, Option, none, some, is_some, find_first,
  Option-cases, String,
}
use guardtrak_api.Errors.{ok, step_ok, ok_eq, then_ok, check_ok}
use guardtrak_api.Common.Tenant.{RequestUser, tenant_not_found}
use guardtrak_api.Environment.{Environment, Call}
use guardtrak_api.Database.{Db, Attendance}
use guardtrak_api.Transitions.AttendanceStatus.{
  active_attendance_statuses, assert_attendance_transition,
}
use guardtrak_api.Breaks.Guards.{completed_minutes}
use guardtrak_api.Breaks.Start.{own_attendance, is_active_of}
use guardtrak_api.Breaks.Guards.{assert_device_time_tolerance, assert_active_device}
use guardtrak_api.Attendance.Calculation.{calculate_totals, clamp_minutes}
use guardtrak_api.Attendance.Correct.{shift_totals}
use guardtrak_api.Attendance.Lookup.{is_attendance}
use guardtrak_api.Attendance.Presence.{
  check_allowed, check_accuracy, check_selfie, geofence_of, related, shift_by_id, site_by_id,
  assignment_by_id,
}
use guardtrak_api.Attendance.Geofence.{
  validate_coordinates, GeofencePolicy, GeofenceEvaluationResult,
}
use guardtrak_api.Attendance.ClockOut.{
  ClockOutDto, Leaving, admit_clock_out, clock_out_totals, clocked_out_row, clock_out_status,
  check_final_note,
}
use guardtrak_api.Attendance.ClockOut.Perform.{write_clock_out, perform_clock_out}

pub record ClockedOut (env : Environment) (call : Call) (user : RequestUser) (o f : ℕ)
    (dto : ClockOutDto) (db : Db) (result : Attendance) (db' : Db) : Type 0 where
  pub l : Leaving
  pub admitted : admit_clock_out env call user o f dto db ≡ ok l
  pub row : result ≡ clocked_out_row env call dto l (clock_out_totals env call.now l db)
  pub written : db' ≡ write_clock_out call user o dto l result db

pub perform_clock_out-ClockedOut :
    (env : Environment) (call : Call) (user : RequestUser) (o f : ℕ) (dto : ClockOutDto) (db : Db)
    (result : Attendance) (db' : Db)
    → perform_clock_out env call user o f dto db ≡ ok (result, db')
    → ClockedOut env call user o f dto db result db'
unfolding perform_clock_out
perform_clock_out-ClockedOut env call user o f dto db result db' h =
    let (l, admitted, h') = step_ok (admit_clock_out env call user o f dto db) _ h in
    let row = ap (λ (p : Attendance × Db). p.0) (sym (ok_eq h')) in
    record {
      l = l;
      admitted = admitted;
      row = row;
      written = rw row (ap (λ (p : Attendance × Db). p.1) (sym (ok_eq h')));
    }

-- What the checks before the transaction have found.
pub record IsLeaving (env : Environment) (o f : ℕ) (dto : ClockOutDto) (db : Db) (l : Leaving)
    : Type 0 where
  pub own : own_attendance db o f dto.attendance_id ≡ ok l.attendance
  pub active : active_attendance_statuses l.attendance.status ≡ true
  pub no_break : find_first (is_active_of l.attendance.id) db.breaks ≡ none
  pub inside : l.geofence.allowed ≡ true
  pub status : l.next_status ≡ clock_out_status env l.geofence
  pub transition : assert_attendance_transition l.attendance.status l.next_status ≡ ok tt
  pub clocked_in : l.attendance.clock_in_server_at ≡ some l.clock_in_server_at
  pub of_assignment : assignment_by_id db l.attendance.assignment_id ≡ some l.assignment

related-ok : {A : Type 0} (x : Option A) {a : A} → related x ≡ ok a → x ≡ some a
related-ok none h = cc
related-ok (some a) h = ap some (ok_eq h)

is_allowed :
    (env : Environment) (policy : GeofencePolicy) (reason : Option String)
    (geofence : GeofenceEvaluationResult)
    → check_allowed env policy reason geofence ≡ ok tt
    → geofence.allowed ≡ true
unfolding check_allowed
is_allowed env policy reason geofence h = ground arith

pub admit_clock_out-IsLeaving :
    (env : Environment) (call : Call) (user : RequestUser) (o f : ℕ) (dto : ClockOutDto) (db : Db)
    (l : Leaving)
    → admit_clock_out env call user o f dto db ≡ ok l
    → IsLeaving env o f dto db l
unfolding admit_clock_out
admit_clock_out-IsLeaving env call user o f dto db l h =
    let (q1, h1) =
      then_ok
        (assert_device_time_tolerance env.device_time_tolerance_minutes dto.device_timestamp
          call.now)
        _ h in
    let (q2, h2) = then_ok (validate_coordinates dto.latitude dto.longitude) _ h1 in
    let (q3, h3) = then_ok (assert_active_device db user) _ h2 in
    let (a, own, h4) = step_ok (own_attendance db o f dto.attendance_id) _ h3 in
    let (shift, of_shift, h5) = step_ok (related (shift_by_id db a.shift_id)) _ h4 in
    let (site, at_site, h6) = step_ok (related (site_by_id db a.site_id)) _ h5 in
    let (assignment, of_assignment, h7) =
      step_ok (related (assignment_by_id db a.assignment_id)) _ h6 in
    let (active, h8) = check_ok (active_attendance_statuses a.status) _ _ _ h7 in
    let (free, h9) = check_ok (not (is_some (find_first (is_active_of a.id) db.breaks))) _ _ _ h8 in
    let (q4, h10) = then_ok (check_accuracy env site dto.accuracy_meters) _ h9 in
    let (q5, h11) =
      then_ok (check_selfie db o user site.requires_clock_out_selfie dto.evidence_id) _ h10 in
    let (q6, h12) = then_ok (check_final_note env site dto.final_shift_note) _ h11 in
    let place =
      geofence_of env site site.clock_out_radius_meters site.clock_out_outside_geofence_policy
        dto.latitude dto.longitude dto.reason in
    let (allowed, h13) =
      then_ok (check_allowed env site.clock_out_outside_geofence_policy dto.reason place) _ h12 in
    let (transition, h14) =
      then_ok (assert_attendance_transition a.status (clock_out_status env place)) _ h13 in
    let (at, clocked_in, h15) = step_ok (related a.clock_in_server_at) _ h14 in
    let found = ok_eq h15 in
    record {
      own = rw (← found) own;
      active = rw (← found) active;
      no_break = rw (← found) (ground arith);
      inside =
          rw (← found)
            (is_allowed env site.clock_out_outside_geofence_policy dto.reason place allowed);
      status = rw (← found) refl;
      transition = rw (← found) transition;
      clocked_in = rw (← found) (related-ok a.clock_in_server_at clocked_in);
      of_assignment = rw (← found) (related-ok (assignment_by_id db a.assignment_id) of_assignment);
    }

module _ {env : Environment} {call : Call} {user : RequestUser} {o f : ℕ} {dto : ClockOutDto}
    {db : Db} {result : Attendance} {db' : Db}
    (c : ClockedOut env call user o f dto db result db') where
  pub ClockedOut-minutes : result.total_break_minutes ≡ completed_minutes result.id db.breaks
  unfolding clocked_out_row clock_out_totals shift_totals calculate_totals clamp_minutes
  ClockedOut-minutes = rw c.row refl

-- An own attendance is the first that is found.
pub own-found :
    (db : Db) (o f id : ℕ) (a : Attendance)
    → own_attendance db o f id ≡ ok a
    → find_first (is_attendance o id) db.attendances ≡ some a
unfolding own_attendance tenant_not_found
own-found db o f id a h = elim (Option-cases (find_first (is_attendance o id) db.attendances)) [
  | inl e ↦ absurd (ground arith)
  | inr (b, e) ↦ ground arith
]
