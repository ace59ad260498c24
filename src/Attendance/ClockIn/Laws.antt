-- ===== src/Attendance/ClockIn/Laws.antt =====
-- What a clock-in that succeeds has checked and written.
use guardtrak_api.Prelude.{ℕ, Bool, true, false, not, ◌≡◌, ◌≢◌, sym, ap, arith, some, find_first}
use guardtrak_api.Errors.{ok, step_ok, check_ok, ok_eq}
use guardtrak_api.Common.Tenant.{RequestUser}
use guardtrak_api.Environment.{Environment, Call}
use guardtrak_api.Database.{Db, Attendance}
use guardtrak_api.Calendar.{same_key}
use guardtrak_api.Shifts.Recurrence.{is_recurring_shift}
use guardtrak_api.Attendance.Presence.{shift_by_id, site_by_id, geofence_of, check_allowed}
use guardtrak_api.Attendance.ClockIn.{
  ClockInDto, Admitted, own_assignment, is_over, check_occurrence, admit_clock_in, new_attendance,
  is_taken, is_of_occurrence,
}
use guardtrak_api.Attendance.ClockIn.Perform.{write_clock_in, perform_clock_in}

pub record ClockedIn (env : Environment) (call : Call) (user : RequestUser) (o f : ℕ)
    (dto : ClockInDto) (db : Db) (result : Attendance) (db' : Db) : Type 0 where
  pub a : Admitted
  pub admitted : admit_clock_in env call user o f dto db ≡ ok a
  pub free : is_taken db o a.assignment.id a.occurrence.date_key dto.local_attendance_id ≡ false
  pub row : result ≡ new_attendance env call o f dto a
  pub written : db' ≡ write_clock_in call user o dto a (new_attendance env call o f dto a) db

not-false : {b : Bool} → not b ≡ true → b ≡ false
not-false {b} h = ground arith

pub perform_clock_in-ClockedIn :
    (env : Environment) (call : Call) (user : RequestUser) (o f : ℕ) (dto : ClockInDto) (db : Db)
    (result : Attendance) (db' : Db)
    → perform_clock_in env call user o f dto db ≡ ok (result, db')
    → ClockedIn env call user o f dto db result db'
unfolding perform_clock_in
perform_clock_in-ClockedIn env call user o f dto db result db' h =
    let (a, admitted, h') = step_ok (admit_clock_in env call user o f dto db) _ h in
    let (free, h'') =
      check_ok (not (is_taken db o a.assignment.id a.occurrence.date_key dto.local_attendance_id)) _
        _ _ h' in
    record {
      a = a;
      admitted = admitted;
      free = not-false free;
      row = ap (λ (p : Attendance × Db). p.0) (sym (ok_eq h''));
      written = ap (λ (p : Attendance × Db). p.1) (sym (ok_eq h''));
    }

-- What the checks before the transaction have found.
pub record IsAdmitted (env : Environment) (now o f : ℕ) (dto : ClockInDto) (db : Db) (a : Admitted)
    : Type 0 where
  pub own : own_assignment db o f dto.assignment_id ≡ ok a.assignment
  pub of_shift : shift_by_id db a.assignment.shift_id ≡ some a.shift
  pub at_site : site_by_id db a.shift.site_id ≡ some a.site
  pub active : a.assignment.is_active ≡ true
  pub current :
      is_over a.assignment.status (is_recurring_shift (some a.shift.recurrence_type)) ≡ false
  pub on_time :
      check_occurrence env now db o a.assignment a.shift dto.occurrence_date ≡ ok a.occurrence
  pub place :
      a.geofence
      ≡ geofence_of env a.site a.site.clock_in_radius_meters a.site.clock_in_outside_geofence_policy
          dto.latitude dto.longitude dto.reason
  pub inside : a.geofence.allowed ≡ true

pub admit_clock_in-IsAdmitted :
    (env : Environment) (call : Call) (user : RequestUser) (o f : ℕ) (dto : ClockInDto) (db : Db)
    (a : Admitted)
    → admit_clock_in env call user o f dto db ≡ ok a
    → IsAdmitted env call.now o f dto db a
unfolding admit_clock_in check_allowed
admit_clock_in-IsAdmitted env call user o f dto db a h = ground arith

-- Right after a clock-in no other one, of any user and at any time, succeeds with an attendance of
-- the same assignment and occurrence.
pub second_clock_in_refused :
    (env : Environment) (call call' : Call) (user user' : RequestUser) (o f o' f' : ℕ)
    (dto dto' : ClockInDto) (db db' db'' : Db) (result result' : Attendance)
    → perform_clock_in env call user o f dto db ≡ ok (result, db')
    → result'.assignment_id ≡ result.assignment_id
    → result'.occurrence_date ≡ result.occurrence_date
    → perform_clock_in env call' user' o' f' dto' db' ≢ ok (result', db'')
unfolding write_clock_in is_taken new_attendance find_first same_key is_of_occurrence
second_clock_in_refused env call call' user user' o f o' f' dto dto' db db' db'' result result' h s
      d h' =
    let c = perform_clock_in-ClockedIn env call user o f dto db result db' h in
    let c' = perform_clock_in-ClockedIn env call' user' o' f' dto' db' result' db'' h' in
    let free = rw c.written at c'.free in
    let s' = rw (c.row, c'.row) at s in let d' = rw (c.row, c'.row) at d in ground arith
