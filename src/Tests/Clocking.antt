-- ===== src/Tests/Clocking.antt =====
-- An officer clocks in, and out again.
use guardtrak_api.Prelude.{
  ◌≡◌, ◌≢◌, refl, true, List, [], ◌∷◌, false, none, some, arith, find_first,
}
use guardtrak_api.Prelude.Int.{pos, fin}
use guardtrak_api.Errors.{Result, ok}
use guardtrak_api.Environment.{Environment}
use guardtrak_api.Database.{Db, Attendance}
use guardtrak_api.Calendar.{
  before, add_calendar_days, previous_day, next_day, days_in_month, same_key,
}
use guardtrak_api.Transitions.AttendanceStatus.{AttendanceStatus}
use guardtrak_api.Breaks.Guards.{
  assert_device_time_tolerance, assert_active_device, officer_of, resolve_officer_profile_id,
}
use guardtrak_api.Attendance.Geofence.{
  GeofenceEvaluationResult, validate_coordinates, evaluate_geofence, apply_enforcement,
}
use guardtrak_api.Attendance.Presence.{check_accuracy, check_selfie, geofence_of, check_allowed}
use guardtrak_api.Attendance.ClockIn.{
  ClockInDto, Admitted, check_occurrence, existing, own_assignment, is_over, admit_clock_in,
  new_attendance, is_taken,
}
use guardtrak_api.Attendance.ClockIn.Perform.{
  perform_clock_in, write_clock_in, clock_in, clock_in_hash, clock_in_operation,
}
use guardtrak_api.Attendance.ClockIn.Laws.{second_clock_in_refused}
use guardtrak_api.Shifts.Recurrence.{
  ShiftOccurrence, occurrence_on_date, start_key, after_end, is_recurring_shift,
}
use guardtrak_api.Shifts.Recurrence.Window.{
  resolve_clock_in_occurrence, occurrence_from_client_date, current_occurrence, in_window,
  today_key,
}
use guardtrak_api.Timezone.{zoned_date_key}
use guardtrak_api.Attendance.ClockIn.Retry.{clock_in_is_idempotent}
use guardtrak_api.Environment.{begin_input}
use guardtrak_api.Common.Tenant.{require_organisation_id}
use guardtrak_api.Idempotency.Types.{IdempotencyRow, response}
use guardtrak_api.Idempotency.Store
use guardtrak_api.Idempotency.Service
use guardtrak_api.Tests.{test_env, officer, call_at, db_with, duty, post, gate}
use guardtrak_api.Tests.Dates.{utc, epoch}

abbrev pub clock_env : Environment
clock_env = record test_env { intl = utc }

abbrev pub no_attendance : Db
no_attendance = record (db_with AttendanceStatus.pending) { attendances = [] }

abbrev pub clock_in_dto : ClockInDto
clock_in_dto = record {
  assignment_id = 40;
  occurrence_date = none;
  device_timestamp = 60000;
  latitude = fin (pos 88833000);
  longitude = fin (pos 130000000);
  accuracy_meters = 10;
  reason = none;
  evidence_id = none;
  local_attendance_id = none;
  idempotency_key = 910;
}

abbrev today : ShiftOccurrence
today = record { date_key = epoch; start_at = 0; end_at = 28800000 }

abbrev pub inside : GeofenceEvaluationResult
inside = record { allowed = true; requires_review = false; outside = false }

abbrev pub found : Admitted
found = record {
  assignment = duty;
  shift = post;
  site = gate;
  occurrence = today;
  geofence = inside;
}

on_time : check_occurrence clock_env 60000 no_attendance 10 duty post none ≡ ok today
unfolding check_occurrence existing find_first resolve_clock_in_occurrence
    occurrence_from_client_date current_occurrence in_window occurrence_on_date before
    add_calendar_days previous_day next_day today_key zoned_date_key start_key days_in_month
    same_key after_end is_recurring_shift
on_time = refl

on_duty :
    admit_clock_in clock_env (call_at 60000) officer 10 20 clock_in_dto no_attendance ≡ ok found
unfolding admit_clock_in assert_device_time_tolerance validate_coordinates assert_active_device
    own_assignment is_over check_accuracy check_selfie geofence_of check_allowed find_first
    evaluate_geofence apply_enforcement is_recurring_shift
on_duty = rw on_time refl

abbrev pub row : Attendance
row = new_attendance clock_env (call_at 60000) 10 20 clock_in_dto found

pub clocked_in_now :
    perform_clock_in clock_env (call_at 60000) officer 10 20 clock_in_dto no_attendance
    ≡ ok (row, write_clock_in (call_at 60000) officer 10 clock_in_dto found row no_attendance)
unfolding perform_clock_in is_taken find_first
clocked_in_now = rw on_duty refl

second_clock_in_refused_example :
    perform_clock_in clock_env
      (call_at 120000)
      officer
      10
      20
      clock_in_dto
      (write_clock_in (call_at 60000) officer 10 clock_in_dto found row no_attendance)
    ≢ ok (row, no_attendance)
second_clock_in_refused_example =
    second_clock_in_refused clock_env (call_at 60000) (call_at 120000) officer officer 10 20 10 20
      clock_in_dto clock_in_dto no_attendance _ no_attendance row row clocked_in_now refl refl

abbrev rows_after : List (IdempotencyRow Attendance)
unfolding Store.complete Store.update_unique Store.new_row begin_input
rows_after =
    Store.complete 1 910 201 row
      (Store.new_row (begin_input clock_env officer 10 910 clock_in_operation 77) 60000 ∷ [])

first_answer :
    (operation : Db → Result (Attendance × Db)) (db' : Db)
    → operation no_attendance ≡ ok (row, db')
    → Service.idempotently clock_env.error_message 201 operation
        (begin_input clock_env officer 10 910 clock_in_operation 77)
        60000
        []
        60000
        (some [])
        no_attendance
      ≡ (ok (response row), some rows_after, db')
unfolding begin_input Service.idempotently Service.begin Service.check_found Service.after_begin
    Service.complete Store.begin Store.begin_existing Store.find_unique Store.new_row Store.complete
    Store.map_row Store.update_unique
first_answer operation db' h = rw h refl

clock_in_answered :
    clock_in clock_env (call_at 60000) officer clock_in_dto [] (some []) no_attendance ≡ (
      ok (response row),
      some rows_after,
      write_clock_in (call_at 60000) officer 10 clock_in_dto found row no_attendance,
    )
unfolding clock_in officer_of require_organisation_id resolve_officer_profile_id clock_in_hash
    find_first
clock_in_answered =
    first_answer (perform_clock_in clock_env (call_at 60000) officer 10 20 clock_in_dto) _
      clocked_in_now

clock_in_is_idempotent_example :
    clock_in clock_env (call_at 99000) officer clock_in_dto [] (some rows_after) no_attendance
    ≡ (ok (response row), some rows_after, no_attendance)
clock_in_is_idempotent_example =
    clock_in_is_idempotent clock_env (call_at 60000) (call_at 99000) officer clock_in_dto
      no_attendance (write_clock_in (call_at 60000) officer 10 clock_in_dto found row no_attendance)
      no_attendance [] [] [] rows_after (response row) (omega arith) refl clock_in_answered
