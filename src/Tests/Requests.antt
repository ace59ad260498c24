-- ===== src/Tests/Requests.antt =====
-- An officer starts a break, sends the request again, and ends the break.
use guardtrak_api.Prelude.{◌≡◌, ◌≢◌, refl, none, some, List, [], ◌∷◌, arith, find_first, total}
use guardtrak_api.Errors.{ok}
use guardtrak_api.Common.Tenant.{require_organisation_id, user_has_permission, tenant_not_found}
use guardtrak_api.Database.{Db, ShiftBreak, BreakType, Attendance}
use guardtrak_api.Transitions.AttendanceStatus.{AttendanceStatus, active_attendance_statuses}
use guardtrak_api.Transitions.BreakStatus.{BreakStatus, assert_break_transition, break_transitions}
use guardtrak_api.Environment.{begin_input}
use guardtrak_api.Idempotency.Types.{IdempotencyRow, response}
use guardtrak_api.Idempotency.Store
use guardtrak_api.Idempotency.Service
use guardtrak_api.Breaks.Guards.{
  assert_device_time_tolerance, assert_active_device, resolve_officer_profile_id, officer_of,
  completed_minutes,
}
use guardtrak_api.Breaks.Start.{
  own_attendance, new_break, insert_break, perform_start, start, start_hash, break_start,
}
use guardtrak_api.Breaks.End.{find_break}
use guardtrak_api.Breaks.Cancel.{is_reviewer, check_cancel, cancelled, write_cancel, cancel}
use guardtrak_api.Breaks.Invariant.{Inv, has_id}
use guardtrak_api.Breaks.Rules.{second_start_refused, start_is_idempotent}
use guardtrak_api.Histories.{here, next, break_starts, Reach-Inv}
use guardtrak_api.Tests.{test_env, officer, call_at, attendance_with, db_with, start_dto}

abbrev before : Db
before = db_with AttendanceStatus.clocked_in

abbrev break_row : ShiftBreak
break_row = record {
  id = 50;
  organisation_id = 10;
  attendance_id = 100;
  officer_id = 20;
  shift_id = 30;
  kind = BreakType.rest;
  status = BreakStatus.active;
  started_at_device = 60000;
  started_at_server = some 60000;
  ended_at_device = none;
  ended_at_server = none;
  duration_minutes = none;
  note = none;
  local_break_id = none;
  cancellation_reason = none;
  cancelled_by_user_id = none;
}

abbrev during : Db
unfolding insert_break
during = insert_break before officer 10 break_row

own_attendance_found :
    own_attendance before 10 20 100 ≡ ok (attendance_with AttendanceStatus.clocked_in)
unfolding own_attendance find_first
own_attendance_found = refl

abbrev found_row : Attendance
found_row = attendance_with AttendanceStatus.clocked_in

break_started :
    perform_start test_env (call_at 60000) officer 10 20 start_dto before ≡ ok (break_row, during)
unfolding perform_start assert_device_time_tolerance assert_active_device own_attendance find_first
    tenant_not_found active_attendance_statuses new_break insert_break
break_started = refl

second_start_refused_example :
    perform_start test_env (call_at 90000) officer 10 20 start_dto during ≢ ok (break_row, during)
second_start_refused_example =
    second_start_refused test_env (call_at 60000) (call_at 90000) officer officer 10 20 10 20
      start_dto start_dto before during during break_row break_row break_started refl

on_time : assert_device_time_tolerance none 210000 210000 ≡ ok tt
unfolding assert_device_time_tolerance
on_time = refl

on_device : assert_active_device during officer ≡ ok tt
unfolding assert_active_device find_first insert_break
on_device = refl

break_cancelled :
    cancel test_env (call_at 90000) officer 50 none during
    ≡ ok (
      cancelled test_env officer none break_row,
      write_cancel test_env officer 10 none break_row during,
    )
unfolding cancel require_organisation_id find_break find_first check_cancel is_reviewer
    user_has_permission resolve_officer_profile_id assert_break_transition break_transitions
    insert_break new_break tenant_not_found
break_cancelled = refl

-- The table after the first request: its row is completed, with the break as the answer.
abbrev rows_after : List (IdempotencyRow ShiftBreak)
unfolding Store.complete Store.update_unique Store.new_row begin_input
rows_after =
    Store.complete 1 900 201 break_row
      (Store.new_row (begin_input test_env officer 10 900 break_start 77) 60000 ∷ [])

start_answered :
    start test_env (call_at 60000) officer start_dto [] (some []) before
    ≡ (ok (response break_row), some rows_after, during)
unfolding start officer_of require_organisation_id resolve_officer_profile_id begin_input start_hash
    Service.idempotently Service.begin Service.check_found Service.after_begin Service.complete
    Store.begin Store.begin_existing Store.find_unique Store.new_row Store.complete Store.map_row
    Store.update_unique perform_start assert_device_time_tolerance assert_active_device
    own_attendance find_first tenant_not_found active_attendance_statuses new_break insert_break
start_answered = refl

officer_stays : officer_of during officer ≡ officer_of before officer
unfolding officer_of resolve_officer_profile_id insert_break
officer_stays = refl

start_is_idempotent_example :
    start test_env (call_at 99000) officer start_dto [] (some rows_after) during
    ≡ (ok (response break_row), some rows_after, during)
start_is_idempotent_example =
    start_is_idempotent test_env (call_at 60000) (call_at 99000) officer start_dto before during
      during [] [] [] rows_after (response break_row) (omega arith) officer_stays start_answered

before-Inv : Inv before
unfolding total completed_minutes
before-Inv = record {
  distinct = λ i. omega arith;
  one_active = λ i. omega arith;
  totals = (refl, tt);
}

no_row : find_first (has_id 50) before.breaks ≡ none
unfolding find_first
no_row = refl

Reach-Inv_example : Inv during
Reach-Inv_example =
    Reach-Inv
      (next here
        (break_starts (call_at 60000) officer 10 20 start_dto break_row no_row break_started))
      before-Inv
