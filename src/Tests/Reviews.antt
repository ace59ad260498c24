-- ===== src/Tests/Reviews.antt =====
-- A supervisor rejects, approves and corrects an attendance.
use guardtrak_api.Prelude.{ℕ, ◌-◌, ◌/◌, ◌≡◌, ◌≢◌, refl, true, ◌⊎◌, none, some, find_first, total}
use guardtrak_api.Errors.{ok}
use guardtrak_api.Common.Tenant.{
  require_organisation_id, user_has_permission, tenant_not_found, attendance_review,
  attendance_approve, attendance_correct,
}
use guardtrak_api.Database.{Db, Attendance, AttendanceEventType, AuditNote}
use guardtrak_api.Transitions.AttendanceStatus.{
  AttendanceStatus, attendance_transitions, assert_attendance_transition,
  active_attendance_statuses,
}
use guardtrak_api.Breaks.Guards.{completed_minutes}
use guardtrak_api.Attendance.Lookup.{
  is_attendance, find_attendance_or_throw, assert_can_review_attendance, write_attendance,
  resolve_supervisor_profile_id, same_supervisor, supervisor_of, is_linked,
}
use guardtrak_api.Attendance.Review.{request_review, review, approve, reject}
use guardtrak_api.Attendance.Review.Outcomes.{review_authorised}
use guardtrak_api.Attendance.Review.Decisions.{rejection_is_final, approval_reactivates}
use guardtrak_api.Attendance.Calculation.{calculate_totals, minutes_between, clamp_minutes}
use guardtrak_api.Attendance.Correct.{
  CorrectAttendanceDto, corrected, shift_totals, correct, or_else,
}
use guardtrak_api.Attendance.Correct.Laws.{correct_totals}
use guardtrak_api.Tests.{test_env, supervisor, call_at, attendance_with, db_with}

abbrev reviewed_row : AttendanceStatus → AttendanceStatus → Attendance
reviewed_row old new = record (attendance_with old) {
  status = new;
  reviewed_at = some 500;
  reviewed_by_user_id = some 2;
  review_reason = some "seen";
}

abbrev decided : AttendanceStatus → AttendanceStatus → AttendanceEventType → Db
decided old new event =
    write_attendance supervisor 10 500 (reviewed_row old new) event "seen"
      (AuditNote.reviewed event) (db_with old)

rejected_ok :
    reject test_env
      (call_at 500)
      supervisor
      100
      "seen"
      (db_with AttendanceStatus.pending_supervisor_approval)
    ≡ ok (
      reviewed_row AttendanceStatus.pending_supervisor_approval
          AttendanceStatus.supervisor_rejected,
      decided AttendanceStatus.pending_supervisor_approval AttendanceStatus.supervisor_rejected
          AttendanceEventType.rejected,
    )
unfolding reject review require_organisation_id user_has_permission find_attendance_or_throw
    tenant_not_found assert_can_review_attendance assert_attendance_transition
    attendance_transitions find_first
rejected_ok = refl

abbrev rejected_db : Db
rejected_db =
    decided AttendanceStatus.pending_supervisor_approval AttendanceStatus.supervisor_rejected
      AttendanceEventType.rejected

rejection_is_final_example :
    (approve test_env (call_at 900) supervisor 100 "again" rejected_db
      ≢ ok (attendance_with AttendanceStatus.supervisor_approved, rejected_db))
    × (reject test_env (call_at 900) supervisor 100 "again" rejected_db
        ≢ ok (attendance_with AttendanceStatus.supervisor_approved, rejected_db))
    × (request_review test_env (call_at 900) supervisor 100 "again" rejected_db
        ≢ ok (attendance_with AttendanceStatus.supervisor_approved, rejected_db))
rejection_is_final_example =
    rejection_is_final test_env (call_at 500) (call_at 900) supervisor supervisor 100 "seen" "again"
      (db_with AttendanceStatus.pending_supervisor_approval) rejected_db rejected_db
      (reviewed_row AttendanceStatus.pending_supervisor_approval
        AttendanceStatus.supervisor_rejected)
      (attendance_with AttendanceStatus.supervisor_approved) rejected_ok refl

approved_ok :
    review test_env
      (call_at 500)
      supervisor
      100
      "seen"
      AttendanceStatus.supervisor_approved
      AttendanceEventType.approved
      (db_with AttendanceStatus.clocked_out)
    ≡ ok (
      reviewed_row AttendanceStatus.clocked_out AttendanceStatus.supervisor_approved,
      decided AttendanceStatus.clocked_out AttendanceStatus.supervisor_approved
          AttendanceEventType.approved,
    )
unfolding review require_organisation_id user_has_permission find_attendance_or_throw
    tenant_not_found assert_can_review_attendance assert_attendance_transition
    attendance_transitions find_first
approved_ok = refl

approve_is_review :
    approve test_env (call_at 500) supervisor 100 "seen" (db_with AttendanceStatus.clocked_out)
    ≡ ok (
      reviewed_row AttendanceStatus.clocked_out AttendanceStatus.supervisor_approved,
      decided AttendanceStatus.clocked_out AttendanceStatus.supervisor_approved
          AttendanceEventType.approved,
    )
unfolding approve
approve_is_review = approved_ok

approval_reactivates_example :
    (active_attendance_statuses AttendanceStatus.supervisor_approved ≡ true)
    × (attendance_transitions AttendanceStatus.supervisor_approved AttendanceStatus.clocked_out
        ≡ true)
approval_reactivates_example =
    approval_reactivates test_env (call_at 500) supervisor 100 "seen"
      (db_with AttendanceStatus.clocked_out)
      (decided AttendanceStatus.clocked_out AttendanceStatus.supervisor_approved
        AttendanceEventType.approved)
      (reviewed_row AttendanceStatus.clocked_out AttendanceStatus.supervisor_approved)
      approve_is_review

review_authorised_example :
    (o : ℕ) × (a : Attendance) × (some 10 ≡ some o)
    × (find_first (is_attendance o 100) (db_with AttendanceStatus.clocked_out).attendances ≡ some a)
    × ((user_has_permission supervisor attendance_review ≡ true)
        ⊎ (user_has_permission supervisor attendance_approve ≡ true))
    × ((user_has_permission supervisor attendance_correct ≡ true)
        ⊎ (same_supervisor
              (resolve_supervisor_profile_id (db_with AttendanceStatus.clocked_out) supervisor o)
              (supervisor_of (db_with AttendanceStatus.clocked_out) a)
            ≡ true)
        ⊎ (is_linked 500
              (db_with AttendanceStatus.clocked_out)
              o
              (resolve_supervisor_profile_id (db_with AttendanceStatus.clocked_out) supervisor o)
              a.officer_id
            ≡ true))
review_authorised_example =
    review_authorised test_env (call_at 500) supervisor 100 "seen"
      AttendanceStatus.supervisor_approved AttendanceEventType.approved
      (db_with AttendanceStatus.clocked_out)
      (reviewed_row AttendanceStatus.clocked_out AttendanceStatus.supervisor_approved)
      (decided AttendanceStatus.clocked_out AttendanceStatus.supervisor_approved
        AttendanceEventType.approved)
      approved_ok

-- The clock-out is moved to seven hours after the clock-in.
abbrev correction : CorrectAttendanceDto
correction = record {
  clock_in_server_at = none;
  clock_out_server_at = some 25200000;
  reason = "Left at 15:00";
}

abbrev uncorrected : Db
uncorrected = db_with AttendanceStatus.clocked_out

abbrev corrected_row : Attendance
corrected_row = record (attendance_with AttendanceStatus.clocked_out) {
  clock_out_server_at = some 25200000;
  gross_minutes = some 420;
  payable_minutes = some 420;
  overtime_minutes = some 0;
  late_minutes = some 0;
  early_departure_minutes = some 60;
}

abbrev corrected_db : Db
corrected_db =
    write_attendance supervisor 10 600 corrected_row AttendanceEventType.corrected "Left at 15:00"
      AuditNote.correct uncorrected

corrected_ok :
    correct test_env (call_at 600) supervisor 100 correction uncorrected
    ≡ ok (corrected_row, corrected_db)
unfolding correct require_organisation_id find_attendance_or_throw tenant_not_found find_first
    corrected shift_totals calculate_totals minutes_between clamp_minutes completed_minutes total
    assert_can_review_attendance user_has_permission
corrected_ok = refl

correct_totals_example :
    (clock_in clock_out : ℕ) × (before : Attendance) × (o : ℕ) × (find_first
        (is_attendance o 100)
        uncorrected.attendances
      ≡ some before)
    × (AttendanceStatus.clocked_out ≡ before.status)
    × (or_else correction.clock_in_server_at before.clock_in_server_at ≡ some clock_in)
    × (or_else correction.clock_out_server_at before.clock_out_server_at ≡ some clock_out)
    × (some 0 ≡ some clock_in)
    × (some 25200000 ≡ some clock_out)
    × (corrected_row.total_break_minutes ≡ completed_minutes before.id uncorrected.breaks)
    × (some 420 ≡ some ((clock_out - clock_in) / 60000))
    × (some 420
        ≡ some ((clock_out - clock_in) / 60000 - completed_minutes before.id uncorrected.breaks))
correct_totals_example =
    correct_totals test_env (call_at 600) supervisor 100 correction uncorrected corrected_row
      corrected_db corrected_ok
