-- ===== src/Attendance/Review.antt =====
-- `requestReview`, `review` (`approve` and `reject`) and `voidAttendance`.
pub mod Outcomes
pub mod Decisions
use guardtrak_api.Prelude.{ℕ, ◌||◌, Option, some, ◌==◌, String, if◌then◌else◌}
use guardtrak_api.Errors.{
  Result, ok, throw, ensure, ◌>>=◌, ◌>>◌, forbidden_403, not_found_404, attendance_not_found,
  attendance_review_forbidden,
}
use guardtrak_api.Common.Tenant.{
  RequestUser, require_organisation_id, user_has_permission, attendance_review, attendance_approve,
}
use guardtrak_api.Transitions.AttendanceStatus.{AttendanceStatus, assert_attendance_transition}
use guardtrak_api.Database.{Db, Attendance, AttendanceEventType, AuditNote}
use guardtrak_api.Environment.{Environment, Call}
use guardtrak_api.Breaks.Guards.{officer_of}
use guardtrak_api.Attendance.Lookup.{
  find_attendance_or_throw, assert_can_review_attendance, write_attendance,
}

module _ (env : Environment) (call : Call) (user : RequestUser) where
  unfoldable pub request_review : ℕ → String → Db → Result (Attendance × Db)
  request_review id reason db = do
    (organisation_id, officer_id) ← officer_of db user
    attendance ← find_attendance_or_throw db organisation_id id
    ensure (attendance.officer_id == officer_id) not_found_404 attendance_not_found
    assert_attendance_transition attendance.status AttendanceStatus.pending_supervisor_approval
    let new = record attendance {
      status = AttendanceStatus.pending_supervisor_approval;
      approval_requested_at = some call.now;
    }
    ok (
      new,
      write_attendance user organisation_id call.now new
          AttendanceEventType.clock_out_review_requested (env.trim reason) AuditNote.request_review
          db,
    )

  unfoldable pub review :
      ℕ → String → AttendanceStatus → AttendanceEventType → Db → Result (Attendance × Db)
  review id reason next_status event_type db = do
    organisation_id ← require_organisation_id user
    ensure
        (user_has_permission user attendance_review || user_has_permission user attendance_approve)
        forbidden_403 attendance_review_forbidden
    attendance ← find_attendance_or_throw db organisation_id id
    assert_can_review_attendance call.now db user organisation_id attendance
    assert_attendance_transition attendance.status next_status
    let new = record attendance {
      status = next_status;
      reviewed_at = some call.now;
      reviewed_by_user_id = some user.id;
      review_reason = some (env.trim reason);
    }
    ok (
      new,
      write_attendance user organisation_id call.now new event_type (env.trim reason)
          (AuditNote.reviewed event_type) db,
    )

  unfoldable pub approve : ℕ → String → Db → Result (Attendance × Db)
  unfolding review
  approve id reason db =
      review id reason AttendanceStatus.supervisor_approved AttendanceEventType.approved db

  unfoldable pub reject : ℕ → String → Db → Result (Attendance × Db)
  unfolding review
  reject id reason db =
      review id reason AttendanceStatus.supervisor_rejected AttendanceEventType.rejected db

  unfoldable pub void_attendance : ℕ → String → Db → Result (Attendance × Db)
  void_attendance id reason db = do
    organisation_id ← require_organisation_id user
    attendance ← find_attendance_or_throw db organisation_id id
    assert_attendance_transition attendance.status AttendanceStatus.voided
    let new = record attendance { status = AttendanceStatus.voided }
    ok (
      new,
      write_attendance user organisation_id call.now new AttendanceEventType.voided
          (env.trim reason) AuditNote.void db,
    )
