-- ===== src/Attendance/Review/Outcomes.antt =====
-- Who may review, and what a handler that succeeds has found and written.
use guardtrak_api.Prelude.{
  ℕ, true, ◌≡◌, ◌⊎◌, inl, inr, arith, some, String, Option-cases, find_first,
}
use guardtrak_api.Errors.{ok}
use guardtrak_api.Common.Tenant.{
  RequestUser, require_organisation_id, user_has_permission, tenant_not_found, attendance_review,
  attendance_approve, attendance_correct,
}
use guardtrak_api.Transitions.AttendanceStatus.{
  AttendanceStatus, attendance_transitions, assert_attendance_transition,
}
use guardtrak_api.Database.{Db, Attendance, AttendanceEventType, AuditNote}
use guardtrak_api.Environment.{Environment, Call}
use guardtrak_api.Breaks.Guards.{officer_of}
use guardtrak_api.Attendance.Lookup.{
  find_attendance_or_throw, assert_can_review_attendance, write_attendance, is_attendance,
  resolve_supervisor_profile_id, same_supervisor, supervisor_of, is_linked,
}
use guardtrak_api.Attendance.Review.{request_review, review, void_attendance}

-- What a handler that changes the status of an attendance has found and written.
pub record Changed (user : RequestUser) (now : ℕ) (id : ℕ) (next : AttendanceStatus) (db : Db)
    (result : Attendance) (db' : Db) : Type 0 where
  pub organisation_id : ℕ
  pub tenant : user.organisation_id ≡ some organisation_id
  pub attendance : Attendance
  pub found : find_first (is_attendance organisation_id id) db.attendances ≡ some attendance
  pub allowed : attendance_transitions attendance.status next ≡ true
  pub same_id : result.id ≡ attendance.id
  pub same_organisation : result.organisation_id ≡ attendance.organisation_id
  pub same_deleted : result.deleted_at ≡ attendance.deleted_at
  pub same_assignment : result.assignment_id ≡ attendance.assignment_id
  pub same_date : result.occurrence_date ≡ attendance.occurrence_date
  pub same_total : result.total_break_minutes ≡ attendance.total_break_minutes
  pub status : result.status ≡ next
  pub kind : AttendanceEventType
  pub reason : String
  pub note : AuditNote
  pub written : db' ≡ write_attendance user organisation_id now result kind reason note db

module _ (env : Environment) (call : Call) (user : RequestUser) where
  pub review-Changed :
      (id : ℕ) (reason : String) (next : AttendanceStatus) (event : AttendanceEventType) (db : Db)
      (result : Attendance) (db' : Db)
      → review env call user id reason next event db ≡ ok (result, db')
      → Changed user call.now id next db result db'
  unfolding review require_organisation_id find_attendance_or_throw tenant_not_found
      assert_attendance_transition
  review-Changed id reason next event db result db' h = elim (Option-cases user.organisation_id) [
    | inr (o, t) ↦ elim (Option-cases (find_first (is_attendance o id) db.attendances)) [
      | inr (a, e) ↦ record {
        organisation_id = o;
        tenant = t;
        attendance = a;
        found = e;
        allowed = ground arith;
        same_id = ground arith;
        same_organisation = ground arith;
        same_deleted = ground arith;
        same_assignment = ground arith;
        same_date = ground arith;
        same_total = ground arith;
        status = ground arith;
        kind = event;
        reason = env.trim reason;
        note = AuditNote.reviewed event;
        written = ground arith;
      }
      | inl e ↦ absurd (ground arith)
    ]
    | inl t ↦ absurd (ground arith)
  ]

  -- A review succeeds only for users with a permission to review or approve who may also correct
  -- attendances, or supervise the assignment, or are linked to its officer at the time; the
  -- attendance is one of their organisation.
  pub review_authorised :
      (id : ℕ) (reason : String) (next : AttendanceStatus) (event : AttendanceEventType) (db : Db)
      (result : Attendance) (db' : Db)
      → review env call user id reason next event db ≡ ok (result, db')
      → (o : ℕ) × (a : Attendance) × (user.organisation_id ≡ some o)
        × (find_first (is_attendance o id) db.attendances ≡ some a)
        × ((user_has_permission user attendance_review ≡ true)
            ⊎ (user_has_permission user attendance_approve ≡ true))
        × ((user_has_permission user attendance_correct ≡ true)
            ⊎ (same_supervisor (resolve_supervisor_profile_id db user o) (supervisor_of db a)
                ≡ true)
            ⊎ (is_linked call.now db o (resolve_supervisor_profile_id db user o) a.officer_id
                ≡ true))
  unfolding review require_organisation_id find_attendance_or_throw tenant_not_found
      assert_can_review_attendance
  review_authorised id reason next event db result db' h =
      let c = review-Changed id reason next event db result db' h in
      let t = c.tenant in
      let f = c.found in (c.organisation_id, c.attendance, t, f, ground arith, ground arith)

  pub request_review-Changed :
      (id : ℕ) (reason : String) (db : Db) (result : Attendance) (db' : Db)
      → request_review env call user id reason db ≡ ok (result, db')
      → Changed user call.now id AttendanceStatus.pending_supervisor_approval db result db'
  unfolding request_review officer_of require_organisation_id find_attendance_or_throw
      tenant_not_found assert_attendance_transition
  request_review-Changed id reason db result db' h = elim (Option-cases user.organisation_id) [
    | inr (o, t) ↦ elim (Option-cases (find_first (is_attendance o id) db.attendances)) [
      | inr (a, e) ↦ record {
        organisation_id = o;
        tenant = t;
        attendance = a;
        found = e;
        allowed = ground arith;
        same_id = ground arith;
        same_organisation = ground arith;
        same_deleted = ground arith;
        same_assignment = ground arith;
        same_date = ground arith;
        same_total = ground arith;
        status = ground arith;
        kind = AttendanceEventType.clock_out_review_requested;
        reason = env.trim reason;
        note = AuditNote.request_review;
        written = ground arith;
      }
      | inl e ↦ absurd (ground arith)
    ]
    | inl t ↦ absurd (ground arith)
  ]

  pub void-Changed :
      (id : ℕ) (reason : String) (db : Db) (result : Attendance) (db' : Db)
      → void_attendance env call user id reason db ≡ ok (result, db')
      → Changed user call.now id AttendanceStatus.voided db result db'
  unfolding void_attendance require_organisation_id find_attendance_or_throw tenant_not_found
      assert_attendance_transition
  void-Changed id reason db result db' h = elim (Option-cases user.organisation_id) [
    | inr (o, t) ↦ elim (Option-cases (find_first (is_attendance o id) db.attendances)) [
      | inr (a, e) ↦ record {
        organisation_id = o;
        tenant = t;
        attendance = a;
        found = e;
        allowed = ground arith;
        same_id = ground arith;
        same_organisation = ground arith;
        same_deleted = ground arith;
        same_assignment = ground arith;
        same_date = ground arith;
        same_total = ground arith;
        status = ground arith;
        kind = AttendanceEventType.voided;
        reason = env.trim reason;
        note = AuditNote.void;
        written = ground arith;
      }
      | inl e ↦ absurd (ground arith)
    ]
    | inl t ↦ absurd (ground arith)
  ]
