-- ===== src/Attendance/Lookup.antt =====
-- What the handlers of modules/attendance/attendance.service.ts share: `findAttendanceOrThrow`,
-- `assertCanReviewAttendance`, and the transaction that updates an attendance and records an event.
use guardtrak_api.Prelude.{
  ℕ, Bool, true, false, ◌&&◌, not, Option, none, some, ◌∷◌, ◌==◌, ltb, is_some, String, find_first,
  update_where, if◌then◌else◌,
}
use guardtrak_api.Errors.{
  Result, ok, ensure, forbidden_403, attendance_not_found, attendance_review_forbidden,
}
use guardtrak_api.Common.Tenant.{
  RequestUser, user_has_permission, tenant_not_found, attendance_correct,
}
use guardtrak_api.Database.{
  Db, Attendance, AttendanceEventType, Profile, SupervisorOfficer, AuditAction, AuditNote,
}

-- `where: { id, organisationId, deletedAt: null }`
abbrev pub is_attendance : ℕ → ℕ → Attendance → Bool
is_attendance organisation_id id a =
    a.id == id && a.organisation_id == organisation_id && not (is_some a.deleted_at)

unfoldable pub find_attendance_or_throw : Db → ℕ → ℕ → Result Attendance
unfolding tenant_not_found
find_attendance_or_throw db organisation_id id =
    elim (find_first (is_attendance organisation_id id) db.attendances) [
      | none ↦ tenant_not_found attendance_not_found
      | some attendance ↦ ok attendance
    ]

abbrev id_of : Option Profile → Option ℕ
id_of none = none
id_of (some p) = some p.id

-- `resolveSupervisorProfileId` of modules/assignments/assignment-access.service.ts
unfoldable pub resolve_supervisor_profile_id : Db → RequestUser → ℕ → Option ℕ
resolve_supervisor_profile_id db user organisation_id = id_of (
    find_first
      (λ p.
        p.user_id == user.id && p.organisation_id == organisation_id && not (is_some p.deleted_at))
      db.supervisors)

-- `activeUntil` is null or later than now.
abbrev pub still_active : Option ℕ → ℕ → Bool
still_active none now = true
still_active (some until) now = ltb now until

abbrev pub links : ℕ → ℕ → ℕ → ℕ → SupervisorOfficer → Bool
links now organisation_id supervisor_id officer_id l =
    l.supervisor_id == supervisor_id
    && (l.officer_id == officer_id
        && (l.organisation_id == organisation_id && still_active l.active_until now))

-- `supervisorId === attendance.assignment.supervisorId`, where both are there.
abbrev pub same_supervisor : Option ℕ → Option ℕ → Bool
same_supervisor (some a) (some b) = a == b
same_supervisor _ _ = false

unfoldable pub is_linked : ℕ → Db → ℕ → Option ℕ → ℕ → Bool
is_linked now db organisation_id none officer_id = false
is_linked now db organisation_id (some supervisor_id) officer_id =
    is_some (find_first (links now organisation_id supervisor_id officer_id) db.supervisor_officers)

-- `attendance.assignment.supervisorId`
unfoldable pub supervisor_of : Db → Attendance → Option ℕ
supervisor_of db attendance =
    elim (find_first (λ a. a.id == attendance.assignment_id) db.assignments) [
      | none ↦ none
      | some assignment ↦ assignment.supervisor_id
    ]

unfoldable pub assert_can_review_attendance :
    ℕ → Db → RequestUser → ℕ → Attendance → Result (Unit {0})
assert_can_review_attendance now db user organisation_id attendance =
    let supervisor_id = resolve_supervisor_profile_id db user organisation_id in
    if user_has_permission user attendance_correct
    then ok tt
    else if same_supervisor supervisor_id (supervisor_of db attendance)
    then ok tt
    else ensure (is_linked now db organisation_id supervisor_id attendance.officer_id) forbidden_403
        attendance_review_forbidden

-- `attendance.update`, `attendanceEvent.create`, and the audit entry after the transaction.
unfoldable pub write_attendance :
    RequestUser → ℕ → ℕ → Attendance → AttendanceEventType → String → AuditNote → Db → Db
write_attendance user organisation_id now new kind reason note db = record db {
  attendances = update_where (λ a. a.id == new.id) (λ a. new) db.attendances;
  events =
      record {
        organisation_id = organisation_id;
        attendance_id = new.id;
        kind = kind;
        actor_user_id = user.id;
        device_id = none;
        device_timestamp = none;
        server_timestamp = now;
        position = none;
        reason = some reason;
      }
      ∷ db.events;
  audit_logs =
      record {
        organisation_id = organisation_id;
        actor_user_id = user.id;
        action = AuditAction.update;
        entity_id = some new.id;
        note = note;
      }
      ∷ db.audit_logs;
}
