-- ===== src/Assignments/Reassign.antt =====
-- `reassign` of modules/assignments/assignments.service.ts.
use guardtrak_api.Prelude.{ℕ, true, Option, none, some, String, if◌then◌else◌}
use guardtrak_api.Errors.{
  Result, ok, ensure, ◌>>=◌, ◌>>◌, conflict_409, assignment_status_transition_invalid,
}
use guardtrak_api.Text.{append}
use guardtrak_api.Common.Tenant.{RequestUser, require_organisation_id, is_supervisor}
use guardtrak_api.Environment.{Environment, Call}
use guardtrak_api.Transitions.AssignmentStatus.{AssignmentStatus}
use guardtrak_api.Attendance.ClockIn.Perform.{is_waiting}
use guardtrak_api.Database.{Db, Assignment, AuditAction, AuditNote}
use guardtrak_api.Assignments.Access.{
  assert_can_read_assignment, assert_supervisor_may_manage_officer,
}
use guardtrak_api.Assignments.Checks.{
  load_assignable_shift, assert_officer_assignable, assert_supervisor_assignable,
  assert_no_duplicate, assert_no_overlap,
}
use guardtrak_api.Assignments.Create.{new_assignment, insert_assignment, record_audit}
use guardtrak_api.Assignments.Status.{find_assignment_or_throw, write_assignment}

pub record ReassignAssignmentDto : Type 0 where
  pub replacement_officer_id : ℕ
  pub supervisor_id : Option ℕ
  pub reason : String

-- The `data` of the original's update.
unfoldable pub replaced : ℕ → String → Assignment → Assignment
replaced now reason a = record a {
  status = AssignmentStatus.reassigned;
  cancelled_at = some now;
  cancellation_reason = some reason;
}

-- `dto.supervisorId ?? existing.supervisorId`
abbrev pub or_else : Option ℕ → Option ℕ → Option ℕ
or_else none fallback = fallback
or_else (some a) fallback = some a

-- A supervisor may reassign to their own officers only.
unfoldable pub assert_may_reassign : ℕ → Db → RequestUser → ℕ → ℕ → Result (Unit {0})
unfolding assert_supervisor_may_manage_officer
assert_may_reassign now db user organisation_id officer_id =
    if is_supervisor user
    then (do
      supervisor_id ← assert_supervisor_may_manage_officer now db user organisation_id officer_id
      ok tt)
    else ok tt

unfoldable pub replacement_of :
    Call → RequestUser → ℕ → ReassignAssignmentDto → Assignment → Assignment
unfolding new_assignment
replacement_of call user organisation_id dto existing =
    record (new_assignment user organisation_id call.new_id existing.shift_id
      dto.replacement_officer_id (or_else dto.supervisor_id existing.supervisor_id) none) {
        replaced_assignment_id = some existing.id;
      }

-- The writes of the transaction, and the audit entry.
unfoldable pub write_reassign :
    Environment → Call → RequestUser → ℕ → ReassignAssignmentDto → Assignment → Db → Db
unfolding replacement_of append record_audit insert_assignment write_assignment
write_reassign env call user organisation_id dto existing db =
    let why = env.trim dto.reason in
    let replacement = replacement_of call user organisation_id dto existing in
    record_audit user organisation_id AuditAction.update (some existing.id)
      (AuditNote.reassign replacement.id)
      (insert_assignment user (append "Reassigned from " (env.id_text existing.id)) replacement (
        write_assignment user existing (replaced call.now why) AssignmentStatus.reassigned
          (some why) db))

-- The original and its replacement.
unfoldable pub reassign :
    Environment
    → Call
    → RequestUser
    → ℕ
    → ReassignAssignmentDto
    → Db
    → Result ((Assignment × Assignment) × Db)
unfolding assert_may_reassign write_reassign replaced
reassign env call user id dto db = do
  organisation_id ← require_organisation_id user
  existing ← find_assignment_or_throw db organisation_id id
  assert_can_read_assignment call.now db user organisation_id existing
  assert_may_reassign call.now db user organisation_id dto.replacement_officer_id
  ensure (is_waiting existing.status) conflict_409 assignment_status_transition_invalid
  shift ← load_assignable_shift db organisation_id existing.shift_id true
  assert_officer_assignable db organisation_id dto.replacement_officer_id
  assert_supervisor_assignable db organisation_id (or_else dto.supervisor_id existing.supervisor_id)
  assert_no_duplicate db organisation_id existing.shift_id dto.replacement_officer_id
  assert_no_overlap env.intl db organisation_id dto.replacement_officer_id shift (some existing.id)
  ok (
    (
      replaced call.now (env.trim dto.reason) existing,
      replacement_of call user organisation_id dto existing,
    ),
    write_reassign env call user organisation_id dto existing db,
  )
