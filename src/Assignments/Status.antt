-- ===== src/Assignments/Status.antt =====
-- `findAssignmentOrThrow`, `updateStatus`, `confirm` and `cancel` of
-- modules/assignments/assignments.service.ts.
use guardtrak_api.Prelude.{
  ℕ, Bool, true, false, ◌&&◌, not, Option, none, some, ◌∷◌, ◌==◌, String, find_first, update_where,
  if◌then◌else◌,
}
use guardtrak_api.Errors.{
  Result, ok, ensure, ◌>>=◌, ◌>>◌, conflict_409, assignment_not_found,
  assignment_status_transition_invalid,
}
use guardtrak_api.Text.{trim_or_undefined}
use guardtrak_api.Common.Tenant.{RequestUser, require_organisation_id, tenant_not_found}
use guardtrak_api.Environment.{Environment, Call}
use guardtrak_api.Transitions.AssignmentStatus.{AssignmentStatus, assert_assignment_transition}
use guardtrak_api.Database.{Db, Assignment, AuditAction, AuditNote}
use guardtrak_api.Breaks.Guards.{resolve_officer_profile_id}
use guardtrak_api.Attendance.Presence.{has_assignment_id}
use guardtrak_api.Assignments.Access.{assert_can_read_assignment}
use guardtrak_api.Assignments.Create.{record_audit}

abbrev pub is_assignment_of : ℕ → ℕ → Assignment → Bool
is_assignment_of organisation_id id a = a.id == id && a.organisation_id == organisation_id

unfoldable pub find_assignment_or_throw : Db → ℕ → ℕ → Result Assignment
unfolding tenant_not_found
find_assignment_or_throw db organisation_id id =
    elim (find_first (is_assignment_of organisation_id id) db.assignments) [
      | none ↦ tenant_not_found assignment_not_found
      | some assignment ↦ ok assignment
    ]

-- The `data` of the update: the status, and the columns that go with it.
unfoldable pub moved : ℕ → Option String → AssignmentStatus → Assignment → Assignment
moved now reason AssignmentStatus.confirmed a = record a {
  status = AssignmentStatus.confirmed;
  confirmed_at = some now;
}
moved now reason AssignmentStatus.in_progress a = record a {
  status = AssignmentStatus.in_progress;
  started_at = some now;
}
moved now reason AssignmentStatus.completed a = record a {
  status = AssignmentStatus.completed;
  completed_at = some now;
}
moved now reason AssignmentStatus.cancelled a = record a {
  status = AssignmentStatus.cancelled;
  cancelled_at = some now;
  cancellation_reason = reason;
}
moved now reason AssignmentStatus.missed a = record a {
  status = AssignmentStatus.missed;
  cancelled_at = some now;
  cancellation_reason = reason;
}
moved now reason AssignmentStatus.assigned a = record a { status = AssignmentStatus.assigned }
moved now reason AssignmentStatus.reassigned a = record a { status = AssignmentStatus.reassigned }

-- `assignment.update` by its identifier, and `assignmentEvent.create`.
unfoldable pub write_assignment :
    RequestUser
    → Assignment
    → (Assignment → Assignment)
    → AssignmentStatus
    → Option String
    → Db
    → Db
write_assignment user existing change new_status reason db = record db {
  assignments = update_where (has_assignment_id existing.id) change db.assignments;
  assignment_events =
      record {
        assignment_id = existing.id;
        actor_user_id = user.id;
        previous_status = some existing.status;
        new_status = new_status;
        reason = reason;
      }
      ∷ db.assignment_events;
}

unfoldable pub update_assignment_status :
    Environment
    → Call
    → RequestUser
    → ℕ
    → AssignmentStatus
    → Option String
    → Db
    → Result (Assignment × Db)
unfolding trim_or_undefined
update_assignment_status env call user id status reason db = do
  organisation_id ← require_organisation_id user
  existing ← find_assignment_or_throw db organisation_id id
  assert_can_read_assignment call.now db user organisation_id existing
  assert_assignment_transition existing.status status
  let why = trim_or_undefined env.trim reason
  ok (
    moved call.now why status existing,
    record_audit user organisation_id AuditAction.update (some existing.id)
        (AuditNote.assignment_status existing.status status)
        (write_assignment user existing (moved call.now why status) status why db),
  )

abbrev pub is_assigned : AssignmentStatus → Bool
is_assigned AssignmentStatus.assigned = true
is_assigned _ = false

unfoldable pub confirm : Call → RequestUser → ℕ → Db → Result (Assignment × Db)
confirm call user id db = do
  organisation_id ← require_organisation_id user
  officer_id ← resolve_officer_profile_id db user organisation_id
  existing ← find_assignment_or_throw db organisation_id id
  (if existing.officer_id == officer_id then ok tt else tenant_not_found assignment_not_found)
  ensure (is_assigned existing.status) conflict_409 assignment_status_transition_invalid
  let change = moved call.now none AssignmentStatus.confirmed
  ok (
    change existing,
    record_audit user organisation_id AuditAction.update (some existing.id)
        AuditNote.confirm_assignment
        (write_assignment user existing change AssignmentStatus.confirmed
          (some "Officer confirmed assignment") db),
  )

-- IN_PROGRESS or COMPLETED.
abbrev pub has_started : AssignmentStatus → Bool
has_started AssignmentStatus.in_progress = true
has_started AssignmentStatus.completed = true
has_started _ = false

-- CANCELLED, REASSIGNED or MISSED.
abbrev pub has_ended : AssignmentStatus → Bool
has_ended AssignmentStatus.cancelled = true
has_ended AssignmentStatus.reassigned = true
has_ended AssignmentStatus.missed = true
has_ended _ = false

unfoldable pub write_cancelled : Call → RequestUser → ℕ → Assignment → Db → Db
unfolding record_audit write_assignment
write_cancelled call user organisation_id existing db =
    let why = some "Cancelled by administrator" in
    record_audit user organisation_id AuditAction.delete (some existing.id) AuditNote.soft_cancel (
      write_assignment user existing (moved call.now why AssignmentStatus.cancelled)
        AssignmentStatus.cancelled why db)

-- It returns nothing but the tables.
unfoldable pub cancel_assignment : Call → RequestUser → ℕ → Db → Result Db
unfolding write_cancelled
cancel_assignment call user id db = do
  organisation_id ← require_organisation_id user
  existing ← find_assignment_or_throw db organisation_id id
  assert_can_read_assignment call.now db user organisation_id existing
  ensure (not (has_started existing.status)) conflict_409 assignment_status_transition_invalid
  (if has_ended existing.status
      then ok db
      else (assert_assignment_transition existing.status AssignmentStatus.cancelled
          >> ok (write_cancelled call user organisation_id existing db)))
