-- ===== src/Assignments/Cover.antt =====
-- Reassigning, and how many guards a shift has.
use guardtrak_api.Prelude.{
  ℕ, Bool, ◌&&◌, ◌≡◌, arith, ◌==◌, total, indicator, find_first-holds, total-update_where,
}
use guardtrak_api.Errors.{ok}
use guardtrak_api.Common.Tenant.{RequestUser}
use guardtrak_api.Environment.{Environment, Call}
use guardtrak_api.Database.{Db, Assignment}
use guardtrak_api.Transitions.AssignmentStatus.{active_assignment_statuses}
use guardtrak_api.Attendance.Presence.{has_assignment_id}
use guardtrak_api.Assignments.Create.{new_assignment, insert_assignment, record_audit}
use guardtrak_api.Assignments.Status.{is_assignment_of, write_assignment}
use guardtrak_api.Assignments.Reassign.{
  ReassignAssignmentDto, replaced, replacement_of, write_reassign, reassign,
}
use guardtrak_api.Assignments.Invariant.{Sound, found_by_id}
use guardtrak_api.Assignments.Outcomes.{reassign-Replaced}

-- The active assignments for a shift.
unfoldable pub covers : ℕ → ℕ → Assignment → Bool
covers o shift_id a =
    a.organisation_id == o && (a.shift_id == shift_id && active_assignment_statuses a.status)

-- A reassignment that succeeds changes for no shift the number of its active assignments, if
-- assignments have distinct identifiers and are otherwise as the invariant says.
pub reassign_keeps_cover :
    (env : Environment) (call : Call) (user : RequestUser) (id : ℕ) (dto : ReassignAssignmentDto)
    (db : Db) (rows : Assignment × Assignment) (db' : Db) (o shift_id : ℕ)
    → Sound db.shifts db.assignments
    → reassign env call user id dto db ≡ ok (rows, db')
    → total (indicator (covers o shift_id)) db'.assignments
      ≡ total (indicator (covers o shift_id)) db.assignments
unfolding write_reassign replacement_of new_assignment insert_assignment record_audit
    write_assignment total covers replaced active_assignment_statuses
reassign_keeps_cover env call user id dto db rows db' o shift_id v h =
    let c = reassign-Replaced env call user id dto db rows db' h in
    let a = c.existing in
    let w = c.waiting in
    let own : a.organisation_id ≡ c.organisation_id =
      (let q = find_first-holds (is_assignment_of c.organisation_id id) db.assignments a c.found in
        ground arith) in
    let t =
      total-update_where (indicator (covers o shift_id)) (has_assignment_id a.id)
        (replaced call.now (env.trim dto.reason)) db.assignments a (v.distinct a.id)
        (found_by_id c.organisation_id id db.assignments a (v.distinct a.id) c.found) in
    rw (c.written) (ground arith)
