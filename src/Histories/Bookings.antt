-- ===== src/Histories/Bookings.antt =====
-- Sequences of requests that make, move and end assignments, with the clocking in and out that does so
-- too, against the invariant of Assignments/Invariant. A request that fails returns no tables.
use guardtrak_api.Prelude.{ℕ, ◌≡◌, Option, none, List, find_first, String, inl, inr, ◌⊎◌}
use guardtrak_api.Errors.{ok}
use guardtrak_api.Common.Tenant.{RequestUser}
use guardtrak_api.Environment.{Environment, Call}
use guardtrak_api.Database.{Db, Attendance, Assignment}
use guardtrak_api.Transitions.AssignmentStatus.{AssignmentStatus}
use guardtrak_api.Attendance.Presence.{has_assignment_id}
use guardtrak_api.Attendance.ClockIn.{ClockInDto}
use guardtrak_api.Attendance.ClockIn.Perform.{perform_clock_in}
use guardtrak_api.Attendance.ClockOut.{ClockOutDto}
use guardtrak_api.Attendance.ClockOut.Perform.{perform_clock_out}
use guardtrak_api.Assignments.Create.{
  CreateAssignmentDto, BatchCreateAssignmentsDto, create, create_batch,
}
use guardtrak_api.Assignments.Status.{update_assignment_status, confirm, cancel_assignment}
use guardtrak_api.Assignments.Reassign.{ReassignAssignmentDto, reassign}
use guardtrak_api.Assignments.Invariant.{Sound}
use guardtrak_api.Assignments.Moves.{
  Moved, update_assignment_status-Moved, confirm-Moved, cancel-Moved,
}
use guardtrak_api.Assignments.Preserve.{Moved-Sound, create-Sound, reassign-Sound}
use guardtrak_api.Assignments.Batch.Rows.{Fresh, create_batch-Sound}
use guardtrak_api.Assignments.Clocking.{clock_in-Sound, clock_out-Sound}

-- One request that succeeds. A new assignment gets an identifier that is not in use.
pub data Step (env : Environment) (db db' : Db) : Type 0 where
  created :
      (call : Call) (user : RequestUser) (dto : CreateAssignmentDto) (a : Assignment)
      → find_first (has_assignment_id call.new_id) db.assignments ≡ none
      → create env call user dto db ≡ ok (a, db')
      → Step env db db'
  batch_created :
      (new_ids : ℕ → ℕ) (user : RequestUser) (dto : BatchCreateAssignmentsDto)
      (rows : List Assignment)
      → Fresh new_ids db.assignments
      → create_batch env new_ids user dto db ≡ ok (rows, db')
      → Step env db db'
  status_updated :
      (call : Call) (user : RequestUser) (id : ℕ) (to : AssignmentStatus) (reason : Option String)
      (a : Assignment)
      → update_assignment_status env call user id to reason db ≡ ok (a, db')
      → Step env db db'
  was_confirmed :
      (call : Call) (user : RequestUser) (id : ℕ) (a : Assignment)
      → confirm call user id db ≡ ok (a, db')
      → Step env db db'
  was_cancelled :
      (call : Call) (user : RequestUser) (id : ℕ)
      → cancel_assignment call user id db ≡ ok db'
      → Step env db db'
  was_reassigned :
      (call : Call) (user : RequestUser) (id : ℕ) (dto : ReassignAssignmentDto)
      (rows : Assignment × Assignment)
      → find_first (has_assignment_id call.new_id) db.assignments ≡ none
      → reassign env call user id dto db ≡ ok (rows, db')
      → Step env db db'
  clocked_in :
      (call : Call) (user : RequestUser) (o f : ℕ) (dto : ClockInDto) (a : Attendance)
      → perform_clock_in env call user o f dto db ≡ ok (a, db')
      → Step env db db'
  clocked_out :
      (call : Call) (user : RequestUser) (o f : ℕ) (dto : ClockOutDto) (a : Attendance)
      → perform_clock_out env call user o f dto db ≡ ok (a, db')
      → Step env db db'

Moved-or_same :
    (id : ℕ) (db db' : Db)
    → (db ≡ db') ⊎ Moved id db db'
    → Sound db.shifts db.assignments
    → Sound db'.shifts db'.assignments
Moved-or_same id db db' (inl e) v = rw (← e) v
Moved-or_same id db db' (inr m) v = Moved-Sound id db db' m v

Step-Sound :
    (env : Environment) (db db' : Db)
    → Step env db db'
    → Sound db.shifts db.assignments
    → Sound db'.shifts db'.assignments
Step-Sound env db db' (created call user dto a fresh h) v =
    create-Sound env call user dto db a db' fresh h v
Step-Sound env db db' (batch_created new_ids user dto rows fresh h) v =
    create_batch-Sound env new_ids user dto db rows db' fresh h v
Step-Sound env db db' (status_updated call user id to reason a h) v =
    Moved-Sound id db db' (update_assignment_status-Moved env call user id to reason db a db' h) v
Step-Sound env db db' (was_confirmed call user id a h) v =
    Moved-Sound id db db' (confirm-Moved call user id db a db' h) v
Step-Sound env db db' (was_cancelled call user id h) v =
    Moved-or_same id db db' (cancel-Moved call user id db db' h) v
Step-Sound env db db' (was_reassigned call user id dto rows fresh h) v =
    reassign-Sound env call user id dto db rows db' fresh h v
Step-Sound env db db' (clocked_in call user o f dto a h) v =
    clock_in-Sound env call user o f dto db a db' h v
Step-Sound env db db' (clocked_out call user o f dto a h) v =
    clock_out-Sound env call user o f dto db a db' h v

-- Any number of requests, by any users, in any order.
pub data Reach (env : Environment) (db : Db) : Db → Type 0 where
  here : Reach env db db
  next : {db' db'' : Db} → Reach env db db' → Step env db' db'' → Reach env db db''

-- After any sequence of successful requests, one after the other, that create assignments singly or
-- in a batch, change their status, confirm, cancel and reassign them, and that clock in and out,
-- where a new assignment gets an identifier that is not in use, assignments have distinct
-- identifiers, an officer has at most one active assignment for a shift, and no two active
-- assignments of an officer are for one-off shifts, both not deleted, at overlapping times, if this
-- held at the beginning and shifts have distinct identifiers.
pub Reach-Sound :
    {env : Environment} {db db' : Db}
    → Reach env db db'
    → Sound db.shifts db.assignments
    → Sound db'.shifts db'.assignments
Reach-Sound here v = v
Reach-Sound (next r s) v = Step-Sound _ _ _ s (Reach-Sound r v)
