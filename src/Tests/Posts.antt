-- ===== src/Tests/Posts.antt =====
-- The assignments of one post: a second officer joins, a batch comes in, and one is replaced.
use guardtrak_api.Prelude.{◌+◌, ◌≡◌, refl, arith, none, some, [], ◌∷◌, total, indicator, find_first}
use guardtrak_api.Errors.{ok}
use guardtrak_api.Common.Tenant.{
  RequestUser, UserRole, assignment_read, require_organisation_id, is_supervisor,
  user_has_permission,
}
use guardtrak_api.Transitions.AssignmentStatus.{active_assignment_statuses}
use guardtrak_api.Transitions.AttendanceStatus.{AttendanceStatus}
use guardtrak_api.Database.{Db, Assignment, AuditAction, AuditNote}
use guardtrak_api.Attendance.Presence.{has_assignment_id}
use guardtrak_api.Assignments.Checks.{
  is_active_for, load_assignable_shift, assert_officer_assignable, assert_no_duplicate,
  assert_no_overlap, assert_supervisor_assignable, conflicts,
}
use guardtrak_api.Assignments.Access.{assert_can_read_assignment}
use guardtrak_api.Assignments.Status.{find_assignment_or_throw}
use guardtrak_api.Assignments.Create.{
  CreateAssignmentDto, BatchCreateAssignmentsDto, new_assignment, insert_assignment, record_audit,
  create, create_batch,
}
use guardtrak_api.Assignments.Reassign.{
  ReassignAssignmentDto, reassign, replaced, replacement_of, write_reassign,
}
use guardtrak_api.Assignments.Batch.{create_each, create_batch-create_each}
use guardtrak_api.Assignments.Invariant.{Sound}
use guardtrak_api.Assignments.Opened.{Opened}
use guardtrak_api.Assignments.Cover.{covers, reassign_keeps_cover}
use guardtrak_api.Histories.Bookings.{here, next, created, Reach-Sound}
use guardtrak_api.Tests.{test_env, call_at, duty, guard, db_with}

abbrev admin : RequestUser
admin = record {
  id = 3;
  role = UserRole.administrator;
  organisation_id = some 10;
  device_id = none;
  permissions = assignment_read ∷ [];
}

-- The post with three officers, one of them on duty.
abbrev post_db : Db
post_db = record (db_with AttendanceStatus.supervisor_approved) {
  officers =
      guard ∷ record guard { id = 21; user_id = 4 } ∷ record guard { id = 22; user_id = 5 } ∷ [];
}

abbrev join_dto : CreateAssignmentDto
join_dto = record { shift_id = 30; officer_id = 21; supervisor_id = none; notes = none }

abbrev second : Assignment
second = new_assignment admin 10 50 30 21 none none

abbrev joined : Db
joined =
    record_audit admin 10 AuditAction.create (some 50) (AuditNote.assign 30 21 none)
      (insert_assignment admin "Assignment created" second post_db)

post-Sound : Sound post_db.shifts post_db.assignments
unfolding total is_active_for active_assignment_statuses
post-Sound = record {
  distinct = λ i. ground arith;
  one_active = λ o s f. ground arith;
  distinct_shifts = λ i. ground arith;
  not_double = (tt, tt);
}

join_works : create test_env (call_at 60000) admin join_dto post_db ≡ ok (second, joined)
unfolding create new_assignment insert_assignment record_audit require_organisation_id is_supervisor
    load_assignable_shift find_first assert_officer_assignable assert_no_duplicate assert_no_overlap
    assert_supervisor_assignable is_active_for conflicts
join_works = refl

not_used : find_first (has_assignment_id 50) post_db.assignments ≡ none
unfolding find_first
not_used = refl

Reach-Sound_example : Sound joined.shifts joined.assignments
Reach-Sound_example =
    Reach-Sound (next here (created (call_at 60000) admin join_dto second not_used join_works))
      post-Sound

abbrev batch_dto : BatchCreateAssignmentsDto
batch_dto = record { shift_id = 30; officer_ids = 21 ∷ 22 ∷ 21 ∷ []; supervisor_id = none }

create_batch-create_each_example :
    create_batch test_env (λ f. f + 100) admin batch_dto post_db
    ≡ create_each test_env (λ f. f + 100) admin batch_dto post_db
create_batch-create_each_example =
    create_batch-create_each test_env (λ f. f + 100) admin batch_dto post_db

abbrev swap_dto : ReassignAssignmentDto
swap_dto = record { replacement_officer_id = 22; supervisor_id = none; reason = "Ill" }

abbrev swapped : Db
swapped = write_reassign test_env (call_at 60000) admin 10 swap_dto duty post_db

swap_works :
    reassign test_env (call_at 60000) admin 40 swap_dto post_db
    ≡ ok (
      (replaced 60000 "Ill" duty, replacement_of (call_at 60000) admin 10 swap_dto duty),
      swapped,
    )
unfolding reassign require_organisation_id find_assignment_or_throw find_first is_supervisor
    load_assignable_shift assert_officer_assignable assert_no_duplicate assert_no_overlap
    assert_can_read_assignment user_has_permission assert_supervisor_assignable is_active_for
    conflicts
swap_works = refl

reassign_keeps_cover_example :
    total (indicator (covers 10 30)) swapped.assignments
    ≡ total (indicator (covers 10 30)) post_db.assignments
reassign_keeps_cover_example =
    reassign_keeps_cover test_env (call_at 60000) admin 40 swap_dto post_db
      (replaced 60000 "Ill" duty, replacement_of (call_at 60000) admin 10 swap_dto duty) swapped 10
      30 post-Sound swap_works
