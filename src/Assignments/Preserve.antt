-- ===== src/Assignments/Preserve.antt =====
-- The requests of the assignment service and the invariant of Assignments/Invariant.
use guardtrak_api.Prelude.{
  ℕ, Bool, true, false, ◌≡◌, refl, arith, none, some, List, String, find_first, update_where,
  All-weaken, All-update_where, find_first-none-All, All-find_first-none,
}
use guardtrak_api.Errors.{ok}
use guardtrak_api.Text.{trim_or_undefined}
use guardtrak_api.Common.Tenant.{RequestUser}
use guardtrak_api.Environment.{Environment, Call}
use guardtrak_api.Transitions.AssignmentStatus.{active_assignment_statuses}
use guardtrak_api.Database.{Db, Assignment, Shift}
use guardtrak_api.Attendance.Presence.{has_assignment_id}
use guardtrak_api.Assignments.Checks.{is_active_for, is_ignored}
use guardtrak_api.Assignments.Create.{
  CreateAssignmentDto, new_assignment, insert_assignment, record_audit, create,
}
use guardtrak_api.Assignments.Reassign.{
  ReassignAssignmentDto, replaced, replacement_of, write_reassign, reassign,
}
use guardtrak_api.Assignments.Status.{write_assignment}
use guardtrak_api.Assignments.Invariant.{
  Sound, double_booked, update-Sound, insert-Sound, found_by_id,
}
use guardtrak_api.Assignments.Cleared.{Cleared-apart}
use guardtrak_api.Assignments.Outcomes.{create-Created, reassign-Replaced}
use guardtrak_api.Assignments.Moves.{Moved, replaced-Settles}

pub Moved-Sound :
    (id : ℕ) (db db' : Db)
    → Moved id db db'
    → Sound db.shifts db.assignments
    → Sound db'.shifts db'.assignments
Moved-Sound id db db' m v =
    let a = m.existing in
    rw (m.same_shifts, m.rows)
      (update-Sound db.shifts db.assignments a m.change
        (found_by_id m.organisation_id id db.assignments a (v.distinct a.id) m.found) m.settles v)

pub create-Sound :
    (env : Environment) (call : Call) (user : RequestUser) (dto : CreateAssignmentDto) (db : Db)
    (result : Assignment) (db' : Db)
    → find_first (has_assignment_id call.new_id) db.assignments ≡ none
    → create env call user dto db ≡ ok (result, db')
    → Sound db.shifts db.assignments
    → Sound db'.shifts db'.assignments
unfolding new_assignment insert_assignment record_audit
create-Sound env call user dto db result db' fresh h v =
    let c = create-Created env call user dto db result db' h in
    let o = c.organisation_id in
    let new =
      new_assignment user o call.new_id dto.shift_id dto.officer_id dto.supervisor_id
        (trim_or_undefined env.trim dto.notes) in
    rw (c.written, c.row)
      (insert-Sound db.shifts db.assignments new fresh c.cleared.no_duplicate
        (All-weaken (λ a. is_ignored none a ≡ false → double_booked db.shifts new a ≡ false)
          (λ a. double_booked db.shifts new a ≡ false) (λ a f. f refl) db.assignments
          (Cleared-apart env.intl db o dto.shift_id dto.officer_id false none new v.distinct_shifts
            c.cleared refl refl refl))
        v)

module _ (now : ℕ) (why : String) where
  replaced_apart :
      (shifts : List Shift) (new r : Assignment)
      → double_booked shifts new (replaced now why r) ≡ false
  unfolding replaced double_booked active_assignment_statuses
  replaced_apart shifts new r = ground arith

  replaced_free : (o s f : ℕ) (r : Assignment) → is_active_for o s f (replaced now why r) ≡ false
  unfolding replaced is_active_for active_assignment_statuses
  replaced_free o s f r = ground arith

  replaced_id :
      (i : ℕ) (r : Assignment) → has_assignment_id i (replaced now why r) ≡ has_assignment_id i r
  unfolding replaced
  replaced_id i r = refl

  -- A query that no row fits, and that fits no replaced row, still finds nothing.
  still_none :
      (p : Assignment → Bool) (where_ : Assignment → Bool) (rows : List Assignment)
      → ((r : Assignment) → p r ≡ false → p (replaced now why r) ≡ false)
      → find_first p rows ≡ none
      → find_first p (update_where where_ (replaced now why) rows) ≡ none
  still_none p where_ rows keep h = All-find_first-none p _ (
      All-update_where (λ r. p r ≡ false) (λ r. p r ≡ false) where_ (replaced now why)
        (λ r m e. keep r m) (λ r m e. m) rows (find_first-none-All p rows h))

pub reassign-Sound :
    (env : Environment) (call : Call) (user : RequestUser) (id : ℕ) (dto : ReassignAssignmentDto)
    (db : Db) (result : Assignment × Assignment) (db' : Db)
    → find_first (has_assignment_id call.new_id) db.assignments ≡ none
    → reassign env call user id dto db ≡ ok (result, db')
    → Sound db.shifts db.assignments
    → Sound db'.shifts db'.assignments
unfolding write_reassign replacement_of new_assignment insert_assignment record_audit
    write_assignment
reassign-Sound env call user id dto db result db' fresh h v =
    let c = reassign-Replaced env call user id dto db result db' h in
    let o = c.organisation_id in
    let a = c.existing in
    let f = dto.replacement_officer_id in
    let why = env.trim dto.reason in
    let rows = update_where (has_assignment_id a.id) (replaced call.now why) db.assignments in
    let new = replacement_of call user o dto a in
    let settled =
      update-Sound db.shifts db.assignments a (replaced call.now why)
        (found_by_id o id db.assignments a (v.distinct a.id) c.found)
        (replaced-Settles call.now why a) v in
    let apart =
      All-update_where
        (λ r. is_ignored (some a.id) r ≡ false → double_booked db.shifts new r ≡ false)
        (λ r. double_booked db.shifts new r ≡ false) (has_assignment_id a.id)
        (replaced call.now why) (λ r m e. replaced_apart call.now why db.shifts new r)
        (λ r m e. m e) db.assignments
        (Cleared-apart env.intl db o a.shift_id f true (some a.id) new v.distinct_shifts c.cleared
          refl refl refl) in
    rw (c.written) (
      insert-Sound db.shifts rows new
        (still_none call.now why (has_assignment_id call.new_id) (has_assignment_id a.id)
          db.assignments (λ r m. rw (replaced_id call.now why call.new_id r) m) fresh)
        (still_none call.now why (is_active_for o a.shift_id f) (has_assignment_id a.id)
          db.assignments (λ r m. replaced_free call.now why o a.shift_id f r)
          c.cleared.no_duplicate)
        apart settled)
