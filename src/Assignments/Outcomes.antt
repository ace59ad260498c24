-- ===== src/Assignments/Outcomes.antt =====
-- What a request on an assignment leaves of the tables when it succeeds.
use guardtrak_api.Prelude.{
  ℕ, true, false, not, ◌≡◌, sym, ap, none, some, find_first, Option-cases, inl, inr,
}
use guardtrak_api.Errors.{
  ok, step_ok, check_ok, then_ok, ok_eq, conflict_409, forbidden_403, auth_insufficient_permission,
  assignment_status_transition_invalid,
}
use guardtrak_api.Text.{trim_or_undefined}
use guardtrak_api.Common.Tenant.{RequestUser, require_organisation_id, is_supervisor}
use guardtrak_api.Environment.{Environment, Call}
use guardtrak_api.Database.{Db, Assignment, AuditAction, AuditNote}
use guardtrak_api.Attendance.ClockIn.Perform.{is_waiting}
use guardtrak_api.Assignments.Access.{assert_can_read_assignment}
use guardtrak_api.Assignments.Checks.{
  load_assignable_shift, assert_officer_assignable, assert_supervisor_assignable,
  assert_no_duplicate, assert_no_overlap,
}
use guardtrak_api.Assignments.Create.{
  CreateAssignmentDto, new_assignment, insert_assignment, record_audit, create,
}
use guardtrak_api.Assignments.Status.{find_assignment_or_throw, is_assignment_of}
use guardtrak_api.Assignments.Reassign.{
  ReassignAssignmentDto, replaced, or_else, assert_may_reassign, replacement_of, write_reassign,
  reassign,
}
use guardtrak_api.Assignments.Cleared.{Cleared, Cleared-of}

pub record Created (env : Environment) (call : Call) (user : RequestUser)
    (dto : CreateAssignmentDto) (db : Db) (result : Assignment) (db' : Db) : Type 0 where
  pub organisation_id : ℕ
  pub tenant : require_organisation_id user ≡ ok organisation_id
  pub cleared : Cleared env.intl db organisation_id dto.shift_id dto.officer_id false none
  pub employed : assert_officer_assignable db organisation_id dto.officer_id ≡ ok tt
  pub row :
      result
      ≡ new_assignment user organisation_id call.new_id dto.shift_id dto.officer_id
          dto.supervisor_id
          (trim_or_undefined env.trim dto.notes)
  pub written :
      db'
      ≡ record_audit user organisation_id AuditAction.create
          (some result.id)
          (AuditNote.assign result.shift_id result.officer_id result.supervisor_id)
          (insert_assignment user "Assignment created" result db)

pub create-Created :
    (env : Environment) (call : Call) (user : RequestUser) (dto : CreateAssignmentDto) (db : Db)
    (result : Assignment) (db' : Db)
    → create env call user dto db ≡ ok (result, db')
    → Created env call user dto db result db'
unfolding create
create-Created env call user dto db result db' h =
    let (o, e, h) = step_ok (require_organisation_id user) _ h in
    let (r, h) =
      check_ok (not (is_supervisor user)) forbidden_403 auth_insufficient_permission _ h in
    let (shift, l, h) = step_ok (load_assignable_shift db o dto.shift_id false) _ h in
    let (w, h) = then_ok (assert_officer_assignable db o dto.officer_id) _ h in
    let (s, h) = then_ok (assert_supervisor_assignable db o dto.supervisor_id) _ h in
    let (n, h) = then_ok (assert_no_duplicate db o dto.shift_id dto.officer_id) _ h in
    let (c, h) = then_ok (assert_no_overlap env.intl db o dto.officer_id shift none) _ h in
    let z = ok_eq h in
    record {
      organisation_id = o;
      tenant = e;
      cleared = Cleared-of env.intl db o dto.shift_id dto.officer_id false none shift l n c;
      employed = w;
      row = cc;
      written = let same = ap (λ p. p.0) z in rw (← same) (sym (ap (λ p. p.1) z));
    }

pub found_assignment :
    (db : Db) (o id : ℕ) (row : Assignment)
    → find_assignment_or_throw db o id ≡ ok row
    → find_first (is_assignment_of o id) db.assignments ≡ some row
unfolding find_assignment_or_throw
found_assignment db o id row h =
    elim (Option-cases (find_first (is_assignment_of o id) db.assignments)) [
      | inl e ↦ let f = (rw (e, find_assignment_or_throw) at h) in cc
      | inr (a, e) ↦
          let f : ok a ≡ ok row = (rw (e, find_assignment_or_throw) at h) in rw (← ok_eq f) e
    ]

pub record Replaced (env : Environment) (call : Call) (user : RequestUser) (id : ℕ)
    (dto : ReassignAssignmentDto) (db : Db) (result : Assignment × Assignment) (db' : Db)
    : Type 0 where
  pub organisation_id : ℕ
  pub existing : Assignment
  pub found : find_first (is_assignment_of organisation_id id) db.assignments ≡ some existing
  pub waiting : is_waiting existing.status ≡ true
  pub cleared :
      Cleared env.intl db organisation_id existing.shift_id dto.replacement_officer_id true
        (some existing.id)
  pub employed : assert_officer_assignable db organisation_id dto.replacement_officer_id ≡ ok tt
  pub permitted :
      assert_may_reassign call.now db user organisation_id dto.replacement_officer_id ≡ ok tt
  pub rows_of : result ≡ (
    replaced call.now (env.trim dto.reason) existing,
    replacement_of call user organisation_id dto existing,
  )
  pub written : db' ≡ write_reassign env call user organisation_id dto existing db

pub reassign-Replaced :
    (env : Environment) (call : Call) (user : RequestUser) (id : ℕ) (dto : ReassignAssignmentDto)
    (db : Db) (result : Assignment × Assignment) (db' : Db)
    → reassign env call user id dto db ≡ ok (result, db')
    → Replaced env call user id dto db result db'
unfolding reassign
reassign-Replaced env call user id dto db result db' h =
    let f = dto.replacement_officer_id in
    let (o, e, h) = step_ok (require_organisation_id user) _ h in
    let (existing, x, h) = step_ok (find_assignment_or_throw db o id) _ h in
    let (r, h) = then_ok (assert_can_read_assignment call.now db user o existing) _ h in
    let (p, h) = then_ok (assert_may_reassign call.now db user o f) _ h in
    let (t, h) =
      check_ok (is_waiting existing.status) conflict_409 assignment_status_transition_invalid _ h in
    let (shift, l, h) = step_ok (load_assignable_shift db o existing.shift_id true) _ h in
    let (w, h) = then_ok (assert_officer_assignable db o f) _ h in
    let (s, h) =
      then_ok (assert_supervisor_assignable db o (or_else dto.supervisor_id existing.supervisor_id))
        _ h in
    let (n, h) = then_ok (assert_no_duplicate db o existing.shift_id f) _ h in
    let (c, h) = then_ok (assert_no_overlap env.intl db o f shift (some existing.id)) _ h in
    let z = ok_eq h in
    record {
      organisation_id = o;
      existing = existing;
      found = found_assignment db o id existing x;
      waiting = t;
      cleared = Cleared-of env.intl db o existing.shift_id f true (some existing.id) shift l n c;
      employed = w;
      permitted = p;
      rows_of = sym (ap (λ q. q.0) z);
      written = sym (ap (λ q. q.1) z);
    }
