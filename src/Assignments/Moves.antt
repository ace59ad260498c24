-- ===== src/Assignments/Moves.antt =====
-- Requests that change one assignment: what they leave of the tables when they succeed.
use guardtrak_api.Prelude.{
  ℕ, Bool, true, false, not, ◌≡◌, refl, sym, ap, arith, Option, none, some, ◌==◌, String,
  find_first, update_where, Bool-cases, inl, inr, ◌⊎◌, ◌==◌, if◌then◌else◌,
}
use guardtrak_api.Errors.{
  Result, ok, ◌>>◌, step_ok, check_ok, then_ok, ok_eq, conflict_409,
  assignment_status_transition_invalid, assignment_not_found,
}
use guardtrak_api.Text.{trim_or_undefined}
use guardtrak_api.Common.Tenant.{RequestUser, require_organisation_id, tenant_not_found}
use guardtrak_api.Environment.{Environment, Call}
use guardtrak_api.Transitions.AssignmentStatus.{
  AssignmentStatus, assignment_transitions, active_assignment_statuses,
  assert_assignment_transition,
}
use guardtrak_api.Transitions.AssignmentStatus.Laws.{assignment_active_iff}
use guardtrak_api.Database.{Db, Assignment}
use guardtrak_api.Breaks.Guards.{resolve_officer_profile_id}
use guardtrak_api.Attendance.Presence.{has_assignment_id}
use guardtrak_api.Assignments.Access.{assert_can_read_assignment}
use guardtrak_api.Assignments.Create.{record_audit}
use guardtrak_api.Assignments.Status.{
  find_assignment_or_throw, is_assignment_of, moved, write_assignment, update_assignment_status,
  is_assigned, confirm, has_started, has_ended, write_cancelled, cancel_assignment,
}
use guardtrak_api.Assignments.Reassign.{replaced}
use guardtrak_api.Assignments.Invariant.{Settles}
use guardtrak_api.Assignments.Outcomes.{found_assignment}

pub moved-Settles :
    (now : ℕ) (why : Option String) (to : AssignmentStatus) (a : Assignment)
    → active_assignment_statuses a.status ≡ true
    → Settles a (moved now why to a)
unfolding moved
moved-Settles now why to a h = record {
  same_id = ground arith;
  same_organisation = ground arith;
  same_shift = ground arith;
  same_officer = ground arith;
  same_flag = ground arith;
  activates_nothing = λ e. h;
}

pub replaced-Settles : (now : ℕ) (why : String) (a : Assignment) → Settles a (replaced now why a)
unfolding replaced active_assignment_statuses
replaced-Settles now why a = record {
  same_id = refl;
  same_organisation = refl;
  same_shift = refl;
  same_officer = refl;
  same_flag = refl;
  activates_nothing = λ e. cc;
}

-- One row that is found, and a change that settles it.
pub record Moved (id : ℕ) (db : Db) (db' : Db) : Type 0 where
  pub organisation_id : ℕ
  pub existing : Assignment
  pub found : find_first (is_assignment_of organisation_id id) db.assignments ≡ some existing
  pub change : Assignment → Assignment
  pub settles : Settles existing (change existing)
  pub rows : db'.assignments ≡ update_where (has_assignment_id existing.id) change db.assignments
  pub same_shifts : db'.shifts ≡ db.shifts

pub update_assignment_status-Moved :
    (env : Environment) (call : Call) (user : RequestUser) (id : ℕ) (to : AssignmentStatus)
    (reason : Option String) (db : Db) (result : Assignment) (db' : Db)
    → update_assignment_status env call user id to reason db ≡ ok (result, db')
    → Moved id db db'
unfolding update_assignment_status assert_assignment_transition record_audit write_assignment
update_assignment_status-Moved env call user id to reason db result db' h =
    let (o, e, h) = step_ok (require_organisation_id user) _ h in
    let (existing, f, h) = step_ok (find_assignment_or_throw db o id) _ h in
    let (r, h) = then_ok (assert_can_read_assignment call.now db user o existing) _ h in
    let (t, h) =
      check_ok (assignment_transitions existing.status to) conflict_409
        assignment_status_transition_invalid _ h in
    let z = ok_eq h in
    record {
      organisation_id = o;
      existing = existing;
      found = found_assignment db o id existing f;
      change = moved call.now (trim_or_undefined env.trim reason) to;
      settles =
          moved-Settles call.now (trim_or_undefined env.trim reason) to existing
            ((assignment_active_iff existing.status).1 (to, t));
      rows = sym (ap (λ p. p.1.assignments) z);
      same_shifts = sym (ap (λ p. p.1.shifts) z);
    }

assigned_active :
    (s : AssignmentStatus) → is_assigned s ≡ true → active_assignment_statuses s ≡ true
unfolding active_assignment_statuses
assigned_active s h = ground arith

own_check :
    (b : Bool) (after : Result (Assignment × Db)) {answer : Assignment × Db}
    → ((if b then ok tt else tenant_not_found assignment_not_found) >> after) ≡ ok answer
    → (b ≡ true) × (after ≡ ok answer)
unfolding tenant_not_found
own_check true after h = (refl, h)
own_check false after h = cc

pub confirm-Moved :
    (call : Call) (user : RequestUser) (id : ℕ) (db : Db) (result : Assignment) (db' : Db)
    → confirm call user id db ≡ ok (result, db')
    → Moved id db db'
unfolding confirm record_audit write_assignment
confirm-Moved call user id db result db' h =
    let (o, e, h) = step_ok (require_organisation_id user) _ h in
    let (officer_id, w, h) = step_ok (resolve_officer_profile_id db user o) _ h in
    let (existing, f, h) = step_ok (find_assignment_or_throw db o id) _ h in
    let (own, h) = own_check (existing.officer_id == officer_id) _ h in
    let (t, h) =
      check_ok (is_assigned existing.status) conflict_409 assignment_status_transition_invalid _
        h in
    let z = ok_eq h in
    record {
      organisation_id = o;
      existing = existing;
      found = found_assignment db o id existing f;
      change = moved call.now none AssignmentStatus.confirmed;
      settles =
          moved-Settles call.now none AssignmentStatus.confirmed existing
            (assigned_active existing.status t);
      rows = sym (ap (λ p. p.1.assignments) z);
      same_shifts = sym (ap (λ p. p.1.shifts) z);
    }

pub cancel-Moved :
    (call : Call) (user : RequestUser) (id : ℕ) (db db' : Db)
    → cancel_assignment call user id db ≡ ok db'
    → (db ≡ db') ⊎ Moved id db db'
unfolding cancel_assignment write_cancelled record_audit write_assignment
    assert_assignment_transition
cancel-Moved call user id db db' h =
    let (o, e, h) = step_ok (require_organisation_id user) _ h in
    let (existing, f, h) = step_ok (find_assignment_or_throw db o id) _ h in
    let (r, h) = then_ok (assert_can_read_assignment call.now db user o existing) _ h in
    let (t, h) =
      check_ok (not (has_started existing.status)) conflict_409 assignment_status_transition_invalid
        _ h in
    elim (Bool-cases (has_ended existing.status)) [
      | inl over ↦ inl (ok_eq (rw (over) at h))
      | inr open_ ↦
          let (m, h) =
            check_ok (assignment_transitions existing.status AssignmentStatus.cancelled)
              conflict_409 assignment_status_transition_invalid _ (rw (open_) at h) in
          let z = ok_eq h in
          let why = some "Cancelled by administrator" in
          inr (record {
            organisation_id = o;
            existing = existing;
            found = found_assignment db o id existing f;
            change = moved call.now why AssignmentStatus.cancelled;
            settles =
                moved-Settles call.now why AssignmentStatus.cancelled existing
                  ((assignment_active_iff existing.status).1 (AssignmentStatus.cancelled, m));
            rows = sym (ap (λ p. p.assignments) z);
            same_shifts = sym (ap (λ p. p.shifts) z);
          })
    ]
