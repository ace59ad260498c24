-- ===== src/Assignments/Batch/Rows.antt =====
-- The rows of a batch and the invariant of Assignments/Invariant.
use guardtrak_api.Prelude.{
  ℕ, true, false, not, ◌≡◌, refl, ap, arith, Option, none, List, [], ◌∷◌, ◌==◌, find_first,
  All-weaken, Bool-cases, inl, inr,
}
use guardtrak_api.Errors.{
  ok, step_ok, check_ok, then_ok, ok_eq, forbidden_403, auth_insufficient_permission,
}
use guardtrak_api.Common.Tenant.{RequestUser, require_organisation_id, is_supervisor}
use guardtrak_api.Environment.{Environment}
use guardtrak_api.Database.{Db, Assignment, Shift}
use guardtrak_api.Attendance.Presence.{has_assignment_id}
use guardtrak_api.Assignments.Access.{includes_id}
use guardtrak_api.Assignments.Checks.{
  load_assignable_shift, assert_officer_assignable, assert_supervisor_assignable,
  assert_no_duplicate, is_ignored,
}
use guardtrak_api.Assignments.Create.{
  BatchCreateAssignmentsDto, new_assignment, insert_assignment, record_audit, unique, admit_officer,
  batch_row, create_batch,
}
use guardtrak_api.Assignments.Invariant.{Sound, double_booked, insert-Sound}
use guardtrak_api.Assignments.Cleared.{Cleared-of, Cleared-apart}
use guardtrak_api.Assignments.Batch.{
  Distinct, unique-Distinct, assign_each, create_each, create_batch-create_each,
}

-- Identifiers for the rows that are not in use, and are different for different officers.
pub record Fresh (new_ids : ℕ → ℕ) (assignments : List Assignment) : Type 0 where
  pub unused : (f : ℕ) → find_first (has_assignment_id (new_ids f)) assignments ≡ none
  pub different : (f g : ℕ) → (new_ids f == new_ids g) ≡ true → (f == g) ≡ true

module _ (env : Environment) (new_ids : ℕ → ℕ) (user : RequestUser) (o : ℕ) (shift : Shift) (id : ℕ)
    (supervisor_id : Option ℕ)
    (different : (f g : ℕ) → (new_ids f == new_ids g) ≡ true → (f == g) ≡ true) where
  -- The tables with the row of one officer.
  after : ℕ → Db → Db
  after f db =
      insert_assignment user "Batch assignment created"
        (batch_row user o new_ids id supervisor_id f) db

  one-Sound :
      (f : ℕ) (db : Db)
      → find_first (has_assignment_id (new_ids f)) db.assignments ≡ none
      → load_assignable_shift db o id false ≡ ok shift
      → admit_officer env db o shift id f ≡ ok tt
      → Sound db.shifts db.assignments
      → Sound (after f db).shifts (after f db).assignments
  unfolding after insert_assignment batch_row new_assignment admit_officer
  one-Sound f db fresh loaded h v =
      let (w, h) = then_ok (assert_officer_assignable db o f) _ h in
      let (n, c) = then_ok (assert_no_duplicate db o id f) _ h in
      let cleared = Cleared-of env.intl db o id f false none shift loaded n c in
      let new = batch_row user o new_ids id supervisor_id f in
      insert-Sound db.shifts db.assignments new fresh cleared.no_duplicate
        (All-weaken (λ a. is_ignored none a ≡ false → double_booked db.shifts new a ≡ false)
          (λ a. double_booked db.shifts new a ≡ false) (λ a e. e refl) db.assignments
          (Cleared-apart env.intl db o id f false none new v.distinct_shifts cleared refl refl
            refl))
        v

  still_unused :
      (f g : ℕ) (ids : List ℕ) (db : Db)
      → includes_id ids f ≡ false
      → includes_id ids g ≡ true
      → find_first (has_assignment_id (new_ids g)) db.assignments ≡ none
      → find_first (has_assignment_id (new_ids g)) (after f db).assignments ≡ none
  unfolding after insert_assignment batch_row new_assignment find_first
  still_unused f g ids db out in_ h = elim (Bool-cases (new_ids f == new_ids g)) [
    | inl e ↦
        let same : f ≡ g = (let d = different f g e in ground arith) in
        let clash : includes_id ids f ≡ true = rw same in_ in cc
    | inr e ↦ rw e h
  ]

  after_loaded :
      (f : ℕ) (db : Db)
      → load_assignable_shift db o id false ≡ ok shift
      → load_assignable_shift (after f db) o id false ≡ ok shift
  unfolding after insert_assignment load_assignable_shift
  after_loaded f db h = h

  after_each :
      (f : ℕ) (ids : List ℕ) (db db' : Db)
      → assign_each env new_ids user o shift id supervisor_id ids (
          insert_assignment user "Batch assignment created"
            (batch_row user o new_ids id supervisor_id f)
            db)
        ≡ ok db'
      → assign_each env new_ids user o shift id supervisor_id ids (after f db) ≡ ok db'
  unfolding after
  after_each f ids db db' h = h

  each-Sound :
      (ids : List ℕ) (db db' : Db)
      → Distinct ids
      → ((g : ℕ)
          → includes_id ids g ≡ true
          → find_first (has_assignment_id (new_ids g)) db.assignments ≡ none)
      → load_assignable_shift db o id false ≡ ok shift
      → assign_each env new_ids user o shift id supervisor_id ids db ≡ ok db'
      → Sound db.shifts db.assignments
      → Sound db'.shifts db'.assignments
  unfolding assign_each Distinct includes_id
  each-Sound [] db db' d fresh loaded h v = rw (← ok_eq h) v
  each-Sound (f ∷ ids) db db' d fresh loaded h v =
      let (a, rest) = then_ok (admit_officer env db o shift id f) _ h in
      each-Sound ids (after f db) db' d.1
        (λ g e. still_unused f g ids db d.0 e (fresh g (ground arith))) (after_loaded f db loaded)
        (after_each f ids db db' rest) (one-Sound f db (fresh f (ground arith)) loaded a v)

same_tables : (x y : Db) → x ≡ y → Sound x.shifts x.assignments → Sound y.shifts y.assignments
same_tables x y e v = rw (← e) v

pub create_batch-Sound :
    (env : Environment) (new_ids : ℕ → ℕ) (user : RequestUser) (dto : BatchCreateAssignmentsDto)
    (db : Db) (result : List Assignment) (db' : Db)
    → Fresh new_ids db.assignments
    → create_batch env new_ids user dto db ≡ ok (result, db')
    → Sound db.shifts db.assignments
    → Sound db'.shifts db'.assignments
unfolding create_each record_audit
create_batch-Sound env new_ids user dto db result db' fresh h v =
    let ids = unique [] dto.officer_ids in
    let h : create_each env new_ids user dto db ≡ ok (result, db') =
      rw (← create_batch-create_each env new_ids user dto db) h in
    let (o, e, h) = step_ok (require_organisation_id user) _ h in
    let (r, h) =
      check_ok (not (is_supervisor user)) forbidden_403 auth_insufficient_permission _ h in
    let (shift, l, h) = step_ok (load_assignable_shift db o dto.shift_id false) _ h in
    let (s, h) = then_ok (assert_supervisor_assignable db o dto.supervisor_id) _ h in
    let (written, w, h) =
      step_ok (assign_each env new_ids user o shift dto.shift_id dto.supervisor_id ids db) _ h in
    let z = ok_eq h in
    let out =
      each-Sound env new_ids user o shift dto.shift_id dto.supervisor_id fresh.different ids db
        written (unique-Distinct [] dto.officer_ids) (λ g f. fresh.unused g) l w v in
    same_tables _ db' (ap (λ p. p.1) z) out
