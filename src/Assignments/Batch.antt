-- ===== src/Assignments/Batch.antt =====
-- `createBatch` against a reference that checks and inserts one officer after the other.
pub mod Rows
use guardtrak_api.Prelude.{
  ℕ, Bool, true, false, ◌||◌, not, ◌≡◌, refl, arith, none, some, Option, List, [], ◌∷◌, map, ◌==◌,
  is_some, find_first, Bool-cases, inl, inr,
}
use guardtrak_api.Errors.{
  Result, ok, err, ensure, ◌>>=◌, ◌>>◌, forbidden_403, auth_insufficient_permission, bind_same,
  then_same, Result-cases,
}
use guardtrak_api.Common.Tenant.{RequestUser, require_organisation_id, is_supervisor}
use guardtrak_api.Environment.{Environment}
use guardtrak_api.Database.{Db, Assignment, Shift, AuditAction, AuditNote}
use guardtrak_api.Assignments.Access.{includes_id}
use guardtrak_api.Assignments.Checks.{
  load_assignable_shift, assert_officer_assignable, assert_supervisor_assignable,
  assert_no_duplicate, assert_no_overlap, is_active_for, conflicts,
}
use guardtrak_api.Assignments.Create.{
  BatchCreateAssignmentsDto, new_assignment, insert_assignment, record_audit, unique, admit_officer,
  admit_all, batch_row, insert_all, first_id, count_rows, create_batch,
}

-- No identifier stands twice.
unfoldable pub Distinct : List ℕ → Type 0
Distinct [] = Unit
Distinct (i ∷ ids) = (includes_id ids i ≡ false) × Distinct ids

unique_skips :
    (seen ids : List ℕ) (i : ℕ)
    → includes_id seen i ≡ true
    → includes_id (unique seen ids) i ≡ false
unfolding unique includes_id
unique_skips seen [] i h = refl
unique_skips seen (j ∷ ids) i h =
    ground (arith, unique_skips seen ids i, unique_skips (j ∷ seen) ids i)

pub unique-Distinct : (seen ids : List ℕ) → Distinct (unique seen ids)
unfolding unique includes_id Distinct
unique-Distinct seen [] = tt
unique-Distinct seen (j ∷ ids) = elim (Bool-cases (includes_id seen j)) [
  | inl e ↦ rw e (unique-Distinct seen ids)
  | inr e ↦ rw e (unique_skips (j ∷ seen) ids j (ground arith), unique-Distinct (j ∷ seen) ids)
]

module _ (env : Environment) (new_ids : ℕ → ℕ) (user : RequestUser) (organisation_id : ℕ)
    (shift : Shift) (shift_id : ℕ) (supervisor_id : Option ℕ) where
  -- One officer after the other: the checks, and at once the row.
  unfoldable pub assign_each : List ℕ → Db → Result Db
  assign_each [] db = ok db
  assign_each (f ∷ ids) db =
      admit_officer env db organisation_id shift shift_id f
      >> assign_each ids (
          insert_assignment user "Batch assignment created"
            (batch_row user organisation_id new_ids shift_id supervisor_id f) db)

  -- The row of one officer does not stand in the way of another.
  admit_other :
      (db : Db) (f g : ℕ)
      → (f == g) ≡ false
      → admit_officer env
          (insert_assignment user "Batch assignment created"
            (batch_row user organisation_id new_ids shift_id supervisor_id f)
            db)
          organisation_id
          shift
          shift_id
          g
        ≡ admit_officer env db organisation_id shift shift_id g
  unfolding admit_officer insert_assignment batch_row new_assignment assert_officer_assignable
      assert_no_duplicate assert_no_overlap find_first is_active_for conflicts
  admit_other db f g h = ground arith

  admit_others :
      (db : Db) (f : ℕ) (ids : List ℕ)
      → includes_id ids f ≡ false
      → admit_all env
          (insert_assignment user "Batch assignment created"
            (batch_row user organisation_id new_ids shift_id supervisor_id f)
            db)
          organisation_id
          shift
          shift_id
          ids
        ≡ admit_all env db organisation_id shift shift_id ids
  unfolding admit_all includes_id
  admit_others db f [] h = refl
  admit_others db f (g ∷ ids) h =
      let apart : (g == f) ≡ false = ground arith in
      let rest : includes_id ids f ≡ false = ground arith in
      rw (admit_other db f g (ground arith), admit_others db f ids rest) refl

  -- Whatever comes after it, the batch goes on as the reference does.
  all_as_each :
      (write : Db → Result (List Assignment × Db)) (ids : List ℕ) (db : Db)
      → Distinct ids
      → (admit_all env db organisation_id shift shift_id ids
          >> write (
              insert_all user
                (map (batch_row user organisation_id new_ids shift_id supervisor_id) ids)
                db))
        ≡ (assign_each ids db >>= write)
  unfolding admit_all insert_all assign_each Distinct
  all_as_each write [] db h = refl
  all_as_each write (f ∷ ids) db h =
      let row = batch_row user organisation_id new_ids shift_id supervisor_id f in
      let after = insert_assignment user "Batch assignment created" row db in
      let rest = all_as_each write ids after h.1 in
      elim (Result-cases (admit_officer env db organisation_id shift shift_id f)) [
        | inl (checked, e) ↦ rw (e) (rw (admit_others db f ids h.0) at rest)
        | inr (thrown, e) ↦ rw e refl
      ]

-- The same steps, with one officer after the other.
unfoldable pub create_each :
    Environment
    → (ℕ → ℕ)
    → RequestUser
    → BatchCreateAssignmentsDto
    → Db
    → Result (List Assignment × Db)
unfolding assign_each
create_each env new_ids user dto db = do
  organisation_id ← require_organisation_id user
  let officer_ids = unique [] dto.officer_ids
  ensure (not (is_supervisor user)) forbidden_403 auth_insufficient_permission
  shift ← load_assignable_shift db organisation_id dto.shift_id false
  assert_supervisor_assignable db organisation_id dto.supervisor_id
  let created =
      map (batch_row user organisation_id new_ids dto.shift_id dto.supervisor_id) officer_ids
  written ←
      assign_each env new_ids user organisation_id shift dto.shift_id dto.supervisor_id officer_ids
        db
  ok (
    created,
    record_audit user organisation_id AuditAction.create (first_id created)
        (AuditNote.assign_batch (count_rows created) dto.shift_id dto.supervisor_id) written,
  )

-- A batch, which first checks every officer and then inserts every row, does for each list of
-- officers the same as checking and inserting one officer after the other, each against the rows
-- before it: it fails with the same error, or leaves the same tables.
pub create_batch-create_each :
    (env : Environment) (new_ids : ℕ → ℕ) (user : RequestUser) (dto : BatchCreateAssignmentsDto)
    (db : Db)
    → create_batch env new_ids user dto db ≡ create_each env new_ids user dto db
unfolding create_batch create_each
create_batch-create_each env new_ids user dto db =
    bind_same (require_organisation_id user) (λ organisation_id.
      then_same (ensure (not (is_supervisor user)) forbidden_403 auth_insufficient_permission) (
        bind_same (load_assignable_shift db organisation_id dto.shift_id false) (λ shift.
          then_same (assert_supervisor_assignable db organisation_id dto.supervisor_id) (
            all_as_each env new_ids user organisation_id shift dto.shift_id dto.supervisor_id _
              (unique [] dto.officer_ids) db (unique-Distinct [] dto.officer_ids)))))
