-- ===== src/Assignments/Create.antt =====
-- `create` and `createBatch` of modules/assignments/assignments.service.ts. The identifiers of new rows
-- come from the database; a batch gets one for each officer.
use guardtrak_api.Prelude.{
  ℕ, suc, true, false, not, Option, none, some, List, [], ◌∷◌, map, String, if◌then◌else◌,
}
use guardtrak_api.Errors.{
  Result, ok, ensure, ◌>>=◌, ◌>>◌, forbidden_403, auth_insufficient_permission,
}
use guardtrak_api.Text.{trim_or_undefined}
use guardtrak_api.Common.Tenant.{RequestUser, require_organisation_id, is_supervisor}
use guardtrak_api.Environment.{Environment, Call}
use guardtrak_api.Transitions.AssignmentStatus.{AssignmentStatus}
use guardtrak_api.Database.{Db, Assignment, Shift, AuditAction, AuditNote}
use guardtrak_api.Assignments.Access.{includes_id}
use guardtrak_api.Assignments.Checks.{
  load_assignable_shift, assert_officer_assignable, assert_supervisor_assignable,
  assert_no_duplicate, assert_no_overlap,
}

pub record CreateAssignmentDto : Type 0 where
  pub shift_id : ℕ
  pub officer_id : ℕ
  pub supervisor_id : Option ℕ
  pub notes : Option String

pub record BatchCreateAssignmentsDto : Type 0 where
  pub shift_id : ℕ
  pub officer_ids : List ℕ
  pub supervisor_id : Option ℕ

-- The row of `assignment.create`, with the columns that the schema fills in.
unfoldable pub new_assignment : RequestUser → ℕ → ℕ → ℕ → ℕ → Option ℕ → Option String → Assignment
new_assignment user organisation_id id shift_id officer_id supervisor_id notes = record {
  id = id;
  organisation_id = organisation_id;
  shift_id = shift_id;
  officer_id = officer_id;
  supervisor_id = supervisor_id;
  status = AssignmentStatus.assigned;
  is_active = true;
  confirmed_at = none;
  started_at = none;
  completed_at = none;
  cancelled_at = none;
  cancellation_reason = none;
  replaced_assignment_id = none;
  notes = notes;
  created_by_user_id = some user.id;
}

-- `assignment.create` and `assignmentEvent.create`.
unfoldable pub insert_assignment : RequestUser → String → Assignment → Db → Db
insert_assignment user reason created db = record db {
  assignments = created ∷ db.assignments;
  assignment_events =
      record {
        assignment_id = created.id;
        actor_user_id = user.id;
        previous_status = none;
        new_status = AssignmentStatus.assigned;
        reason = some reason;
      }
      ∷ db.assignment_events;
}

-- `auditService.record`, after the transaction.
unfoldable pub record_audit : RequestUser → ℕ → AuditAction → Option ℕ → AuditNote → Db → Db
record_audit user organisation_id action entity_id note db = record db {
  audit_logs =
      record {
        organisation_id = organisation_id;
        actor_user_id = user.id;
        action = action;
        entity_id = entity_id;
        note = note;
      }
      ∷ db.audit_logs;
}

unfoldable pub create :
    Environment → Call → RequestUser → CreateAssignmentDto → Db → Result (Assignment × Db)
unfolding trim_or_undefined
create env call user dto db = do
  organisation_id ← require_organisation_id user
  ensure (not (is_supervisor user)) forbidden_403 auth_insufficient_permission
  shift ← load_assignable_shift db organisation_id dto.shift_id false
  assert_officer_assignable db organisation_id dto.officer_id
  assert_supervisor_assignable db organisation_id dto.supervisor_id
  assert_no_duplicate db organisation_id dto.shift_id dto.officer_id
  assert_no_overlap env.intl db organisation_id dto.officer_id shift none
  let created =
      new_assignment user organisation_id call.new_id dto.shift_id dto.officer_id dto.supervisor_id
        (trim_or_undefined env.trim dto.notes)
  ok (
    created,
    record_audit user organisation_id AuditAction.create (some created.id)
        (AuditNote.assign created.shift_id created.officer_id created.supervisor_id)
        (insert_assignment user "Assignment created" created db),
  )

-- `[...new Set(ids)]`: each identifier where it comes first.
unfoldable pub unique : List ℕ → List ℕ → List ℕ
unfolding includes_id
unique seen [] = []
unique seen (id ∷ ids) =
    let rest = unique (id ∷ seen) ids in if includes_id seen id then unique seen ids else id ∷ rest

-- What is checked for each officer of a batch.
unfoldable pub admit_officer : Environment → Db → ℕ → Shift → ℕ → ℕ → Result (Unit {0})
admit_officer env db organisation_id shift shift_id officer_id = do
  assert_officer_assignable db organisation_id officer_id
  assert_no_duplicate db organisation_id shift_id officer_id
  assert_no_overlap env.intl db organisation_id officer_id shift none

-- The first loop of the transaction.
unfoldable pub admit_all : Environment → Db → ℕ → Shift → ℕ → List ℕ → Result (Unit {0})
unfolding admit_officer
admit_all env db organisation_id shift shift_id [] = ok tt
admit_all env db organisation_id shift shift_id (officer_id ∷ ids) =
    admit_officer env db organisation_id shift shift_id officer_id
    >> admit_all env db organisation_id shift shift_id ids

-- The row of an officer of a batch.
unfoldable pub batch_row : RequestUser → ℕ → (ℕ → ℕ) → ℕ → Option ℕ → ℕ → Assignment
unfolding new_assignment
batch_row user organisation_id new_ids shift_id supervisor_id officer_id =
    new_assignment user organisation_id (new_ids officer_id) shift_id officer_id supervisor_id none

-- The second loop of the transaction.
unfoldable pub insert_all : RequestUser → List Assignment → Db → Db
unfolding insert_assignment
insert_all user [] db = db
insert_all user (created ∷ rest) db =
    insert_all user rest (insert_assignment user "Batch assignment created" created db)

-- `created[0]?.id`
abbrev pub first_id : List Assignment → Option ℕ
first_id [] = none
first_id (created ∷ rest) = some created.id

abbrev pub count_rows : List Assignment → ℕ
count_rows [] = 0
count_rows (created ∷ rest) = suc (count_rows rest)

unfoldable pub create_batch :
    Environment
    → (ℕ → ℕ)
    → RequestUser
    → BatchCreateAssignmentsDto
    → Db
    → Result (List Assignment × Db)
unfolding unique admit_all insert_all batch_row
create_batch env new_ids user dto db = do
  organisation_id ← require_organisation_id user
  let officer_ids = unique [] dto.officer_ids
  ensure (not (is_supervisor user)) forbidden_403 auth_insufficient_permission
  shift ← load_assignable_shift db organisation_id dto.shift_id false
  assert_supervisor_assignable db organisation_id dto.supervisor_id
  admit_all env db organisation_id shift dto.shift_id officer_ids
  let created =
      map (batch_row user organisation_id new_ids dto.shift_id dto.supervisor_id) officer_ids
  ok (
    created,
    record_audit user organisation_id AuditAction.create (first_id created)
        (AuditNote.assign_batch (count_rows created) dto.shift_id dto.supervisor_id)
        (insert_all user created db),
  )
