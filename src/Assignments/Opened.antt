-- ===== src/Assignments/Opened.antt =====
-- What an assignment that is created says of the tables before and after it, row by row.
use guardtrak_api.Prelude.{ℕ, true, false, ◌≡◌, ◌⊎◌, none, some, ◌∷◌, find_first, All}
use guardtrak_api.Text.{trim_or_undefined}
use guardtrak_api.Common.Tenant.{RequestUser}
use guardtrak_api.Environment.{Environment, Call}
use guardtrak_api.Transitions.AssignmentStatus.{AssignmentStatus, active_assignment_statuses}
use guardtrak_api.Transitions.ShiftStatus.{ShiftStatus}
use guardtrak_api.Database.{
  Db, Assignment, Shift, Site, SiteStatus, OfficerProfile, OfficerEmploymentStatus, AuditAction,
  AuditNote,
}
use guardtrak_api.Attendance.Presence.{shift_by_id, site_by_id}
use guardtrak_api.Assignments.Checks.{is_shift_of, is_officer_of, shifts_overlap}
use guardtrak_api.Assignments.Create.{CreateAssignmentDto, create}

-- A shift that a new assignment may be for.
pub record IsOpenShift (db : Db) (organisation_id id : ℕ) (shift : Shift) : Type 0 where
  pub listed : find_first (is_shift_of organisation_id id) db.shifts ≡ some shift
  pub has_id : shift.id ≡ id
  pub of_organisation : shift.organisation_id ≡ organisation_id
  pub not_deleted : shift.deleted_at ≡ none
  pub not_started : (shift.status ≡ ShiftStatus.draft) ⊎ (shift.status ≡ ShiftStatus.scheduled)
  pub site : Site
  pub at_site : site_by_id db shift.site_id ≡ some site
  pub site_active : site.status ≡ SiteStatus.active
  pub site_not_deleted : site.deleted_at ≡ none

-- An officer who may get one.
pub record IsEmployed (db : Db) (organisation_id id : ℕ) (officer : OfficerProfile) : Type 0 where
  pub listed : find_first (is_officer_of organisation_id id) db.officers ≡ some officer
  pub has_id : officer.id ≡ id
  pub of_organisation : officer.organisation_id ≡ organisation_id
  pub not_deleted : officer.deleted_at ≡ none
  pub employed : officer.employment_status ≡ OfficerEmploymentStatus.active

-- An assignment of the officer to the shift is over.
abbrev IsOverFor : ℕ → ℕ → ℕ → Assignment → Type 0
IsOverFor organisation_id shift_id officer_id a =
    a.organisation_id ≡ organisation_id
    → a.shift_id ≡ shift_id
    → a.officer_id ≡ officer_id
    → active_assignment_statuses a.status ≡ false

-- An active assignment of the officer is for a shift at another time, or one that is deleted or not there.
abbrev IsElsewhere : Environment → Db → ℕ → ℕ → Shift → Assignment → Type 0
IsElsewhere env db organisation_id officer_id shift a =
    (other : Shift)
    → a.organisation_id ≡ organisation_id
    → a.officer_id ≡ officer_id
    → a.is_active ≡ true
    → active_assignment_statuses a.status ≡ true
    → shift_by_id db a.shift_id ≡ some other
    → other.deleted_at ≡ none
    → shifts_overlap env.intl shift other ≡ false

pub record Opened (env : Environment) (call : Call) (user : RequestUser) (dto : CreateAssignmentDto)
    (db : Db) (result : Assignment) (db' : Db) : Type 0 where
  pub organisation_id : ℕ
  pub tenant : user.organisation_id ≡ some organisation_id
  pub shift : Shift
  pub shift_open : IsOpenShift db organisation_id dto.shift_id shift
  pub officer : OfficerProfile
  pub officer_employed : IsEmployed db organisation_id dto.officer_id officer
  pub no_other : All (IsOverFor organisation_id dto.shift_id dto.officer_id) db.assignments
  pub free : All (IsElsewhere env db organisation_id dto.officer_id shift) db.assignments
  pub row : result ≡ record {
    id = call.new_id;
    organisation_id = organisation_id;
    shift_id = dto.shift_id;
    officer_id = dto.officer_id;
    supervisor_id = dto.supervisor_id;
    status = AssignmentStatus.assigned;
    is_active = true;
    confirmed_at = none;
    started_at = none;
    completed_at = none;
    cancelled_at = none;
    cancellation_reason = none;
    replaced_assignment_id = none;
    notes = trim_or_undefined env.trim dto.notes;
    created_by_user_id = some user.id;
  }
  pub written : db' ≡ record db {
    assignments = result ∷ db.assignments;
    assignment_events =
        record {
          assignment_id = result.id;
          actor_user_id = user.id;
          previous_status = none;
          new_status = AssignmentStatus.assigned;
          reason = some "Assignment created";
        }
        ∷ db.assignment_events;
    audit_logs =
        record {
          organisation_id = organisation_id;
          actor_user_id = user.id;
          action = AuditAction.create;
          entity_id = some result.id;
          note = AuditNote.assign result.shift_id result.officer_id result.supervisor_id;
        }
        ∷ db.audit_logs;
  }
