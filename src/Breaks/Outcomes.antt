-- ===== src/Breaks/Outcomes.antt =====
-- What a handler that succeeds has checked and written.
use guardtrak_api.Prelude.{
  ℕ, true, ◌≡◌, inl, inr, arith, Option, none, some, Option-cases, find_first, String,
}
use guardtrak_api.Errors.{ok, Result-cases}
use guardtrak_api.Common.Tenant.{RequestUser, require_organisation_id, tenant_not_found}
use guardtrak_api.Transitions.AttendanceStatus.{active_attendance_statuses}
use guardtrak_api.Transitions.BreakStatus.{BreakStatus, assert_break_transition}
use guardtrak_api.Database.{Db, Attendance, ShiftBreak}
use guardtrak_api.Environment.{Environment, Call}
use guardtrak_api.Breaks.Guards.{assert_active_device}
use guardtrak_api.Breaks.Start.{
  StartBreakDto, own_attendance, perform_start, new_break, insert_break, is_active_of,
}
use guardtrak_api.Breaks.End.{EndBreakDto, find_break, own_break, perform_end, ended, write_end}
use guardtrak_api.Breaks.Cancel.{check_cancel, cancel, cancelled, write_cancel}

module _ (env : Environment) (call : Call) (user : RequestUser) where
  -- A break starts on an active attendance of the officer with no active break, on an active device.
  pub record Started (organisation_id officer_id : ℕ) (dto : StartBreakDto) (db : Db)
      (created : ShiftBreak) (db' : Db) : Type 0 where
    pub attendance : Attendance
    pub own : own_attendance db organisation_id officer_id dto.attendance_id ≡ ok attendance
    pub active : active_attendance_statuses attendance.status ≡ true
    pub no_break : find_first (is_active_of attendance.id) db.breaks ≡ none
    pub on_device : assert_active_device db user ≡ ok tt
    pub row : created ≡ new_break env call organisation_id officer_id dto attendance
    pub written : db' ≡ insert_break db user organisation_id created

  pub perform_start-Started :
      (organisation_id officer_id : ℕ) (dto : StartBreakDto) (db : Db) (created : ShiftBreak)
      (db' : Db)
      → perform_start env call user organisation_id officer_id dto db ≡ ok (created, db')
      → Started organisation_id officer_id dto db created db'
  unfolding perform_start
  perform_start-Started organisation_id officer_id dto db created db' h =
      elim (Result-cases (own_attendance db organisation_id officer_id dto.attendance_id)) [
        | inl (a, e) ↦ record {
          attendance = a;
          own = e;
          active = ground arith;
          no_break = ground arith;
          on_device = ground arith;
          row = ground arith;
          written = ground arith;
        }
        | inr (x, e) ↦ absurd (ground arith)
      ]

  pub record Ended (organisation_id officer_id id : ℕ) (dto : EndBreakDto) (db : Db)
      (result : ShiftBreak) (db' : Db) : Type 0 where
    pub row : ShiftBreak
    pub found : find_break db organisation_id id ≡ some row
    pub own : row.officer_id ≡ officer_id
    pub was_active : row.status ≡ BreakStatus.active
    pub on_device : assert_active_device db user ≡ ok tt
    pub result_row : result ≡ ended env call dto row
    pub written : db' ≡ write_end env call user organisation_id dto row db

  pub perform_end-Ended :
      (organisation_id officer_id id : ℕ) (dto : EndBreakDto) (db : Db) (result : ShiftBreak)
      (db' : Db)
      → perform_end env call user organisation_id officer_id id dto db ≡ ok (result, db')
      → Ended organisation_id officer_id id dto db result db'
  unfolding perform_end own_break tenant_not_found
  perform_end-Ended organisation_id officer_id id dto db result db' h =
      elim (Option-cases (find_break db organisation_id id)) [
        | inr (r, e) ↦ record {
          row = r;
          found = e;
          own = ground arith;
          was_active = ground arith;
          on_device = ground arith;
          result_row = ground arith;
          written = ground arith;
        }
        | inl e ↦ absurd (ground arith)
      ]

  pub record Cancelled (id : ℕ) (reason : Option String) (db : Db) (result : ShiftBreak) (db' : Db)
      : Type 0 where
    pub organisation_id : ℕ
    pub tenant : user.organisation_id ≡ some organisation_id
    pub row : ShiftBreak
    pub found : find_break db organisation_id id ≡ some row
    pub was_active : row.status ≡ BreakStatus.active
    pub checked : check_cancel call user organisation_id row db ≡ ok tt
    pub result_row : result ≡ cancelled env user reason row
    pub written : db' ≡ write_cancel env user organisation_id reason row db

  pub cancel-Cancelled :
      (id : ℕ) (reason : Option String) (db : Db) (result : ShiftBreak) (db' : Db)
      → cancel env call user id reason db ≡ ok (result, db')
      → Cancelled id reason db result db'
  unfolding cancel require_organisation_id tenant_not_found assert_break_transition
  cancel-Cancelled id reason db result db' h = elim (Option-cases user.organisation_id) [
    | inr (o, t) ↦ elim (Option-cases (find_break db o id)) [
      | inr (r, e) ↦ record {
        organisation_id = o;
        tenant = t;
        row = r;
        found = e;
        was_active = ground arith;
        checked = ground arith;
        result_row = ground arith;
        written = ground arith;
      }
      | inl e ↦ absurd (ground arith)
    ]
    | inl t ↦ absurd (ground arith)
  ]
