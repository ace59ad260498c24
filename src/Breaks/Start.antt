-- ===== src/Breaks/Start.antt =====
-- `start` and `performStart`. The new row's identifier, the two readings of the clock and the hash of
-- the request come from outside.
use guardtrak_api.Prelude.{
  ℕ, Bool, false, ◌&&◌, not, Option, none, some, List, [], ◌∷◌, ◌==◌, is_some, String, find_first,
  if◌then◌else◌,
}
use guardtrak_api.Errors.{
  Result, ok, err, ensure, ◌>>=◌, ◌>>◌, conflict_409, attendance_not_found, attendance_not_active,
  break_already_active, conflict,
}
use guardtrak_api.Text.{trim_or_undefined}
use guardtrak_api.Common.Tenant.{RequestUser, tenant_not_found}
use guardtrak_api.Transitions.AttendanceStatus.{active_attendance_statuses}
use guardtrak_api.Transitions.BreakStatus.{BreakStatus}
use guardtrak_api.Database.{Db, Attendance, ShiftBreak, BreakType, AuditAction, AuditNote}
use guardtrak_api.Environment.{Environment, Call, begin_input, text_of}
use guardtrak_api.Idempotency.Types.{IdempotencyRow, StoredBody}
use guardtrak_api.Idempotency.Service.{idempotently}
use guardtrak_api.Breaks.Guards.{
  assert_device_time_tolerance, assert_active_device, officer_of, is_active,
}

pub record StartBreakDto : Type 0 where
  pub attendance_id : ℕ
  pub kind : BreakType
  pub device_timestamp : ℕ
  pub note : Option String
  pub local_break_id : Option ℕ
  pub idempotency_key : ℕ

-- `findFirst({ where: { id, organisationId, deletedAt: null } })`, and that it is the officer's own.
unfoldable pub own_attendance : Db → ℕ → ℕ → ℕ → Result Attendance
unfolding find_first tenant_not_found
own_attendance db organisation_id officer_id attendance_id =
    elim (find_first
      (λ a.
        a.id == attendance_id && a.organisation_id == organisation_id && not (is_some a.deleted_at))
      db.attendances) [
        | none ↦ tenant_not_found attendance_not_found
        | some attendance ↦
            if attendance.officer_id == officer_id
            then ok attendance
            else tenant_not_found attendance_not_found
      ]

abbrev pub is_active_of : ℕ → ShiftBreak → Bool
is_active_of attendance_id row = row.attendance_id == attendance_id && is_active row.status

-- The unique index on (organisationId, localBreakId), which does not hold rows with no local id.
abbrev pub same_local : Option ℕ → Option ℕ → Bool
same_local (some a) (some b) = a == b
same_local _ _ = false

abbrev takes_local_id : ℕ → Option ℕ → ShiftBreak → Bool
takes_local_id organisation_id local_break_id row =
    row.organisation_id == organisation_id && same_local row.local_break_id local_break_id

unfoldable pub new_break : Environment → Call → ℕ → ℕ → StartBreakDto → Attendance → ShiftBreak
unfolding trim_or_undefined
new_break env call organisation_id officer_id dto attendance = record {
  id = call.new_id;
  organisation_id = organisation_id;
  attendance_id = attendance.id;
  officer_id = officer_id;
  shift_id = attendance.shift_id;
  kind = dto.kind;
  status = BreakStatus.active;
  started_at_device = dto.device_timestamp;
  started_at_server = some call.now;
  ended_at_device = none;
  ended_at_server = none;
  duration_minutes = none;
  note = trim_or_undefined env.trim dto.note;
  local_break_id = dto.local_break_id;
  cancellation_reason = none;
  cancelled_by_user_id = none;
}

-- `shiftBreak.create` and the entry in the audit log.
unfoldable pub insert_break : Db → RequestUser → ℕ → ShiftBreak → Db
insert_break db user organisation_id created = record db {
  breaks = created ∷ db.breaks;
  audit_logs =
      record {
        organisation_id = organisation_id;
        actor_user_id = user.id;
        action = AuditAction.create;
        entity_id = some created.id;
        note = AuditNote.start_break created.kind;
      }
      ∷ db.audit_logs;
}

unfoldable pub perform_start :
    Environment → Call → RequestUser → ℕ → ℕ → StartBreakDto → Db → Result (ShiftBreak × Db)
perform_start env call user organisation_id officer_id dto db = do
  assert_device_time_tolerance env.device_time_tolerance_minutes dto.device_timestamp call.now
  assert_active_device db user
  attendance ← own_attendance db organisation_id officer_id dto.attendance_id
  ensure (active_attendance_statuses attendance.status) conflict_409 attendance_not_active
  ensure (not (is_some (find_first (is_active_of attendance.id) db.breaks))) conflict_409
      break_already_active
  ensure (not (is_some (find_first (takes_local_id organisation_id dto.local_break_id) db.breaks)))
      conflict_409 conflict
  let created = new_break env call organisation_id officer_id dto attendance
  ok (created, insert_break db user organisation_id created)

abbrev kind_code : BreakType → ℕ
kind_code BreakType.meal = 0
kind_code BreakType.rest = 1
kind_code BreakType.medical = 2
kind_code BreakType.authorised = 3
kind_code BreakType.other = 4

unfoldable pub start_hash : Environment → StartBreakDto → ℕ
start_hash env dto = env.hash_request_payload (
    some dto.attendance_id
    ∷ some (kind_code dto.kind)
    ∷ some dto.device_timestamp
    ∷ text_of env dto.note
    ∷ dto.local_break_id
    ∷ [])

-- The operation 'break.start'.
abbrev pub break_start : ℕ
break_start = 1

-- `start`: the tenant and the officer, then `performStart` under the idempotency key.
unfoldable pub start :
    Environment
    → Call
    → RequestUser
    → StartBreakDto
    → List (IdempotencyRow ShiftBreak)
    → Option (List (IdempotencyRow ShiftBreak))
    → Db
    → Result (StoredBody ShiftBreak) × Option (List (IdempotencyRow ShiftBreak)) × Db
start env call user dto racing rows db = elim (officer_of db user) [
  | err e ↦ (err e, rows, db)
  | ok (organisation_id, officer_id) ↦
      idempotently env.error_message 201
        (perform_start env call user organisation_id officer_id dto)
        (begin_input env user organisation_id dto.idempotency_key break_start (start_hash env dto))
        call.now racing call.retry_at rows db
]
