-- ===== src/Breaks/End.antt =====
-- `end` and `performEnd`.
use guardtrak_api.Prelude.{
  ℕ, ◌&&◌, Option, none, some, List, [], ◌∷◌, ◌==◌, get_or_else, String, find_first, update_where,
  if◌then◌else◌,
}
use guardtrak_api.Prelude.Int.{sub_ℕ, pos_part, floor_div}
use guardtrak_api.Errors.{
  Result, ok, err, ensure, ◌>>=◌, ◌>>◌, conflict_409, break_not_found, break_not_active,
}
use guardtrak_api.Text.{trim_or_undefined}
use guardtrak_api.Common.Tenant.{RequestUser, tenant_not_found}
use guardtrak_api.Transitions.BreakStatus.{BreakStatus, assert_break_transition}
use guardtrak_api.Database.{Db, ShiftBreak, AuditAction, AuditNote}
use guardtrak_api.Environment.{Environment, Call, begin_input, text_of}
use guardtrak_api.Idempotency.Types.{IdempotencyRow, StoredBody}
use guardtrak_api.Idempotency.Service.{idempotently}
use guardtrak_api.Breaks.Guards.{
  assert_device_time_tolerance, assert_active_device, officer_of, is_active, completed_minutes,
}

pub record EndBreakDto : Type 0 where
  pub device_timestamp : ℕ
  pub note : Option String
  pub idempotency_key : ℕ

-- `findFirst({ where: { id, organisationId } })`
unfoldable pub find_break : Db → ℕ → ℕ → Option ShiftBreak
unfolding find_first
find_break db organisation_id id =
    find_first (λ b. b.id == id && b.organisation_id == organisation_id) db.breaks

-- ... and that it is the officer's own.
unfoldable pub own_break : Db → ℕ → ℕ → ℕ → Result ShiftBreak
unfolding find_break tenant_not_found
own_break db organisation_id officer_id id = elim (find_break db organisation_id id) [
  | none ↦ tenant_not_found break_not_found
  | some row ↦ if row.officer_id == officer_id then ok row else tenant_not_found break_not_found
]

-- `startedAtServer ?? startedAtDevice`
abbrev pub started_at : ShiftBreak → ℕ
started_at row = get_or_else row.started_at_server row.started_at_device

-- `Math.max(0, Math.floor((now - startedAt) / 60_000))`
abbrev pub minutes_since : ℕ → ℕ → ℕ
minutes_since start now = pos_part (floor_div (sub_ℕ now start) 60000)

-- The text, or else what was there: `trimOrUndefined(note) ?? row.note`.
abbrev or_else : Option String → Option String → Option String
or_else none old = old
or_else (some text) old = some text

-- The row as the update of `performEnd` leaves it.
unfoldable pub ended : Environment → Call → EndBreakDto → ShiftBreak → ShiftBreak
unfolding trim_or_undefined
ended env call dto row = record row {
  status = BreakStatus.completed;
  ended_at_device = some dto.device_timestamp;
  ended_at_server = some call.now;
  duration_minutes = some (minutes_since (started_at row) call.now);
  note = or_else (trim_or_undefined env.trim dto.note) row.note;
}

-- The transaction: the break, and the break minutes of its attendance added up again; then the audit.
unfoldable pub write_end : Environment → Call → RequestUser → ℕ → EndBreakDto → ShiftBreak → Db → Db
unfolding update_where ended completed_minutes
write_end env call user organisation_id dto row db =
    let breaks' = update_where (λ b. b.id == row.id) (λ b. ended env call dto row) db.breaks in
    record db {
      breaks = breaks';
      attendances =
          update_where (λ a. a.id == row.attendance_id)
            (λ a. record a { total_break_minutes = completed_minutes row.attendance_id breaks' })
            db.attendances;
      audit_logs =
          record {
            organisation_id = organisation_id;
            actor_user_id = user.id;
            action = AuditAction.update;
            entity_id = some row.id;
            note = AuditNote.end_break (minutes_since (started_at row) call.now);
          }
          ∷ db.audit_logs;
    }

unfoldable pub perform_end :
    Environment → Call → RequestUser → ℕ → ℕ → ℕ → EndBreakDto → Db → Result (ShiftBreak × Db)
perform_end env call user organisation_id officer_id id dto db = do
  assert_device_time_tolerance env.device_time_tolerance_minutes dto.device_timestamp call.now
  assert_active_device db user
  row ← own_break db organisation_id officer_id id
  ensure (is_active row.status) conflict_409 break_not_active
  assert_break_transition row.status BreakStatus.completed
  ok (ended env call dto row, write_end env call user organisation_id dto row db)

unfoldable pub end_hash : Environment → ℕ → EndBreakDto → ℕ
end_hash env id dto =
    env.hash_request_payload (some id ∷ some dto.device_timestamp ∷ text_of env dto.note ∷ [])

-- The operation 'break.end'.
abbrev pub break_end : ℕ
break_end = 2

unfoldable pub end_break :
    Environment
    → Call
    → RequestUser
    → ℕ
    → EndBreakDto
    → List (IdempotencyRow ShiftBreak)
    → Option (List (IdempotencyRow ShiftBreak))
    → Db
    → Result (StoredBody ShiftBreak) × Option (List (IdempotencyRow ShiftBreak)) × Db
end_break env call user id dto racing rows db = elim (officer_of db user) [
  | err e ↦ (err e, rows, db)
  | ok (organisation_id, officer_id) ↦
      idempotently env.error_message 200
        (perform_end env call user organisation_id officer_id id dto)
        (begin_input env user organisation_id dto.idempotency_key break_end (end_hash env id dto))
        call.now racing call.retry_at rows db
]
