-- ===== src/Attendance/ClockOut/Perform.antt =====
-- The transaction of `performClockOut`, and `clockOut`.
use guardtrak_api.Prelude.{
  ℕ, Bool, true, false, Option, some, List, [], ◌∷◌, ◌==◌, update_where, if◌then◌else◌,
}
use guardtrak_api.Errors.{Result, ok, err, ◌>>=◌}
use guardtrak_api.Common.Tenant.{RequestUser}
use guardtrak_api.Environment.{Environment, Call, begin_input, text_of}
use guardtrak_api.Database.{
  Db, Attendance, Assignment, AssignmentEvent, AttendanceEventType, AuditAction, AuditNote,
}
use guardtrak_api.Transitions.AssignmentStatus.{AssignmentStatus}
use guardtrak_api.Shifts.Recurrence.{is_recurring_shift}
use guardtrak_api.Idempotency.Types.{IdempotencyRow, StoredBody}
use guardtrak_api.Idempotency.Service.{idempotently}
use guardtrak_api.Breaks.Guards.{officer_of}
use guardtrak_api.Attendance.Presence.{has_assignment_id, attach_evidence}
use guardtrak_api.Attendance.ClockOut.{
  ClockOutDto, Leaving, admit_clock_out, clock_out_totals, clocked_out_row,
}

abbrev pub is_in_progress : AssignmentStatus → Bool
is_in_progress AssignmentStatus.in_progress = true
is_in_progress _ = false

-- An assignment in progress is completed, or, where its shift recurs, is confirmed again.
unfoldable pub leave_assignment : ℕ → Assignment → Bool → List Assignment → List Assignment
unfolding update_where
leave_assignment now assignment recurring assignments =
    if is_in_progress assignment.status
    then update_where (has_assignment_id assignment.id)
        (λ a.
          if recurring
          then record a { status = AssignmentStatus.confirmed }
          else record a { status = AssignmentStatus.completed; completed_at = some now })
        assignments
    else assignments

unfoldable pub left_event :
    RequestUser → Assignment → Bool → List AssignmentEvent → List AssignmentEvent
left_event user assignment recurring events =
    if is_in_progress assignment.status
    then record {
      assignment_id = assignment.id;
      actor_user_id = user.id;
      previous_status = some AssignmentStatus.in_progress;
      new_status = if recurring then AssignmentStatus.confirmed else AssignmentStatus.completed;
      reason =
          if recurring
          then some "Clock-out (recurring assignment remains active)"
          else some "Clock-out";
    }
      ∷ events
    else events

unfoldable pub write_clock_out :
    Call → RequestUser → ℕ → ClockOutDto → Leaving → Attendance → Db → Db
unfolding leave_assignment left_event attach_evidence update_where is_recurring_shift
write_clock_out call user organisation_id dto l new db =
    let recurring = is_recurring_shift (some l.shift.recurrence_type) in
    record db {
      attendances = update_where (λ a. a.id == new.id) (λ a. new) db.attendances;
      events =
          record {
            organisation_id = organisation_id;
            attendance_id = new.id;
            kind = AttendanceEventType.clock_out;
            actor_user_id = user.id;
            device_id = user.device_id;
            device_timestamp = some dto.device_timestamp;
            server_timestamp = call.now;
            position = new.clock_out_position;
            reason = new.clock_out_reason;
          }
          ∷ db.events;
      evidences = attach_evidence organisation_id user.id new.id dto.evidence_id db.evidences;
      assignments = leave_assignment call.now l.assignment recurring db.assignments;
      assignment_events = left_event user l.assignment recurring db.assignment_events;
      audit_logs =
          record {
            organisation_id = organisation_id;
            actor_user_id = user.id;
            action = AuditAction.update;
            entity_id = some new.id;
            note = AuditNote.clock_out l.geofence.outside new.status;
          }
          ∷ db.audit_logs;
    }

unfoldable pub perform_clock_out :
    Environment → Call → RequestUser → ℕ → ℕ → ClockOutDto → Db → Result (Attendance × Db)
perform_clock_out env call user organisation_id officer_id dto db = do
  l ← admit_clock_out env call user organisation_id officer_id dto db
  let new = clocked_out_row env call dto l (clock_out_totals env call.now l db)
  ok (new, write_clock_out call user organisation_id dto l new db)

unfoldable pub clock_out_hash : Environment → ClockOutDto → ℕ
clock_out_hash env dto = env.hash_request_payload (
    some dto.attendance_id
    ∷ some dto.device_timestamp
    ∷ some (env.number_value dto.latitude)
    ∷ some (env.number_value dto.longitude)
    ∷ some dto.accuracy_meters
    ∷ text_of env dto.reason
    ∷ text_of env dto.final_shift_note
    ∷ dto.evidence_id
    ∷ [])

-- The operation 'attendance.clock-out'.
abbrev pub clock_out_operation : ℕ
clock_out_operation = 4

unfoldable pub clock_out :
    Environment
    → Call
    → RequestUser
    → ClockOutDto
    → List (IdempotencyRow Attendance)
    → Option (List (IdempotencyRow Attendance))
    → Db
    → Result (StoredBody Attendance) × Option (List (IdempotencyRow Attendance)) × Db
clock_out env call user dto racing rows db = elim (officer_of db user) [
  | err e ↦ (err e, rows, db)
  | ok (organisation_id, officer_id) ↦
      idempotently env.error_message 200
        (perform_clock_out env call user organisation_id officer_id dto)
        (begin_input env user organisation_id dto.idempotency_key clock_out_operation
          (clock_out_hash env dto))
        call.now racing call.retry_at rows db
]
