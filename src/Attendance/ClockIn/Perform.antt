-- ===== src/Attendance/ClockIn/Perform.antt =====
-- The transaction of `performClockIn`, and `clockIn`.
use guardtrak_api.Prelude.{
  ℕ, Bool, true, false, not, ◌&&◌, Option, some, List, [], ◌∷◌, ◌==◌, update_where, if◌then◌else◌,
}
use guardtrak_api.Errors.{Result, ok, err, ensure, ◌>>=◌, ◌>>◌, conflict_409, conflict}
use guardtrak_api.Common.Tenant.{RequestUser}
use guardtrak_api.Environment.{Environment, Call, begin_input, text_of}
use guardtrak_api.Database.{
  Db, Attendance, Assignment, AssignmentEvent, Shift, AttendanceEventType, AuditAction, AuditNote,
}
use guardtrak_api.Transitions.AssignmentStatus.{AssignmentStatus}
use guardtrak_api.Transitions.ShiftStatus.{ShiftStatus}
use guardtrak_api.Shifts.Recurrence.{is_recurring_shift}
use guardtrak_api.Idempotency.Types.{IdempotencyRow, StoredBody}
use guardtrak_api.Idempotency.Service.{idempotently}
use guardtrak_api.Breaks.Guards.{officer_of}
use guardtrak_api.Attendance.Presence.{has_assignment_id, attach_evidence}
use guardtrak_api.Attendance.ClockIn.{
  ClockInDto, Admitted, admit_clock_in, new_attendance, is_taken,
}

-- ASSIGNED or CONFIRMED.
abbrev pub is_waiting : AssignmentStatus → Bool
is_waiting AssignmentStatus.assigned = true
is_waiting AssignmentStatus.confirmed = true
is_waiting _ = false

abbrev is_scheduled : ShiftStatus → Bool
is_scheduled ShiftStatus.scheduled = true
is_scheduled _ = false

-- The assignment of the first clock-in comes into progress, and its event is recorded.
unfoldable pub start_assignment : ℕ → Assignment → List Assignment → List Assignment
unfolding update_where
start_assignment now assignment assignments =
    if is_waiting assignment.status
    then update_where (has_assignment_id assignment.id)
        (λ a. record a { status = AssignmentStatus.in_progress; started_at = some now }) assignments
    else assignments

unfoldable pub started_event :
    RequestUser → Assignment → List AssignmentEvent → List AssignmentEvent
started_event user assignment events =
    if is_waiting assignment.status
    then record {
      assignment_id = assignment.id;
      actor_user_id = user.id;
      previous_status = some assignment.status;
      new_status = AssignmentStatus.in_progress;
      reason = some "Clock-in";
    }
      ∷ events
    else events

-- A one-off shift that is scheduled comes into progress.
unfoldable pub start_shift : Shift → List Shift → List Shift
unfolding update_where is_recurring_shift
start_shift shift shifts =
    if is_scheduled shift.status && not (is_recurring_shift (some shift.recurrence_type))
    then update_where (λ s. s.id == shift.id) (λ s. record s { status = ShiftStatus.in_progress })
        shifts
    else shifts

unfoldable pub write_clock_in :
    Call → RequestUser → ℕ → ClockInDto → Admitted → Attendance → Db → Db
unfolding start_assignment started_event start_shift attach_evidence
write_clock_in call user organisation_id dto a created db = record db {
  attendances = created ∷ db.attendances;
  events =
      record {
        organisation_id = organisation_id;
        attendance_id = created.id;
        kind = AttendanceEventType.clock_in;
        actor_user_id = user.id;
        device_id = user.device_id;
        device_timestamp = some dto.device_timestamp;
        server_timestamp = call.now;
        position = created.clock_in_position;
        reason = created.clock_in_reason;
      }
      ∷ db.events;
  evidences = attach_evidence organisation_id user.id created.id dto.evidence_id db.evidences;
  assignments = start_assignment call.now a.assignment db.assignments;
  assignment_events = started_event user a.assignment db.assignment_events;
  shifts = start_shift a.shift db.shifts;
  audit_logs =
      record {
        organisation_id = organisation_id;
        actor_user_id = user.id;
        action = AuditAction.create;
        entity_id = some created.id;
        note =
            AuditNote.clock_in a.geofence.outside created.geofence_enforcement_disabled
              created.status;
      }
      ∷ db.audit_logs;
}

unfoldable pub perform_clock_in :
    Environment → Call → RequestUser → ℕ → ℕ → ClockInDto → Db → Result (Attendance × Db)
perform_clock_in env call user organisation_id officer_id dto db = do
  a ← admit_clock_in env call user organisation_id officer_id dto db
  ensure
      (not
        (is_taken db organisation_id a.assignment.id a.occurrence.date_key dto.local_attendance_id))
      conflict_409 conflict
  let created = new_attendance env call organisation_id officer_id dto a
  ok (created, write_clock_in call user organisation_id dto a created db)

unfoldable pub clock_in_hash : Environment → ClockInDto → ℕ
clock_in_hash env dto = env.hash_request_payload (
    some dto.assignment_id
    ∷ some dto.device_timestamp
    ∷ some (env.number_value dto.latitude)
    ∷ some (env.number_value dto.longitude)
    ∷ some dto.accuracy_meters
    ∷ text_of env dto.reason
    ∷ dto.evidence_id
    ∷ dto.local_attendance_id
    ∷ [])

-- The operation 'attendance.clock-in'.
abbrev pub clock_in_operation : ℕ
clock_in_operation = 3

unfoldable pub clock_in :
    Environment
    → Call
    → RequestUser
    → ClockInDto
    → List (IdempotencyRow Attendance)
    → Option (List (IdempotencyRow Attendance))
    → Db
    → Result (StoredBody Attendance) × Option (List (IdempotencyRow Attendance)) × Db
clock_in env call user dto racing rows db = elim (officer_of db user) [
  | err e ↦ (err e, rows, db)
  | ok (organisation_id, officer_id) ↦
      idempotently env.error_message 201
        (perform_clock_in env call user organisation_id officer_id dto)
        (begin_input env user organisation_id dto.idempotency_key clock_in_operation
          (clock_in_hash env dto))
        call.now racing call.retry_at rows db
]
