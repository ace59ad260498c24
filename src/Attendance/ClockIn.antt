-- ===== src/Attendance/ClockIn.antt =====
-- `performClockIn`, up to its transaction.
pub mod Perform
pub mod Laws
pub mod Retry
use guardtrak_api.Prelude.{
  ℕ, ◌+◌, ◌-◌, ◌/◌, Bool, true, false, not, ◌&&◌, ◌||◌, Option, none, some, List, [], ◌∷◌, ◌==◌,
  ltb, leb, is_some, String, find_first, update_where, if◌then◌else◌,
}
use guardtrak_api.Prelude.Int.{ℤ, JsNumber, fin, non_finite, pos, negsuc}
use guardtrak_api.Errors.{
  Result, ok, err, throw, ensure, ◌>>=◌, ◌>>◌, conflict_409, conflict, assignment_not_found,
  assignment_not_current, attendance_already_exists, attendance_clock_in_too_early,
  attendance_shift_ended,
}
use guardtrak_api.Text.{trim_or_undefined}
use guardtrak_api.Common.Tenant.{RequestUser, tenant_not_found}
use guardtrak_api.Environment.{Environment, Call, begin_input}
use guardtrak_api.Database.{
  Db, Attendance, Position, Assignment, AssignmentEvent, Shift, Site, AttendanceEventType,
  AuditAction, AuditNote,
}
use guardtrak_api.Transitions.AttendanceStatus.{AttendanceStatus}
use guardtrak_api.Transitions.AssignmentStatus.{AssignmentStatus}
use guardtrak_api.Transitions.ShiftStatus.{ShiftStatus}
use guardtrak_api.Calendar.{DateKey, same_key}
use guardtrak_api.Shifts.Recurrence.{ShiftOccurrence, RecurrenceType, is_recurring_shift}
use guardtrak_api.Shifts.Recurrence.Window.{plus_ms, resolve_clock_in_occurrence}
use guardtrak_api.Idempotency.Types.{IdempotencyRow, StoredBody}
use guardtrak_api.Idempotency.Service.{idempotently}
use guardtrak_api.Breaks.Guards.{assert_device_time_tolerance, assert_active_device, officer_of}
use guardtrak_api.Breaks.Start.{same_local}
use guardtrak_api.Attendance.Geofence.{
  GeofencePolicy, GeofenceEvaluationResult, validate_coordinates,
}
use guardtrak_api.Attendance.Presence.{
  related, assignment_by_id, has_assignment_id, shift_by_id, site_by_id, check_selfie,
  check_accuracy, attach_evidence, geofence_of, check_allowed, needs_review, allows_with_reason,
  minutes_ms, recurrence_input, is_geofence_enforcement_enabled,
}

pub record ClockInDto : Type 0 where
  pub assignment_id : ℕ
  pub occurrence_date : Option DateKey
  pub device_timestamp : ℕ
  pub latitude : JsNumber
  pub longitude : JsNumber
  pub accuracy_meters : ℕ
  pub reason : Option String
  pub evidence_id : Option ℕ
  pub local_attendance_id : Option ℕ
  pub idempotency_key : ℕ

-- `findFirst({ where: { id, organisationId } })`, and that it is the officer's own.
unfoldable pub own_assignment : Db → ℕ → ℕ → ℕ → Result Assignment
unfolding tenant_not_found
own_assignment db organisation_id officer_id id =
    elim (find_first (λ a. a.id == id && a.organisation_id == organisation_id) db.assignments) [
      | none ↦ tenant_not_found assignment_not_found
      | some assignment ↦
          if assignment.officer_id == officer_id
          then ok assignment
          else tenant_not_found assignment_not_found
    ]

-- CANCELLED, REASSIGNED, MISSED, or COMPLETED where the shift does not recur.
unfoldable pub is_over : AssignmentStatus → Bool → Bool
is_over AssignmentStatus.cancelled recurring = true
is_over AssignmentStatus.reassigned recurring = true
is_over AssignmentStatus.missed recurring = true
is_over AssignmentStatus.completed recurring = not recurring
is_over _ recurring = false

-- Two hours.
abbrev pub current_window_ms : ℕ
current_window_ms = 7200000

abbrev pub found_occurrence : Option ShiftOccurrence → Result ShiftOccurrence
found_occurrence none = throw conflict_409 assignment_not_current
found_occurrence (some o) = ok o

-- The attendance of an occurrence.
unfoldable pub is_of_occurrence : ℕ → DateKey → Attendance → Bool
unfolding same_key
is_of_occurrence assignment_id key a =
    a.assignment_id == assignment_id && same_key a.occurrence_date key

unfoldable pub existing : Db → ℕ → ℕ → DateKey → Option Attendance
existing db organisation_id assignment_id key =
    find_first
      (λ a.
        a.organisation_id == organisation_id
        && (is_of_occurrence assignment_id key a && not (is_some a.deleted_at)))
      db.attendances

-- The unique indexes on (assignmentId, occurrenceDate) and (organisationId, localAttendanceId).
unfoldable pub is_taken : Db → ℕ → ℕ → DateKey → Option ℕ → Bool
is_taken db organisation_id assignment_id key local_id =
    is_some (find_first (is_of_occurrence assignment_id key) db.attendances)
    || is_some (
        find_first
          (λ a. a.organisation_id == organisation_id && same_local a.local_attendance_id local_id)
          db.attendances)

-- What the checks have found.
pub record Admitted : Type 0 where
  pub assignment : Assignment
  pub shift : Shift
  pub site : Site
  pub occurrence : ShiftOccurrence
  pub geofence : GeofenceEvaluationResult

-- The occurrence that a clock-in is for, and the checks of its time.
unfoldable pub check_occurrence :
    Environment → ℕ → Db → ℕ → Assignment → Shift → Option DateKey → Result ShiftOccurrence
unfolding recurrence_input
check_occurrence env now db organisation_id assignment shift client_date = do
  occurrence ← found_occurrence (
      resolve_clock_in_occurrence env.intl (recurrence_input shift) now current_window_ms
        (minutes_ms shift.grace_period_minutes) client_date)
  ensure (not (is_some (existing db organisation_id assignment.id occurrence.date_key)))
      conflict_409 attendance_already_exists
  ensure (leb occurrence.start_at now) conflict_409 attendance_clock_in_too_early
  ensure (leb now occurrence.end_at) conflict_409 attendance_shift_ended
  ok occurrence

-- `performClockIn`, up to the transaction.
unfoldable pub admit_clock_in :
    Environment → Call → RequestUser → ℕ → ℕ → ClockInDto → Db → Result Admitted
admit_clock_in env call user organisation_id officer_id dto db = do
  assert_device_time_tolerance env.device_time_tolerance_minutes dto.device_timestamp call.now
  validate_coordinates dto.latitude dto.longitude
  assert_active_device db user
  assignment ← own_assignment db organisation_id officer_id dto.assignment_id
  shift ← related (shift_by_id db assignment.shift_id)
  site ← related (site_by_id db shift.site_id)
  ensure
      (assignment.is_active
        && not (is_over assignment.status (is_recurring_shift (some shift.recurrence_type))))
      conflict_409 assignment_not_current
  occurrence ← check_occurrence env call.now db organisation_id assignment shift dto.occurrence_date
  check_accuracy env site dto.accuracy_meters
  check_selfie db organisation_id user site.requires_clock_in_selfie dto.evidence_id
  let geofence =
      geofence_of env site site.clock_in_radius_meters site.clock_in_outside_geofence_policy
        dto.latitude dto.longitude dto.reason
  check_allowed env site.clock_in_outside_geofence_policy dto.reason geofence
  ok (record {
    assignment = assignment;
    shift = shift;
    site = site;
    occurrence = occurrence;
    geofence = geofence;
  })

unfoldable pub clock_in_status :
    Environment → GeofencePolicy → GeofenceEvaluationResult → AttendanceStatus
unfolding needs_review
clock_in_status env policy geofence =
    if needs_review env geofence
    then (if allows_with_reason policy
        then AttendanceStatus.approved_with_warning
        else AttendanceStatus.pending_supervisor_approval)
    else AttendanceStatus.clocked_in

-- The whole minutes after the end of the grace period.
unfoldable pub minutes_late : ℕ → ℤ → ℕ → ℕ
minutes_late start_at grace_period_minutes now =
    let grace_end = plus_ms start_at (minutes_ms grace_period_minutes) in
    if ltb grace_end now then (now - grace_end) / 60000 else 0

unfoldable pub position_of : Environment → Site → JsNumber → JsNumber → ℕ → Position
position_of env site latitude longitude accuracy_meters = record {
  latitude = latitude;
  longitude = longitude;
  accuracy_meters = accuracy_meters;
  distance_meters = env.distance_meters site.latitude site.longitude latitude longitude;
}

unfoldable pub new_attendance : Environment → Call → ℕ → ℕ → ClockInDto → Admitted → Attendance
unfolding position_of clock_in_status minutes_late trim_or_undefined is_geofence_enforcement_enabled
new_attendance env call organisation_id officer_id dto a = record {
  id = call.new_id;
  organisation_id = organisation_id;
  assignment_id = a.assignment.id;
  occurrence_date = a.occurrence.date_key;
  officer_id = officer_id;
  shift_id = a.shift.id;
  site_id = a.site.id;
  status = clock_in_status env a.site.clock_in_outside_geofence_policy a.geofence;
  clock_in_device_at = some dto.device_timestamp;
  clock_in_server_at = some call.now;
  clock_out_device_at = none;
  clock_out_server_at = none;
  clock_in_position = some (position_of env a.site dto.latitude dto.longitude dto.accuracy_meters);
  clock_out_position = none;
  clock_in_outside_geofence = a.geofence.outside;
  clock_out_outside_geofence = false;
  geofence_enforcement_disabled = not (is_geofence_enforcement_enabled env);
  clock_in_reason = trim_or_undefined env.trim dto.reason;
  clock_out_reason = none;
  clock_in_evidence_id = dto.evidence_id;
  clock_out_evidence_id = none;
  final_shift_note = none;
  local_attendance_id = dto.local_attendance_id;
  gross_minutes = none;
  total_break_minutes = 0;
  payable_minutes = none;
  overtime_minutes = none;
  late_minutes = some (minutes_late a.occurrence.start_at a.shift.grace_period_minutes call.now);
  early_departure_minutes = none;
  approval_requested_at = none;
  reviewed_at = none;
  reviewed_by_user_id = none;
  review_reason = none;
  deleted_at = none;
}
