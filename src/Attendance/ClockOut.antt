-- ===== src/Attendance/ClockOut.antt =====
-- `performClockOut`, up to its transaction.
pub mod Perform
pub mod Laws
pub mod Outcomes
pub mod Again
use guardtrak_api.Prelude.{
  ℕ, Bool, true, false, not, ◌&&◌, ◌||◌, Option, none, some, is_some, String, find_first,
  if◌then◌else◌,
}
use guardtrak_api.Prelude.Int.{JsNumber}
use guardtrak_api.Errors.{
  Result, ok, ensure, ◌>>=◌, ◌>>◌, conflict_409, bad_request_400, attendance_not_active,
  attendance_active_break_exists, attendance_final_note_required,
}
use guardtrak_api.Text.{trim_or_undefined}
use guardtrak_api.Common.Tenant.{RequestUser}
use guardtrak_api.Environment.{Environment, Call}
use guardtrak_api.Database.{Db, Attendance, Assignment, Shift, Site}
use guardtrak_api.Transitions.AttendanceStatus.{
  AttendanceStatus, active_attendance_statuses, assert_attendance_transition,
}
use guardtrak_api.Calendar.{DateKey}
use guardtrak_api.Shifts.Recurrence.{ShiftOccurrence, occurrence_on_date}
use guardtrak_api.Breaks.Guards.{
  assert_device_time_tolerance, assert_active_device, completed_minutes,
}
use guardtrak_api.Breaks.Start.{own_attendance, is_active_of}
use guardtrak_api.Attendance.Calculation.{AttendanceTotalsResult}
use guardtrak_api.Attendance.Correct.{shift_totals}
use guardtrak_api.Attendance.Geofence.{GeofenceEvaluationResult, validate_coordinates}
use guardtrak_api.Attendance.ClockIn.{position_of}
use guardtrak_api.Attendance.Presence.{
  related, assignment_by_id, shift_by_id, site_by_id, check_selfie, check_accuracy, geofence_of,
  check_allowed, needs_review, recurrence_input, is_geofence_enforcement_enabled,
}

pub record ClockOutDto : Type 0 where
  pub attendance_id : ℕ
  pub device_timestamp : ℕ
  pub latitude : JsNumber
  pub longitude : JsNumber
  pub accuracy_meters : ℕ
  pub reason : Option String
  pub final_shift_note : Option String
  pub evidence_id : Option ℕ
  pub idempotency_key : ℕ

-- What the checks have found.
pub record Leaving : Type 0 where
  pub attendance : Attendance
  pub assignment : Assignment
  pub shift : Shift
  pub site : Site
  pub geofence : GeofenceEvaluationResult
  pub next_status : AttendanceStatus
  pub clock_in_server_at : ℕ

-- `site.requiresFinalShiftNote && !trimOrUndefined(dto.finalShiftNote)`
unfoldable pub check_final_note : Environment → Site → Option String → Result (Unit {0})
unfolding trim_or_undefined
check_final_note env site note =
    ensure (not site.requires_final_shift_note || is_some (trim_or_undefined env.trim note))
      bad_request_400 attendance_final_note_required

unfoldable pub clock_out_status : Environment → GeofenceEvaluationResult → AttendanceStatus
unfolding needs_review
clock_out_status env geofence =
    if needs_review env geofence
    then AttendanceStatus.pending_supervisor_approval
    else AttendanceStatus.clocked_out

unfoldable pub admit_clock_out :
    Environment → Call → RequestUser → ℕ → ℕ → ClockOutDto → Db → Result Leaving
admit_clock_out env call user organisation_id officer_id dto db = do
  assert_device_time_tolerance env.device_time_tolerance_minutes dto.device_timestamp call.now
  validate_coordinates dto.latitude dto.longitude
  assert_active_device db user
  attendance ← own_attendance db organisation_id officer_id dto.attendance_id
  shift ← related (shift_by_id db attendance.shift_id)
  site ← related (site_by_id db attendance.site_id)
  assignment ← related (assignment_by_id db attendance.assignment_id)
  ensure (active_attendance_statuses attendance.status) conflict_409 attendance_not_active
  ensure (not (is_some (find_first (is_active_of attendance.id) db.breaks))) conflict_409
      attendance_active_break_exists
  check_accuracy env site dto.accuracy_meters
  check_selfie db organisation_id user site.requires_clock_out_selfie dto.evidence_id
  check_final_note env site dto.final_shift_note
  let geofence =
      geofence_of env site site.clock_out_radius_meters site.clock_out_outside_geofence_policy
        dto.latitude dto.longitude dto.reason
  check_allowed env site.clock_out_outside_geofence_policy dto.reason geofence
  let next_status = clock_out_status env geofence
  assert_attendance_transition attendance.status next_status
  clock_in_server_at ← related attendance.clock_in_server_at
  ok (record {
    attendance = attendance;
    assignment = assignment;
    shift = shift;
    site = site;
    geofence = geofence;
    next_status = next_status;
    clock_in_server_at = clock_in_server_at;
  })

-- `occurrenceOnDate(…) ?? { startAt: scheduledStartAt, endAt: scheduledEndAt, dateKey }`
unfoldable pub clock_out_occurrence : Environment → Shift → DateKey → ShiftOccurrence
unfolding recurrence_input
clock_out_occurrence env shift key =
    elim (occurrence_on_date env.intl (recurrence_input shift) key) [
      | some o ↦ o
      | none ↦ record {
        date_key = key;
        start_at = shift.scheduled_start_at;
        end_at = shift.scheduled_end_at;
      }
    ]

unfoldable pub clock_out_totals : Environment → ℕ → Leaving → Db → AttendanceTotalsResult
unfolding completed_minutes
clock_out_totals env now l db =
    let occurrence = clock_out_occurrence env l.shift l.attendance.occurrence_date in
    shift_totals
      (record l.shift {
        scheduled_start_at = occurrence.start_at;
        scheduled_end_at = occurrence.end_at;
      })
      l.clock_in_server_at now (completed_minutes l.attendance.id db.breaks)

abbrev requested_at : AttendanceStatus → ℕ → Option ℕ → Option ℕ
requested_at AttendanceStatus.pending_supervisor_approval now old = some now
requested_at _ now old = old

-- The row as the update leaves it.
unfoldable pub clocked_out_row :
    Environment → Call → ClockOutDto → Leaving → AttendanceTotalsResult → Attendance
unfolding position_of trim_or_undefined is_geofence_enforcement_enabled
clocked_out_row env call dto l totals = record l.attendance {
  status = l.next_status;
  clock_out_device_at = some dto.device_timestamp;
  clock_out_server_at = some call.now;
  clock_out_position = some (position_of env l.site dto.latitude dto.longitude dto.accuracy_meters);
  clock_out_outside_geofence = l.geofence.outside;
  geofence_enforcement_disabled = not (is_geofence_enforcement_enabled env);
  clock_out_reason = trim_or_undefined env.trim dto.reason;
  clock_out_evidence_id = dto.evidence_id;
  final_shift_note = trim_or_undefined env.trim dto.final_shift_note;
  gross_minutes = some totals.gross_minutes;
  total_break_minutes = totals.total_break_minutes;
  payable_minutes = some totals.payable_minutes;
  overtime_minutes = some totals.overtime_minutes;
  late_minutes = some totals.late_minutes;
  early_departure_minutes = some totals.early_departure_minutes;
  approval_requested_at = requested_at l.next_status call.now l.attendance.approval_requested_at;
}
