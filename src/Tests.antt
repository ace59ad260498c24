-- ===== src/Tests.antt =====
-- Test data: an organisation with one officer on shift and one supervisor. The results are applied to
-- it in the modules below, each at one concrete input.
pub mod Statuses
pub mod Requests
pub mod Reviews
pub mod Keys
pub mod Jobs
pub mod Values
pub mod Patrols
pub mod Dates
pub mod Devices
pub mod Clocking
pub mod Leaving
pub mod Posts
pub mod Accounts
use guardtrak_api.Prelude.{ℕ, true, false, none, some, List, [], ◌∷◌}
use guardtrak_api.Prelude.Int.{pos, fin}
use guardtrak_api.Common.Tenant.{
  RequestUser, UserRole, attendance_review, attendance_approve, attendance_correct,
  break_start_self, break_review,
}
use guardtrak_api.Transitions.AttendanceStatus.{AttendanceStatus}
use guardtrak_api.Transitions.DeviceStatus.{DeviceStatus}
use guardtrak_api.Transitions.AssignmentStatus.{AssignmentStatus}
use guardtrak_api.Transitions.ShiftStatus.{ShiftStatus}
use guardtrak_api.Attendance.Geofence.{GeofencePolicy}
use guardtrak_api.Shifts.Recurrence.{RecurrenceType}
use guardtrak_api.Database.{
  OfficerProfile, OfficerEmploymentStatus, SiteStatus, Db, Attendance, BreakType, Shift, Site,
  Assignment,
}
use guardtrak_api.Timezone.{Intl}
use guardtrak_api.Environment.{Environment, Call}
use guardtrak_api.Breaks.Start.{StartBreakDto}
use guardtrak_api.Breaks.End.{EndBreakDto}

-- One zone, whose dates are all the first day of 1970.
abbrev pub test_intl : Intl
test_intl = record {
  is_valid_time_zone = λ zone. true;
  format_to_parts = λ t zone. record {
    date = record { year = 1970; month = 1; day = 1 };
    hour = 0;
    minute = 0;
    second = 0;
    weekday = 4;
  };
}

abbrev pub test_env : Environment
test_env = record {
  trim = λ s. s;
  error_message = λ e. 0;
  id_text = λ i. "id";
  hash_request_payload = λ fields. 77;
  text_value = λ s. 0;
  number_value = λ n. 0;
  device_time_tolerance_minutes = none;
  idempotency_ttl_seconds = none;
  geofence_enabled = none;
  intl = test_intl;
  distance_meters = λ a b c d. 0;
}

abbrev pub officer : RequestUser
officer = record {
  id = 1;
  role = UserRole.security_officer;
  organisation_id = some 10;
  device_id = some 5;
  permissions = break_start_self ∷ [];
}

abbrev pub supervisor : RequestUser
supervisor = record {
  id = 2;
  role = UserRole.supervisor;
  organisation_id = some 10;
  device_id = none;
  permissions = attendance_review ∷ attendance_approve ∷ attendance_correct ∷ break_review ∷ [];
}

abbrev pub call_at : ℕ → Call
call_at t = record { now = t; retry_at = t; new_id = 50 }

abbrev pub attendance_with : AttendanceStatus → Attendance
attendance_with status = record {
  id = 100;
  organisation_id = 10;
  assignment_id = 40;
  occurrence_date = record { year = 1970; month = 1; day = 1 };
  officer_id = 20;
  shift_id = 30;
  site_id = 60;
  status = status;
  clock_in_device_at = some 0;
  clock_in_server_at = some 0;
  clock_out_device_at = none;
  clock_out_server_at = some 28800000;
  clock_in_position = none;
  clock_out_position = none;
  clock_in_outside_geofence = false;
  clock_out_outside_geofence = false;
  geofence_enforcement_disabled = false;
  clock_in_reason = none;
  clock_out_reason = none;
  clock_in_evidence_id = none;
  clock_out_evidence_id = none;
  final_shift_note = none;
  local_attendance_id = none;
  gross_minutes = none;
  total_break_minutes = 0;
  payable_minutes = none;
  overtime_minutes = none;
  late_minutes = none;
  early_departure_minutes = none;
  approval_requested_at = none;
  reviewed_at = none;
  reviewed_by_user_id = none;
  review_reason = none;
  deleted_at = none;
}

abbrev pub post : Shift
post = record {
  id = 30;
  organisation_id = 10;
  deleted_at = none;
  site_id = 60;
  status = ShiftStatus.scheduled;
  recurrence_type = RecurrenceType.not_recurring;
  recurrence_end_at = none;
  recurrence_days_of_week = [];
  timezone = none;
  organisation_timezone = none;
  scheduled_start_at = 0;
  scheduled_end_at = 28800000;
  grace_period_minutes = pos 5;
  unpaid_break_minutes = pos 0;
  overtime_threshold_minutes = none;
}

abbrev pub gate : Site
gate = record {
  id = 60;
  status = SiteStatus.active;
  deleted_at = none;
  latitude = fin (pos 88833000);
  longitude = fin (pos 130000000);
  clock_in_radius_meters = 100;
  clock_out_radius_meters = 100;
  clock_in_outside_geofence_policy = GeofencePolicy.require_supervisor_approval;
  clock_out_outside_geofence_policy = GeofencePolicy.allow_with_reason;
  minimum_gps_accuracy_meters = 50;
  requires_clock_in_selfie = false;
  requires_clock_out_selfie = false;
  requires_final_shift_note = false;
}

abbrev pub duty : Assignment
duty = record {
  id = 40;
  organisation_id = 10;
  shift_id = 30;
  officer_id = 20;
  supervisor_id = none;
  status = AssignmentStatus.confirmed;
  is_active = true;
  confirmed_at = none;
  started_at = none;
  completed_at = none;
  cancelled_at = none;
  cancellation_reason = none;
  replaced_assignment_id = none;
  notes = none;
  created_by_user_id = none;
}

abbrev pub guard : OfficerProfile
guard = record {
  id = 20;
  user_id = 1;
  organisation_id = 10;
  employment_status = OfficerEmploymentStatus.active;
  deleted_at = none;
}

abbrev pub db_with : AttendanceStatus → Db
db_with status = record {
  attendances = attendance_with status ∷ [];
  breaks = [];
  devices = record { id = 5; status = DeviceStatus.active } ∷ [];
  officers = guard ∷ [];
  supervisors = [];
  supervisor_officers = [];
  shifts = post ∷ [];
  sites = gate ∷ [];
  assignments = duty ∷ [];
  assignment_events = [];
  evidences = [];
  events = [];
  audit_logs = [];
}

-- A break that starts at 60 seconds and ends two minutes and a half later.
abbrev pub start_dto : StartBreakDto
start_dto = record {
  attendance_id = 100;
  kind = BreakType.rest;
  device_timestamp = 60000;
  note = none;
  local_break_id = none;
  idempotency_key = 900;
}

abbrev pub end_dto : EndBreakDto
end_dto = record { device_timestamp = 210000; note = none; idempotency_key = 901 }
