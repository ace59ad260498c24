-- ===== src/Database.antt =====
-- The tables that the attendance and break services read and write (prisma/schema.prisma), each as the
-- list of its rows. UUIDs are numbers, a `DateTime` is its milliseconds since the epoch, `?` is
-- `Option`. `createdAt` and `updatedAt` are left out, and of the audit log what is not the request's
-- own description (its identifier, address and agent).
use guardtrak_api.Prelude.{ℕ, Bool, Option, List, String}
use guardtrak_api.Prelude.Int.{ℤ, JsNumber}
use guardtrak_api.Transitions.AttendanceStatus.{AttendanceStatus}
use guardtrak_api.Transitions.BreakStatus.{BreakStatus}
use guardtrak_api.Transitions.DeviceStatus.{DeviceStatus}
use guardtrak_api.Transitions.AssignmentStatus.{AssignmentStatus}
use guardtrak_api.Transitions.ShiftStatus.{ShiftStatus}
use guardtrak_api.Attendance.Geofence.{GeofencePolicy}
use guardtrak_api.Shifts.Recurrence.{RecurrenceType}
use guardtrak_api.Calendar.{DateKey}

pub data BreakType : Type 0 where
  meal rest medical authorised other : BreakType

pub data AttendanceEventType : Type 0 where
  clock_in clock_out clock_in_review_requested clock_out_review_requested : AttendanceEventType
  approved rejected corrected voided : AttendanceEventType

pub data AuditAction : Type 0 where
  create update delete : AuditAction

-- What stands in the metadata of an audit entry.
pub data AuditNote : Type 0 where
  start_break : BreakType → AuditNote
  end_break : ℕ → AuditNote
  cancel_break request_review correct void : AuditNote
  reviewed : AttendanceEventType → AuditNote
  clock_in : Bool → Bool → AttendanceStatus → AuditNote
  clock_out : Bool → AttendanceStatus → AuditNote
  assign : ℕ → ℕ → Option ℕ → AuditNote
  assign_batch : ℕ → ℕ → Option ℕ → AuditNote
  assignment_status : AssignmentStatus → AssignmentStatus → AuditNote
  confirm_assignment soft_cancel : AuditNote
  reassign : ℕ → AuditNote

-- Where a device was: its coordinates, their accuracy, and the distance to the site.
pub record Position : Type 0 where
  pub latitude : JsNumber
  pub longitude : JsNumber
  pub accuracy_meters : ℕ
  pub distance_meters : ℕ

pub record Attendance : Type 0 where
  pub id : ℕ
  pub organisation_id : ℕ
  pub assignment_id : ℕ
  pub occurrence_date : DateKey
  pub officer_id : ℕ
  pub shift_id : ℕ
  pub site_id : ℕ
  pub status : AttendanceStatus
  pub clock_in_device_at : Option ℕ
  pub clock_in_server_at : Option ℕ
  pub clock_out_device_at : Option ℕ
  pub clock_out_server_at : Option ℕ
  pub clock_in_position : Option Position
  pub clock_out_position : Option Position
  pub clock_in_outside_geofence : Bool
  pub clock_out_outside_geofence : Bool
  pub geofence_enforcement_disabled : Bool
  pub clock_in_reason : Option String
  pub clock_out_reason : Option String
  pub clock_in_evidence_id : Option ℕ
  pub clock_out_evidence_id : Option ℕ
  pub final_shift_note : Option String
  pub local_attendance_id : Option ℕ
  pub gross_minutes : Option ℕ
  pub total_break_minutes : ℕ
  pub payable_minutes : Option ℕ
  pub overtime_minutes : Option ℕ
  pub late_minutes : Option ℕ
  pub early_departure_minutes : Option ℕ
  pub approval_requested_at : Option ℕ
  pub reviewed_at : Option ℕ
  pub reviewed_by_user_id : Option ℕ
  pub review_reason : Option String
  pub deleted_at : Option ℕ

pub record ShiftBreak : Type 0 where
  pub id : ℕ
  pub organisation_id : ℕ
  pub attendance_id : ℕ
  pub officer_id : ℕ
  pub shift_id : ℕ
  pub kind : BreakType
  pub status : BreakStatus
  pub started_at_device : ℕ
  pub started_at_server : Option ℕ
  pub ended_at_device : Option ℕ
  pub ended_at_server : Option ℕ
  pub duration_minutes : Option ℕ
  pub note : Option String
  pub local_break_id : Option ℕ
  pub cancellation_reason : Option String
  pub cancelled_by_user_id : Option ℕ

pub record Device : Type 0 where
  pub id : ℕ
  pub status : DeviceStatus

pub data OfficerEmploymentStatus : Type 0 where
  active on_leave suspended terminated archived : OfficerEmploymentStatus

pub record OfficerProfile : Type 0 where
  pub id : ℕ
  pub user_id : ℕ
  pub organisation_id : ℕ
  pub employment_status : OfficerEmploymentStatus
  pub deleted_at : Option ℕ

-- A supervisor's profile.
pub record Profile : Type 0 where
  pub id : ℕ
  pub user_id : ℕ
  pub organisation_id : ℕ
  pub deleted_at : Option ℕ

pub record SupervisorOfficer : Type 0 where
  pub supervisor_id : ℕ
  pub officer_id : ℕ
  pub organisation_id : ℕ
  pub active_until : Option ℕ

pub record AttendanceEvent : Type 0 where
  pub organisation_id : ℕ
  pub attendance_id : ℕ
  pub kind : AttendanceEventType
  pub actor_user_id : ℕ
  pub device_id : Option ℕ
  pub device_timestamp : Option ℕ
  pub server_timestamp : ℕ
  pub position : Option Position
  pub reason : Option String

pub record AuditLog : Type 0 where
  pub organisation_id : ℕ
  pub actor_user_id : ℕ
  pub action : AuditAction
  pub entity_id : Option ℕ
  pub note : AuditNote

pub data EvidenceStatus : Type 0 where
  pending_upload uploading uploaded processing available failed rejected deleted : EvidenceStatus

pub record Evidence : Type 0 where
  pub id : ℕ
  pub organisation_id : ℕ
  pub uploaded_by_user_id : ℕ
  pub status : EvidenceStatus
  pub attendance_id : Option ℕ
  pub deleted_at : Option ℕ

pub record Assignment : Type 0 where
  pub id : ℕ
  pub organisation_id : ℕ
  pub shift_id : ℕ
  pub officer_id : ℕ
  pub supervisor_id : Option ℕ
  pub status : AssignmentStatus
  pub is_active : Bool
  pub confirmed_at : Option ℕ
  pub started_at : Option ℕ
  pub completed_at : Option ℕ
  pub cancelled_at : Option ℕ
  pub cancellation_reason : Option String
  pub replaced_assignment_id : Option ℕ
  pub notes : Option String
  pub created_by_user_id : Option ℕ

pub record AssignmentEvent : Type 0 where
  pub assignment_id : ℕ
  pub actor_user_id : ℕ
  pub previous_status : Option AssignmentStatus
  pub new_status : AssignmentStatus
  pub reason : Option String

pub data SiteStatus : Type 0 where
  active inactive archived : SiteStatus

pub record Site : Type 0 where
  pub id : ℕ
  pub status : SiteStatus
  pub deleted_at : Option ℕ
  pub latitude : JsNumber
  pub longitude : JsNumber
  pub clock_in_radius_meters : ℕ
  pub clock_out_radius_meters : ℕ
  pub clock_in_outside_geofence_policy : GeofencePolicy
  pub clock_out_outside_geofence_policy : GeofencePolicy
  pub minimum_gps_accuracy_meters : ℕ
  pub requires_clock_in_selfie : Bool
  pub requires_clock_out_selfie : Bool
  pub requires_final_shift_note : Bool

pub record Shift : Type 0 where
  pub id : ℕ
  pub organisation_id : ℕ
  pub deleted_at : Option ℕ
  pub site_id : ℕ
  pub status : ShiftStatus
  pub recurrence_type : RecurrenceType
  pub recurrence_end_at : Option ℕ
  pub recurrence_days_of_week : List JsNumber
  pub timezone : Option ℕ
  pub organisation_timezone : Option ℕ  -- of its organisation
  pub scheduled_start_at : ℕ
  pub scheduled_end_at : ℕ
  pub grace_period_minutes : ℤ
  pub unpaid_break_minutes : ℤ
  pub overtime_threshold_minutes : Option ℤ

pub record Db : Type 0 where
  pub attendances : List Attendance
  pub breaks : List ShiftBreak
  pub devices : List Device
  pub officers : List OfficerProfile
  pub supervisors : List Profile
  pub supervisor_officers : List SupervisorOfficer
  pub shifts : List Shift
  pub sites : List Site
  pub assignments : List Assignment
  pub assignment_events : List AssignmentEvent
  pub evidences : List Evidence
  pub events : List AttendanceEvent
  pub audit_logs : List AuditLog
