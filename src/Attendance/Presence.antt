-- ===== src/Attendance/Presence.antt =====
-- What clock-in and clock-out share: the rows around an attendance, the evidence of a selfie, the place
-- of the device, and the recurrence of a shift.
use guardtrak_api.Prelude.{
  ℕ, ◌+◌, ◌-◌, ◌*◌, Bool, true, false, not, ◌&&◌, ◌||◌, Option, none, some, List, ◌==◌, leb,
  is_some, get_or_else, String, find_first, update_where, if◌then◌else◌,
}
use guardtrak_api.Prelude.Int.{ℤ, pos, negsuc, JsNumber}
use guardtrak_api.Errors.{
  Result, ok, throw, ensure, bad_request_400, internal_error_500, internal_error,
  attendance_evidence_required, attendance_gps_accuracy_too_low, attendance_reason_required,
  attendance_outside_geofence,
}
use guardtrak_api.Text.{trim_or_undefined}
use guardtrak_api.Common.Tenant.{RequestUser}
use guardtrak_api.Environment.{Environment}
use guardtrak_api.Database.{Db, Assignment, Shift, Site, Evidence, EvidenceStatus}
use guardtrak_api.Attendance.Geofence.{
  GeofencePolicy, allow_with_reason, GeofenceEvaluationResult, evaluate_geofence, apply_enforcement,
}
use guardtrak_api.Shifts.Recurrence.{ShiftRecurrenceInput}

-- A row that a foreign key names: it is never missing.
abbrev pub related {ℓ} : {A : Type ℓ} → Option A → Result A
related none = throw internal_error_500 internal_error
related (some a) = ok a

abbrev pub has_assignment_id : ℕ → Assignment → Bool
has_assignment_id id a = a.id == id

abbrev pub assignment_by_id : Db → ℕ → Option Assignment
assignment_by_id db id = find_first (has_assignment_id id) db.assignments

abbrev pub shift_by_id : Db → ℕ → Option Shift
shift_by_id db id = find_first (λ s. s.id == id) db.shifts

abbrev pub site_by_id : Db → ℕ → Option Site
site_by_id db id = find_first (λ s. s.id == id) db.sites

-- `configService.get('attendance.geofenceEnabled') ?? true`
unfoldable pub is_geofence_enforcement_enabled : Environment → Bool
is_geofence_enforcement_enabled env = get_or_else env.geofence_enabled true

abbrev is_ready : EvidenceStatus → Bool
is_ready EvidenceStatus.available = true
is_ready EvidenceStatus.uploaded = true
is_ready _ = false

-- The evidence that a user has uploaded in an organisation.
abbrev pub is_evidence_of : ℕ → ℕ → ℕ → Evidence → Bool
is_evidence_of organisation_id user_id id e =
    e.id == id
    && (e.organisation_id == organisation_id
        && (e.uploaded_by_user_id == user_id && not (is_some e.deleted_at)))

unfoldable pub assert_selfie_evidence_owned : Db → ℕ → ℕ → ℕ → Result (Unit {0})
unfolding find_first
assert_selfie_evidence_owned db organisation_id user_id evidence_id =
    ensure
      (is_some (
        find_first (λ e. is_evidence_of organisation_id user_id evidence_id e && is_ready e.status)
          db.evidences))
      bad_request_400 attendance_evidence_required

-- `if (required && !dto.evidenceId) throw`, then `if (required && dto.evidenceId) await assert…`
unfoldable pub check_selfie : Db → ℕ → RequestUser → Bool → Option ℕ → Result (Unit {0})
unfolding assert_selfie_evidence_owned
check_selfie db organisation_id user false evidence_id = ok tt
check_selfie db organisation_id user true none = throw bad_request_400 attendance_evidence_required
check_selfie db organisation_id user true (some evidence_id) =
    assert_selfie_evidence_owned db organisation_id user.id evidence_id

-- `geofenceEnabled && dto.accuracyMeters > Number(site.minimumGpsAccuracyMeters)`
unfoldable pub check_accuracy : Environment → Site → ℕ → Result (Unit {0})
unfolding is_geofence_enforcement_enabled
check_accuracy env site accuracy_meters =
    ensure
      (not (is_geofence_enforcement_enabled env)
        || leb accuracy_meters site.minimum_gps_accuracy_meters)
      bad_request_400 attendance_gps_accuracy_too_low

-- `evidence.updateMany`, if there is evidence.
unfoldable pub attach_evidence : ℕ → ℕ → ℕ → Option ℕ → List Evidence → List Evidence
unfolding update_where
attach_evidence organisation_id user_id attendance_id none evidences = evidences
attach_evidence organisation_id user_id attendance_id (some id) evidences =
    update_where (is_evidence_of organisation_id user_id id)
      (λ e. record e { attendance_id = some attendance_id }) evidences

-- Where the device is, against the radius and the policy of the site.
unfoldable pub geofence_of :
    Environment
    → Site
    → ℕ
    → GeofencePolicy
    → JsNumber
    → JsNumber
    → Option String
    → GeofenceEvaluationResult
unfolding is_geofence_enforcement_enabled
geofence_of env site radius policy latitude longitude reason =
    apply_enforcement (is_geofence_enforcement_enabled env) (
      evaluate_geofence env.trim (record {
        distance_meters = env.distance_meters site.latitude site.longitude latitude longitude;
        radius_meters = radius;
        policy = policy;
        reason = reason;
      }))

-- `policy === ALLOW_WITH_REASON`
abbrev pub allows_with_reason : GeofencePolicy → Bool
allows_with_reason allow_with_reason = true
allows_with_reason _ = false

-- `if (!geofence.allowed) throw`: the error says whether a reason is missing.
unfoldable pub check_allowed :
    Environment → GeofencePolicy → Option String → GeofenceEvaluationResult → Result (Unit {0})
unfolding trim_or_undefined
check_allowed env policy reason geofence =
    if geofence.allowed
    then ok tt
    else if allows_with_reason policy && not (is_some (trim_or_undefined env.trim reason))
    then throw bad_request_400 attendance_reason_required
    else throw bad_request_400 attendance_outside_geofence

-- `geofenceEnabled && geofence.outside && geofence.requiresReview`
unfoldable pub needs_review : Environment → GeofenceEvaluationResult → Bool
unfolding is_geofence_enforcement_enabled
needs_review env geofence =
    is_geofence_enforcement_enabled env && (geofence.outside && geofence.requires_review)

-- `minutes * 60_000`
abbrev pub minutes_ms : ℤ → ℤ
minutes_ms (pos n) = pos (n * 60000)
minutes_ms (negsuc n) = negsuc ((n + 1) * 60000 - 1)

unfoldable pub recurrence_input : Shift → ShiftRecurrenceInput
recurrence_input shift = record {
  recurrence_type = some shift.recurrence_type;
  scheduled_start_at = shift.scheduled_start_at;
  scheduled_end_at = shift.scheduled_end_at;
  recurrence_end_at = shift.recurrence_end_at;
  recurrence_days_of_week = shift.recurrence_days_of_week;
  timezone = shift.timezone;
  organisation_timezone = shift.organisation_timezone;
}
