-- ===== src/Tests/Statuses.antt =====
-- The tables of statuses.
use guardtrak_api.Prelude.{◌≡◌, refl, is_some}
use guardtrak_api.Errors.{ok}
use guardtrak_api.Transitions.Paths.{History, here, next}
use guardtrak_api.Transitions.AttendanceStatus.{AttendanceStatus, attendance_transitions}
use guardtrak_api.Transitions.IncidentStatus.{IncidentStatus, incident_transitions}
use guardtrak_api.Transitions.ShiftStatus.{ShiftStatus, shift_transitions}
use guardtrak_api.Transitions.EmergencyStatus.{EmergencyStatus, emergency_transitions}
use guardtrak_api.Transitions.DeviceStatus.{DeviceStatus, assert_device_transition_allowed}

rejected_then_voided :
    History attendance_transitions AttendanceStatus.supervisor_rejected 1 AttendanceStatus.voided
unfolding attendance_transitions
rejected_then_voided = next (here refl) refl refl

reviewed_then_resolved :
    History incident_transitions IncidentStatus.under_review 1 IncidentStatus.resolved
unfolding incident_transitions
reviewed_then_resolved = next (here refl) refl refl

shift_published :
    History (λ a b. is_some (shift_transitions a b)) ShiftStatus.draft 1 ShiftStatus.scheduled
unfolding shift_transitions
shift_published = next (here refl) refl refl

emergency_acknowledged :
    History emergency_transitions EmergencyStatus.accepted_for_processing 1
      EmergencyStatus.acknowledged
unfolding emergency_transitions
emergency_acknowledged = next (here refl) refl refl

approval_allowed : assert_device_transition_allowed DeviceStatus.pending DeviceStatus.active ≡ ok tt
unfolding assert_device_transition_allowed
approval_allowed = refl
