-- ===== src/Transitions/AttendanceStatus.antt =====
-- modules/attendance/attendance-transitions.util.ts
pub mod Laws
use guardtrak_api.Prelude.{Bool, true, false}
use guardtrak_api.Errors.{Result, ensure, conflict_409, attendance_status_transition_invalid}

pub data AttendanceStatus : Type 0 where
  pending clocked_in clocked_out pending_supervisor_approval : AttendanceStatus
  approved_with_warning supervisor_approved supervisor_rejected voided : AttendanceStatus

-- `ATTENDANCE_TRANSITIONS[from]?.[to]`, an absent entry as `false`.
unfoldable pub attendance_transitions : AttendanceStatus → AttendanceStatus → Bool
attendance_transitions pending clocked_in = true
attendance_transitions pending pending_supervisor_approval = true
attendance_transitions pending approved_with_warning = true
attendance_transitions pending voided = true
attendance_transitions clocked_in clocked_out = true
attendance_transitions clocked_in pending_supervisor_approval = true
attendance_transitions clocked_in voided = true
attendance_transitions pending_supervisor_approval clocked_out = true
attendance_transitions pending_supervisor_approval supervisor_approved = true
attendance_transitions pending_supervisor_approval supervisor_rejected = true
attendance_transitions pending_supervisor_approval clocked_in = true
attendance_transitions pending_supervisor_approval voided = true
attendance_transitions approved_with_warning clocked_out = true
attendance_transitions approved_with_warning pending_supervisor_approval = true
attendance_transitions approved_with_warning supervisor_approved = true
attendance_transitions approved_with_warning supervisor_rejected = true
attendance_transitions approved_with_warning voided = true
attendance_transitions supervisor_approved clocked_out = true
attendance_transitions supervisor_approved voided = true
attendance_transitions clocked_out pending_supervisor_approval = true
attendance_transitions clocked_out supervisor_approved = true
attendance_transitions clocked_out supervisor_rejected = true
attendance_transitions clocked_out voided = true
attendance_transitions supervisor_rejected voided = true
attendance_transitions _ _ = false

-- `CLOCK_IN_RESULT_STATUSES.includes(status)`
unfoldable pub clock_in_result_statuses : AttendanceStatus → Bool
clock_in_result_statuses clocked_in = true
clock_in_result_statuses pending_supervisor_approval = true
clock_in_result_statuses approved_with_warning = true
clock_in_result_statuses _ = false

-- `ACTIVE_ATTENDANCE_STATUSES.includes(status)`
unfoldable pub active_attendance_statuses : AttendanceStatus → Bool
active_attendance_statuses clocked_in = true
active_attendance_statuses pending_supervisor_approval = true
active_attendance_statuses approved_with_warning = true
active_attendance_statuses supervisor_approved = true
active_attendance_statuses _ = false

unfoldable pub assert_attendance_transition :
    AttendanceStatus → AttendanceStatus → Result (Unit {0})
unfolding attendance_transitions
assert_attendance_transition from to =
    ensure (attendance_transitions from to) conflict_409 attendance_status_transition_invalid
