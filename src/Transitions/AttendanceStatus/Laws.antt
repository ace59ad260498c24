-- ===== src/Transitions/AttendanceStatus/Laws.antt =====
-- What the attendance table allows, against the two lists of statuses beside it.
use guardtrak_api.Prelude.{ℕ, Bool, true, false, ◌||◌, ◌≡◌, ◌⊎◌, arith}
use guardtrak_api.Transitions.Paths.{History, History-keeps}
use guardtrak_api.Transitions.AttendanceStatus.{
  AttendanceStatus, pending, supervisor_rejected, voided, clocked_out, attendance_transitions,
  clock_in_result_statuses, active_attendance_statuses,
}

abbrev pub is_voided : AttendanceStatus → Bool
is_voided voided = true
is_voided _ = false

-- An attendance can be clocked out exactly from the statuses that are listed as active.
pub clock_out_iff_active :
    (s : AttendanceStatus) → attendance_transitions s clocked_out ≡ active_attendance_statuses s
unfolding attendance_transitions active_attendance_statuses
clock_out_iff_active s = ground arith

-- From PENDING the table leads exactly to the statuses that a clock-in may result in, and to
-- VOIDED.
pub from_pending_iff :
    (s : AttendanceStatus)
    → attendance_transitions pending s ≡ (clock_in_result_statuses s || is_voided s)
unfolding attendance_transitions clock_in_result_statuses
from_pending_iff s = ground arith

abbrev pub IsClosed : AttendanceStatus → Type 0
IsClosed s = (s ≡ supervisor_rejected) ⊎ (s ≡ voided)

IsClosed-step :
    (s t : AttendanceStatus) → attendance_transitions s t ≡ true → IsClosed s → IsClosed t
unfolding attendance_transitions
IsClosed-step s t h c = ground arith

-- A rejected or voided attendance stays rejected or voided, whatever changes of status follow that
-- the table allows.
pub rejected_stays-IsClosed :
    {s t : AttendanceStatus} {n : ℕ}
    → History attendance_transitions s n t
    → IsClosed s
    → IsClosed t
rejected_stays-IsClosed r c = History-keeps attendance_transitions IsClosed IsClosed-step r c
