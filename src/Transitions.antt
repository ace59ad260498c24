-- ===== src/Transitions.antt =====
-- The status tables of the *-transitions.util.ts files: one child for each, its theorems below it.
pub mod Paths
pub mod AttendanceStatus
pub mod BreakStatus
pub mod ShiftStatus
pub mod AssignmentStatus
pub mod PatrolStatus
pub mod IncidentStatus
pub mod EmergencyStatus
pub mod DeviceStatus
