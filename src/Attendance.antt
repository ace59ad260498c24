-- ===== src/Attendance.antt =====
-- modules/attendance: the totals of an attendance, the geofence, and the handlers that review, correct
-- and void an attendance.
pub mod Calculation
pub mod Geofence
pub mod Lookup
pub mod Presence
pub mod ClockIn
pub mod ClockOut
pub mod Review
pub mod Correct
