-- ===== src/Shifts.antt =====
-- modules/shifts and modules/assignments: the schedule of a shift, and the overlap of two.
pub mod Schedule
pub mod Recurrence
