-- ===== src/Assignments.antt =====
-- modules/assignments: who may read an assignment or manage an officer (Access), what is checked before an
-- assignment is made (Checks), and the operations (Create, Status, Reassign). Outcomes and Moves have what a
-- request leaves when it succeeds, Opened a creation row by row, Cleared what the checks leave; Batch compares a batch with single steps,
-- Invariant, Preserve and Clocking are about all assignments, Cover about those of a shift.
pub mod Access
pub mod Checks
pub mod Create
pub mod Status
pub mod Reassign
pub mod Batch
pub mod Invariant
pub mod Cleared
pub mod Outcomes
pub mod Opened
pub mod Moves
pub mod Preserve
pub mod Clocking
pub mod Cover
