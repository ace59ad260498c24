-- ===== src/Breaks.antt =====
-- modules/breaks/breaks.service.ts: starting, ending and cancelling a break.
pub mod Guards
pub mod Start
pub mod End
pub mod Cancel
pub mod Outcomes
pub mod Invariant
pub mod Preserve
pub mod Rules
