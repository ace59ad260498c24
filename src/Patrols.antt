-- ===== src/Patrols.antt =====
-- modules/patrols, besides the statuses, which are in Transitions/PatrolStatus.
pub mod Progress
