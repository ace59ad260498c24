-- ===== src/Transitions/AssignmentStatus.antt =====
-- modules/assignments/assignment-transitions.util.ts
pub mod Laws
use guardtrak_api.Prelude.{Bool, true, false}
use guardtrak_api.Errors.{Result, ensure, conflict_409, assignment_status_transition_invalid}

pub data AssignmentStatus : Type 0 where
  assigned confirmed in_progress completed cancelled reassigned missed : AssignmentStatus

-- `ASSIGNMENT_TRANSITIONS[from]?.[to]`
unfoldable pub assignment_transitions : AssignmentStatus → AssignmentStatus → Bool
assignment_transitions assigned confirmed = true
assignment_transitions assigned cancelled = true
assignment_transitions assigned reassigned = true
assignment_transitions assigned missed = true
assignment_transitions confirmed in_progress = true
assignment_transitions confirmed cancelled = true
assignment_transitions confirmed reassigned = true
assignment_transitions confirmed missed = true
assignment_transitions in_progress completed = true
assignment_transitions _ _ = false

-- `ACTIVE_ASSIGNMENT_STATUSES.includes(status)`
unfoldable pub active_assignment_statuses : AssignmentStatus → Bool
active_assignment_statuses assigned = true
active_assignment_statuses confirmed = true
active_assignment_statuses in_progress = true
active_assignment_statuses _ = false

unfoldable pub assert_assignment_transition :
    AssignmentStatus → AssignmentStatus → Result (Unit {0})
unfolding assignment_transitions
assert_assignment_transition from to =
    ensure (assignment_transitions from to) conflict_409 assignment_status_transition_invalid
