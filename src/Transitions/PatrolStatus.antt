-- ===== src/Transitions/PatrolStatus.antt =====
-- modules/patrols/patrol-transitions.util.ts
pub mod Laws
use guardtrak_api.Prelude.{Bool, true, false}
use guardtrak_api.Errors.{
  Result, ensure, conflict_409, patrol_route_status_invalid, patrol_assignment_status_invalid,
}

pub data PatrolRouteStatus : Type 0 where
  draft active inactive archived : PatrolRouteStatus

pub data PatrolAssignmentStatus : Type 0 where
  not_started in_progress completed partially_completed missed cancelled : PatrolAssignmentStatus
  requires_review : PatrolAssignmentStatus

-- `PATROL_ROUTE_TRANSITIONS[from]?.[to]`
unfoldable pub patrol_route_transitions : PatrolRouteStatus → PatrolRouteStatus → Bool
patrol_route_transitions draft active = true
patrol_route_transitions draft inactive = true
patrol_route_transitions draft archived = true
patrol_route_transitions active inactive = true
patrol_route_transitions active archived = true
patrol_route_transitions inactive active = true
patrol_route_transitions inactive archived = true
patrol_route_transitions _ _ = false

-- `PATROL_ASSIGNMENT_TRANSITIONS[from]?.[to]`
unfoldable pub patrol_assignment_transitions :
    PatrolAssignmentStatus → PatrolAssignmentStatus → Bool
patrol_assignment_transitions not_started in_progress = true
patrol_assignment_transitions not_started cancelled = true
patrol_assignment_transitions not_started missed = true
patrol_assignment_transitions in_progress completed = true
patrol_assignment_transitions in_progress partially_completed = true
patrol_assignment_transitions in_progress cancelled = true
patrol_assignment_transitions in_progress missed = true
patrol_assignment_transitions in_progress requires_review = true
patrol_assignment_transitions requires_review completed = true
patrol_assignment_transitions requires_review partially_completed = true
patrol_assignment_transitions requires_review cancelled = true
patrol_assignment_transitions _ _ = false

-- `ACTIVE_PATROL_ASSIGNMENT_STATUSES.includes(status)`
unfoldable pub active_patrol_assignment_statuses : PatrolAssignmentStatus → Bool
active_patrol_assignment_statuses not_started = true
active_patrol_assignment_statuses in_progress = true
active_patrol_assignment_statuses requires_review = true
active_patrol_assignment_statuses _ = false

unfoldable pub assert_patrol_route_transition :
    PatrolRouteStatus → PatrolRouteStatus → Result (Unit {0})
unfolding patrol_route_transitions
assert_patrol_route_transition from to =
    ensure (patrol_route_transitions from to) conflict_409 patrol_route_status_invalid

unfoldable pub assert_patrol_assignment_transition :
    PatrolAssignmentStatus → PatrolAssignmentStatus → Result (Unit {0})
unfolding patrol_assignment_transitions
assert_patrol_assignment_transition from to =
    ensure (patrol_assignment_transitions from to) conflict_409 patrol_assignment_status_invalid
