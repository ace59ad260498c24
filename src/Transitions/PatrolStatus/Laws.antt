-- ===== src/Transitions/PatrolStatus/Laws.antt =====
-- The life of a patrol assignment and of a patrol route.
use guardtrak_api.Prelude.{ℕ, ◌≤◌, ◌<◌, true, ◌≡◌, ◌↔◌, refl, arith}
use guardtrak_api.Transitions.Paths.{History, History-rank, History-keeps}
use guardtrak_api.Transitions.PatrolStatus.{
  PatrolRouteStatus, PatrolAssignmentStatus, not_started, in_progress, completed,
  partially_completed, missed, cancelled, requires_review, patrol_route_transitions,
  patrol_assignment_transitions, active_patrol_assignment_statuses,
}

onward :
    (s : PatrolAssignmentStatus)
    → active_patrol_assignment_statuses s ≡ true
    → (t : PatrolAssignmentStatus) × (patrol_assignment_transitions s t ≡ true)
unfolding active_patrol_assignment_statuses patrol_assignment_transitions
onward not_started h = (in_progress, refl)
onward in_progress h = (completed, refl)
onward requires_review h = (completed, refl)
onward completed h = cc
onward partially_completed h = cc
onward missed h = cc
onward cancelled h = cc

from_active :
    (s t : PatrolAssignmentStatus)
    → patrol_assignment_transitions s t ≡ true
    → active_patrol_assignment_statuses s ≡ true
unfolding active_patrol_assignment_statuses patrol_assignment_transitions
from_active s t h = ground arith

-- A patrol assignment counts as active exactly while the table still leads on from its status.
pub patrol_active_iff :
    (s : PatrolAssignmentStatus)
    → (active_patrol_assignment_statuses s ≡ true)
      ↔ ((t : PatrolAssignmentStatus) × (patrol_assignment_transitions s t ≡ true))
patrol_active_iff s = (onward s, λ h. from_active s h.0 h.1)

rank : PatrolAssignmentStatus → ℕ
rank not_started = 0
rank in_progress = 1
rank requires_review = 2
rank _ = 3

rank_up :
    (s t : PatrolAssignmentStatus) → patrol_assignment_transitions s t ≡ true → rank s < rank t
unfolding patrol_assignment_transitions rank
rank_up s t h = ground arith

rank_top : (s : PatrolAssignmentStatus) → rank s ≤ 3
unfolding rank
rank_top s = ground arith

-- A patrol assignment changes its status at most three times.
pub patrol_changes_bounded :
    {s t : PatrolAssignmentStatus} {n : ℕ} → History patrol_assignment_transitions s n t → n ≤ 3
patrol_changes_bounded {t} r =
    omega (arith, History-rank patrol_assignment_transitions rank rank_up r, rank_top t)

archived_step :
    (s t : PatrolRouteStatus)
    → patrol_route_transitions s t ≡ true
    → s ≡ PatrolRouteStatus.archived
    → t ≡ PatrolRouteStatus.archived
unfolding patrol_route_transitions
archived_step s t h e = ground arith

-- An archived patrol route stays archived.
pub archived_route_stays :
    {t : PatrolRouteStatus} {n : ℕ}
    → History patrol_route_transitions PatrolRouteStatus.archived n t
    → t ≡ PatrolRouteStatus.archived
archived_route_stays r =
    History-keeps patrol_route_transitions (λ s. s ≡ PatrolRouteStatus.archived) archived_step r
      refl
