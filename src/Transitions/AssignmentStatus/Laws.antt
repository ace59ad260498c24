-- ===== src/Transitions/AssignmentStatus/Laws.antt =====
-- The life of an assignment.
use guardtrak_api.Prelude.{ℕ, ◌≤◌, ◌<◌, true, ◌≡◌, ◌↔◌, refl, arith}
use guardtrak_api.Transitions.Paths.{History, History-rank}
use guardtrak_api.Transitions.AssignmentStatus.{
  AssignmentStatus, assigned, confirmed, in_progress, completed, cancelled, reassigned, missed,
  assignment_transitions, active_assignment_statuses,
}

onward :
    (s : AssignmentStatus)
    → active_assignment_statuses s ≡ true
    → (t : AssignmentStatus) × (assignment_transitions s t ≡ true)
unfolding active_assignment_statuses assignment_transitions
onward assigned h = (confirmed, refl)
onward confirmed h = (in_progress, refl)
onward in_progress h = (completed, refl)
onward completed h = cc
onward cancelled h = cc
onward reassigned h = cc
onward missed h = cc

from_active :
    (s t : AssignmentStatus)
    → assignment_transitions s t ≡ true
    → active_assignment_statuses s ≡ true
unfolding active_assignment_statuses assignment_transitions
from_active s t h = ground arith

-- The statuses of an assignment that are listed as active are exactly those from which the table
-- leads on.
pub assignment_active_iff :
    (s : AssignmentStatus)
    → (active_assignment_statuses s ≡ true)
      ↔ ((t : AssignmentStatus) × (assignment_transitions s t ≡ true))
assignment_active_iff s = (onward s, λ h. from_active s h.0 h.1)

rank : AssignmentStatus → ℕ
rank assigned = 0
rank confirmed = 1
rank in_progress = 2
rank _ = 3

rank_up : (s t : AssignmentStatus) → assignment_transitions s t ≡ true → rank s < rank t
unfolding assignment_transitions rank
rank_up s t h = ground arith

rank_top : (s : AssignmentStatus) → rank s ≤ 3
unfolding rank
rank_top s = ground arith

-- An assignment that only follows the table changes its status at most three times.
pub assignment_changes_bounded :
    {s t : AssignmentStatus} {n : ℕ} → History assignment_transitions s n t → n ≤ 3
assignment_changes_bounded {t} r =
    omega (arith, History-rank assignment_transitions rank rank_up r, rank_top t)
