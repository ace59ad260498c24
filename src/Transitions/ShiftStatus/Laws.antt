-- ===== src/Transitions/ShiftStatus/Laws.antt =====
-- The life of a shift, and when a reason is asked for.
use guardtrak_api.Prelude.{ℕ, ◌≤◌, ◌<◌, true, ◌≡◌, ◌↔◌, arith, is_some}
use guardtrak_api.Transitions.Paths.{History, History-rank}
use guardtrak_api.Transitions.ShiftStatus.{
  ShiftStatus, draft, scheduled, in_progress, completed, cancelled, archived, shift_transitions,
  shift_transition_requires_reason,
}

-- A reason is required exactly for cancelling a shift that is in progress.
pub requires_reason_iff :
    (from to : ShiftStatus)
    → (shift_transition_requires_reason from to ≡ true) ↔ ((from ≡ in_progress) × (to ≡ cancelled))
unfolding shift_transition_requires_reason
requires_reason_iff from to = ground arith

rank : ShiftStatus → ℕ
rank draft = 0
rank scheduled = 1
rank in_progress = 2
rank completed = 3
rank cancelled = 3
rank archived = 4

rank_up : (s t : ShiftStatus) → is_some (shift_transitions s t) ≡ true → rank s < rank t
unfolding shift_transitions rank
rank_up s t h = ground arith

rank_top : (s : ShiftStatus) → rank s ≤ 4
unfolding rank
rank_top s = ground arith

-- A shift whose status follows the table passes through at most four changes.
pub shift_changes_bounded :
    {s t : ShiftStatus} {n : ℕ} → History (λ a b. is_some (shift_transitions a b)) s n t → n ≤ 4
shift_changes_bounded {t} r =
    omega (arith, History-rank (λ a b. is_some (shift_transitions a b)) rank rank_up r, rank_top t)
