-- ===== src/Transitions/ShiftStatus.antt =====
-- modules/shifts/shift-transitions.util.ts
pub mod Laws
use guardtrak_api.Prelude.{Bool, true, false, Option, none, some, is_some, get_or_else}
use guardtrak_api.Errors.{Result, ensure, conflict_409, shift_status_transition_invalid}

pub data ShiftStatus : Type 0 where
  draft scheduled in_progress completed cancelled archived : ShiftStatus

pub record ShiftTransitionRule : Type 0 where
  pub requires_reason : Bool

abbrev rule : Bool → Option ShiftTransitionRule
rule b = some (record { requires_reason = b })

-- `SHIFT_TRANSITIONS[from]?.[to]`
unfoldable pub shift_transitions : ShiftStatus → ShiftStatus → Option ShiftTransitionRule
shift_transitions draft scheduled = rule false
shift_transitions draft cancelled = rule false
shift_transitions scheduled in_progress = rule false
shift_transitions scheduled cancelled = rule false
shift_transitions in_progress completed = rule false
shift_transitions in_progress cancelled = rule true
shift_transitions completed archived = rule false
shift_transitions cancelled archived = rule false
shift_transitions _ _ = none

abbrev reason_of : Option ShiftTransitionRule → Option Bool
reason_of none = none
reason_of (some r) = some r.requires_reason

-- `SHIFT_TRANSITIONS[from]?.[to]?.requiresReason ?? false`
unfoldable pub shift_transition_requires_reason : ShiftStatus → ShiftStatus → Bool
unfolding shift_transitions
shift_transition_requires_reason from to = get_or_else (reason_of (shift_transitions from to)) false

unfoldable pub assert_shift_transition : ShiftStatus → ShiftStatus → Result (Unit {0})
unfolding shift_transitions
assert_shift_transition from to =
    ensure (is_some (shift_transitions from to)) conflict_409 shift_status_transition_invalid
