-- ===== src/Transitions/BreakStatus.antt =====
-- modules/breaks/break-transitions.util.ts
use guardtrak_api.Prelude.{Bool, true, false}
use guardtrak_api.Errors.{Result, ensure, conflict_409, break_status_transition_invalid}

pub data BreakStatus : Type 0 where
  active completed cancelled pending_sync requires_review : BreakStatus

-- `BREAK_TRANSITIONS[from]?.[to]`
unfoldable pub break_transitions : BreakStatus → BreakStatus → Bool
break_transitions active completed = true
break_transitions active cancelled = true
break_transitions _ _ = false

unfoldable pub assert_break_transition : BreakStatus → BreakStatus → Result (Unit {0})
unfolding break_transitions
assert_break_transition from to =
    ensure (break_transitions from to) conflict_409 break_status_transition_invalid
