-- ===== src/Shifts/Schedule/Laws.antt =====
-- Which schedules are accepted, and what the overlap test means for the moments in the ranges.
use guardtrak_api.Prelude.{ℕ, ◌+◌, ◌*◌, ◌≤◌, ◌<◌, true, ◌≡◌, ◌↔◌, arith, leb, if◌then◌else◌}
use guardtrak_api.Errors.{ok}
use guardtrak_api.Shifts.Schedule.{ShiftScheduleInput, assert_shift_schedule_valid, ranges_overlap}

-- A schedule is accepted exactly if it ends after it starts, lasts at most the maximum number of
-- hours, and has room for the unpaid break.
pub schedule_valid_iff :
    (input : ShiftScheduleInput)
    → (assert_shift_schedule_valid input ≡ ok tt) ↔ (
        (input.scheduled_start_at < input.scheduled_end_at)
        × (input.scheduled_end_at ≤ input.scheduled_start_at + input.max_duration_hours * 3600000)
        × (input.scheduled_start_at + input.unpaid_break_minutes * 60000 ≤ input.scheduled_end_at))
unfolding assert_shift_schedule_valid
schedule_valid_iff input = ground arith

-- A moment that lies in both of two half-open ranges.
abbrev pub IsCommon : ℕ → ℕ → ℕ → ℕ → ℕ → Type 0
IsCommon a_start a_end b_start b_end t = (a_start ≤ t) × (t < a_end) × (b_start ≤ t) × (t < b_end)

later : ℕ → ℕ → ℕ
later a b = if leb a b then b else a

-- Two ranges that are not empty overlap exactly if some moment lies in both of them.
pub ranges_overlap_iff :
    (a b c d : ℕ) → a < b → c < d → (ranges_overlap a b c d ≡ true) ↔ ((t : ℕ) × IsCommon a b c d t)
unfolding ranges_overlap later
ranges_overlap_iff a b c d p q =
    (λ h. (later a c, ground arith), λ h. let (t, common) = h in ground arith)
