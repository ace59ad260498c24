-- ===== src/Shifts/Schedule.antt =====
-- modules/shifts/shift-validation.util.ts and modules/assignments/assignment-overlap.util.ts. A `Date`
-- is its milliseconds since the epoch.
pub mod Laws
use guardtrak_api.Prelude.{ℕ, ◌-◌, ◌*◌, ◌/◌, Bool, ◌&&◌, ltb, leb}
use guardtrak_api.Errors.{
  Result, ◌>>=◌, ◌>>◌, ensure, bad_request_400, shift_time_range_invalid, shift_duration_invalid,
}

pub record ShiftScheduleInput : Type 0 where
  pub scheduled_start_at : ℕ
  pub scheduled_end_at : ℕ
  pub unpaid_break_minutes : ℕ
  pub max_duration_hours : ℕ

-- Past the first test the end is after the start, so the truncated difference is the real one.
unfoldable pub assert_shift_schedule_valid : ShiftScheduleInput → Result (Unit {0})
assert_shift_schedule_valid input = do
  let duration_ms = scheduled_end_at - scheduled_start_at
  ensure (ltb scheduled_start_at scheduled_end_at) bad_request_400 shift_time_range_invalid
  ensure (leb duration_ms (max_duration_hours * 60 * 60 * 1000)) bad_request_400
      shift_duration_invalid
  ensure (leb unpaid_break_minutes (duration_ms / 60000)) bad_request_400 shift_duration_invalid
  where
    open input use {scheduled_start_at, scheduled_end_at, unpaid_break_minutes, max_duration_hours}

unfoldable pub ranges_overlap : ℕ → ℕ → ℕ → ℕ → Bool
ranges_overlap a_start a_end b_start b_end = ltb a_start b_end && ltb b_start a_end
