-- ===== src/Attendance/Calculation.antt =====
-- modules/attendance/attendance-calculation.service.ts. A `Date` is its milliseconds since the epoch,
-- none of them before it; a difference of dates is an integer. The seconds of the worked-time
-- functions are kept in thousandths, which is exact for dates in milliseconds.
pub mod Totals
pub mod Worked
use guardtrak_api.Prelude.{
  ℕ, ◌+◌, ◌-◌, ◌*◌, ◌<◌, Bool, true, false, Option, none, some, List, [], ◌∷◌, ltb, if◌then◌else◌,
}
use guardtrak_api.Prelude.Int.{
  ℤ, pos, negsuc, sub_ℕ, pos_part, floor_div, JsNumber, fin, non_finite,
}

pub record AttendanceTotalsInput : Type 0 where
  pub clock_in_server_at : ℕ
  pub clock_out_server_at : ℕ
  pub scheduled_start_at : ℕ
  pub scheduled_end_at : ℕ
  pub grace_period_minutes : JsNumber
  pub unpaid_break_minutes : JsNumber
  pub overtime_threshold_minutes : Option JsNumber
  pub completed_break_minutes : JsNumber

pub record AttendanceTotalsResult : Type 0 where
  pub gross_minutes : ℕ
  pub total_break_minutes : ℕ
  pub payable_minutes : ℕ
  pub overtime_minutes : ℕ
  pub late_minutes : ℕ
  pub early_departure_minutes : ℕ

-- `Math.floor((end.getTime() - start.getTime()) / 60_000)`
unfoldable pub minutes_between : ℕ → ℕ → ℤ
minutes_between start end = floor_div (sub_ℕ end start) 60000

-- The values are integers, so `Math.floor` changes nothing.
unfoldable pub clamp_minutes : JsNumber → ℕ
clamp_minutes non_finite = 0
clamp_minutes (fin value) = pos_part value

-- `overtimeThresholdMinutes != null ? clampMinutes(…) : 0`
overtime_allowance : Option JsNumber → ℕ
unfolding clamp_minutes
overtime_allowance none = 0
overtime_allowance (some threshold) = clamp_minutes threshold

unfoldable pub calculate_totals : AttendanceTotalsInput → AttendanceTotalsResult
unfolding minutes_between clamp_minutes overtime_allowance
calculate_totals input =
    let gross = clamp_minutes (fin (minutes_between clock_in_server_at clock_out_server_at)) in
    let total_break = clamp_minutes completed_break_minutes in
    let scheduled = clamp_minutes (fin (minutes_between scheduled_start_at scheduled_end_at)) in
    let grace_end = scheduled_start_at + clamp_minutes grace_period_minutes * 60000 in
    let overtime_baseline = scheduled + overtime_allowance overtime_threshold_minutes in
    record {
      gross_minutes = gross;
      total_break_minutes = total_break;
      payable_minutes = clamp_minutes (fin (sub_ℕ gross total_break));
      overtime_minutes = clamp_minutes (fin (sub_ℕ gross overtime_baseline));
      late_minutes =
          if ltb grace_end clock_in_server_at
          then clamp_minutes (fin (minutes_between grace_end clock_in_server_at))
          else 0;
      early_departure_minutes =
          if ltb clock_out_server_at scheduled_end_at
          then clamp_minutes (fin (minutes_between clock_out_server_at scheduled_end_at))
          else 0;
    }
  where
    open input use {
      clock_in_server_at, clock_out_server_at, scheduled_start_at, scheduled_end_at,
      grace_period_minutes, overtime_threshold_minutes, completed_break_minutes,
    }

-- `null`, `undefined` and an invalid date are `none`.
pub record WorkedTimeInput : Type 0 where
  pub clock_in_server_at : Option ℕ
  pub clock_out_server_at : Option ℕ
  pub break_seconds : Option JsNumber
  pub break_minutes : Option JsNumber
  pub break_hours : Option JsNumber

-- `value != null && Number.isFinite(value)`
abbrev finite_value : Option JsNumber → Option ℤ
finite_value none = none
finite_value (some non_finite) = none
finite_value (some (fin n)) = some n

-- In thousandths of a second.
unfoldable pub normalise_break_seconds : WorkedTimeInput → ℕ
normalise_break_seconds input = elim (finite_value input.break_seconds) [
  | some s ↦ pos_part s * 1000
  | none ↦ elim (finite_value input.break_minutes) [
    | some m ↦ pos_part m * 60 * 1000
    | none ↦ elim (finite_value input.break_hours) [ some h ↦ pos_part h * 3600 * 1000 | none ↦ 0 ]
  ]
]

worked : Option ℕ → Option ℕ → ℕ → ℕ
worked (some clock_in) (some clock_out) pause =
    pos_part (sub_ℕ (pos_part (sub_ℕ clock_out clock_in)) pause)
worked _ _ pause = 0

-- In thousandths of a second.
unfoldable pub calculate_worked_seconds : WorkedTimeInput → ℕ
unfolding worked normalise_break_seconds
calculate_worked_seconds input =
    worked input.clock_in_server_at input.clock_out_server_at (normalise_break_seconds input)

-- `sum + Math.max(0, value)`, where `value` is finite
abbrev pub contribution : JsNumber → ℕ
contribution non_finite = 0
contribution (fin value) = pos_part value

sum_from : ℕ → List JsNumber → ℕ
sum_from sum [] = sum
sum_from sum (value ∷ values) = sum_from (sum + contribution value) values

-- `sumSeconds`, and the four totals that are calls of it.
unfoldable pub sum_seconds : List JsNumber → ℕ
unfolding sum_from
sum_seconds values = sum_from 0 values
