-- ===== src/Attendance/Calculation/Totals.antt =====
-- What the minutes of an attendance add up to.
use guardtrak_api.Prelude.{◌+◌, ◌-◌, ◌*◌, ◌≤◌, ◌<◌, ◌≡◌, ◌↔◌, arith}
use guardtrak_api.Attendance.Calculation.{AttendanceTotalsInput, calculate_totals, clamp_minutes}

module _ (input : AttendanceTotalsInput) where
  open input use {
    clock_in_server_at, clock_out_server_at, scheduled_start_at, scheduled_end_at,
    grace_period_minutes, completed_break_minutes,
  }

  -- Gross time is split into payable time and break, up to a break longer than the attendance, and
  -- overtime is part of the gross time.
  pub totals_split :
      let t = calculate_totals input in
      (t.payable_minutes ≡ t.gross_minutes - t.total_break_minutes)
      × (t.payable_minutes ≤ t.gross_minutes)
      × (t.overtime_minutes ≤ t.gross_minutes)
  unfolding calculate_totals
  totals_split = ground arith

  -- The late minutes are zero exactly when the clock-in is less than a minute after the end of the
  -- grace period.
  pub late_iff : ((calculate_totals input).late_minutes ≡ 0) ↔ (
      clock_in_server_at < scheduled_start_at + clamp_minutes grace_period_minutes * 60000 + 60000)
  unfolding calculate_totals
  late_iff = ground arith

  -- For an attendance within the scheduled time, the minutes late, worked and left early add up to
  -- at most the scheduled minutes, and there is no overtime.
  pub within_schedule :
      scheduled_start_at ≤ clock_in_server_at
      → clock_in_server_at ≤ clock_out_server_at
      → clock_out_server_at ≤ scheduled_end_at
      → let t = calculate_totals input in
        ((t.late_minutes + t.gross_minutes + t.early_departure_minutes) * 60000
          ≤ scheduled_end_at - scheduled_start_at)
        × (t.overtime_minutes ≡ 0)
  unfolding calculate_totals
  within_schedule a b c = ground arith
