-- ===== src/Tests/Values.antt =====
-- Calculations, schedules, pages and the stored values.
use guardtrak_api.Prelude.{◌+◌, ◌-◌, ◌*◌, ◌≤◌, ◌≡◌, none, some, List, [], ◌∷◌, arith}
use guardtrak_api.Prelude.Int.{pos, JsNumber, fin, non_finite}
use guardtrak_api.Attendance.Calculation.{AttendanceTotalsInput, calculate_totals, WorkedTimeInput}
use guardtrak_api.Attendance.Calculation.Totals.{within_schedule}
use guardtrak_api.Attendance.Geofence.{GeofenceEvaluationInput, allow_with_reason}
use guardtrak_api.Shifts.Schedule.{ShiftScheduleInput}
use guardtrak_api.Redis.{Value}

-- Seven minutes late, and 13 minutes early.
abbrev day : AttendanceTotalsInput
day = record {
  clock_in_server_at = 420000;
  clock_out_server_at = 28020000;
  scheduled_start_at = 0;
  scheduled_end_at = 28800000;
  grace_period_minutes = fin (pos 5);
  unpaid_break_minutes = fin (pos 30);
  overtime_threshold_minutes = none;
  completed_break_minutes = fin (pos 20);
}

within_schedule_example :
    (((calculate_totals day).late_minutes
          + (calculate_totals day).gross_minutes
          + (calculate_totals day).early_departure_minutes)
        * 60000
      ≤ 28800000 - 0)
    × ((calculate_totals day).overtime_minutes ≡ 0)
within_schedule_example = within_schedule day (omega arith) (omega arith) (omega arith)

abbrev worked_day : WorkedTimeInput
worked_day = record {
  clock_in_server_at = some 1000;
  clock_out_server_at = some 100000;
  break_seconds = none;
  break_minutes = some (fin (pos 1));
  break_hours = none;
}

abbrev monday : List JsNumber
monday = fin (pos 28800) ∷ non_finite ∷ []

abbrev outside_with_reason : GeofenceEvaluationInput
outside_with_reason = record {
  distance_meters = 130;
  radius_meters = 100;
  policy = allow_with_reason;
  reason = some "Gate closed";
}

abbrev night : ShiftScheduleInput
night = record {
  scheduled_start_at = 0;
  scheduled_end_at = 28800000;
  unpaid_break_minutes = 30;
  max_duration_hours = 12;
}

abbrev stored : Value
stored = record { text = 1; parsed = 7 }
