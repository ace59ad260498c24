-- ===== src/Attendance/Correct.antt =====
-- `correct` and `sumCompletedBreaks`.
pub mod Laws
use guardtrak_api.Prelude.{ℕ, Option, none, some, ◌==◌, String, find_first, get_or_else}
use guardtrak_api.Prelude.Int.{ℤ, pos, JsNumber, fin}
use guardtrak_api.Errors.{
  Result, ok, throw, ◌>>=◌, ◌>>◌, conflict_409, bad_request_400, not_found_404, bad_request,
  attendance_not_active, resource_not_found,
}
use guardtrak_api.Common.Tenant.{RequestUser, require_organisation_id}
use guardtrak_api.Database.{Db, Attendance, Shift, AttendanceEventType, AuditNote}
use guardtrak_api.Environment.{Environment, Call}
use guardtrak_api.Breaks.Guards.{completed_minutes}
use guardtrak_api.Attendance.Calculation.{
  AttendanceTotalsInput, AttendanceTotalsResult, calculate_totals,
}
use guardtrak_api.Attendance.Lookup.{find_attendance_or_throw, write_attendance}

pub record CorrectAttendanceDto : Type 0 where
  pub clock_in_server_at : Option ℕ
  pub clock_out_server_at : Option ℕ
  pub reason : String

-- `dto.time ? new Date(dto.time) : attendance.time`
abbrev pub or_else : Option ℕ → Option ℕ → Option ℕ
or_else none old = old
or_else (some t) old = some t

abbrev number_of : Option ℤ → Option JsNumber
number_of none = none
number_of (some n) = some (fin n)

-- The totals of an attendance against its shift.
unfoldable pub shift_totals : Shift → ℕ → ℕ → ℕ → AttendanceTotalsResult
shift_totals shift clock_in clock_out completed_break_minutes = calculate_totals (record {
  clock_in_server_at = clock_in;
  clock_out_server_at = clock_out;
  scheduled_start_at = shift.scheduled_start_at;
  scheduled_end_at = shift.scheduled_end_at;
  grace_period_minutes = fin shift.grace_period_minutes;
  unpaid_break_minutes = fin shift.unpaid_break_minutes;
  overtime_threshold_minutes = number_of shift.overtime_threshold_minutes;
  completed_break_minutes = fin (pos completed_break_minutes);
})

-- `{ clockInServerAt, clockOutServerAt, ...totals }`
unfoldable pub corrected : Attendance → ℕ → ℕ → AttendanceTotalsResult → Attendance
corrected attendance clock_in clock_out totals = record attendance {
  clock_in_server_at = some clock_in;
  clock_out_server_at = some clock_out;
  gross_minutes = some totals.gross_minutes;
  total_break_minutes = totals.total_break_minutes;
  payable_minutes = some totals.payable_minutes;
  overtime_minutes = some totals.overtime_minutes;
  late_minutes = some totals.late_minutes;
  early_departure_minutes = some totals.early_departure_minutes;
}

abbrev required {ℓ} : {A : Type ℓ} → Option A → Result A → Result A
required none e = e
required (some a) e = ok a

module _ (env : Environment) (call : Call) (user : RequestUser) where
  unfoldable pub correct : ℕ → CorrectAttendanceDto → Db → Result (Attendance × Db)
  correct id dto db = do
    organisation_id ← require_organisation_id user
    attendance ← find_attendance_or_throw db organisation_id id
    present ← required attendance.clock_in_server_at (throw conflict_409 attendance_not_active)
    let clock_in_at = get_or_else dto.clock_in_server_at present
    clock_out_at ←
        required (or_else dto.clock_out_server_at attendance.clock_out_server_at)
          (throw bad_request_400 bad_request)
    shift ←
        required (find_first (λ s. s.id == attendance.shift_id) db.shifts)
          (throw not_found_404 resource_not_found)
    let totals =
        shift_totals shift clock_in_at clock_out_at (completed_minutes attendance.id db.breaks)
    let new = corrected attendance clock_in_at clock_out_at totals
    ok (
      new,
      write_attendance user organisation_id call.now new AttendanceEventType.corrected
          (env.trim dto.reason) AuditNote.correct db,
    )
