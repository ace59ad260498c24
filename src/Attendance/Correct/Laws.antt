-- ===== src/Attendance/Correct/Laws.antt =====
-- What a correction leaves in the attendance.
use guardtrak_api.Prelude.{
  ℕ, ◌-◌, ◌/◌, ◌≡◌, refl, ap, inl, inr, arith, some, ◌==◌, find_first, Option-cases, String,
  get_or_else,
}
use guardtrak_api.Errors.{ok}
use guardtrak_api.Common.Tenant.{RequestUser, require_organisation_id, tenant_not_found}
use guardtrak_api.Database.{Db, Attendance, Shift, AttendanceEventType, AuditNote}
use guardtrak_api.Environment.{Environment, Call}
use guardtrak_api.Breaks.Guards.{completed_minutes}
use guardtrak_api.Attendance.Calculation.{calculate_totals, minutes_between, clamp_minutes}
use guardtrak_api.Attendance.Lookup.{find_attendance_or_throw, write_attendance, is_attendance}
use guardtrak_api.Attendance.Correct.{
  CorrectAttendanceDto, correct, corrected, shift_totals, or_else,
}

-- What a correction that succeeds has found and written.
pub record Correction (user : RequestUser) (now id : ℕ) (dto : CorrectAttendanceDto) (db : Db)
    (result : Attendance) (db' : Db) : Type 0 where
  pub organisation_id : ℕ
  pub tenant : user.organisation_id ≡ some organisation_id
  pub attendance : Attendance
  pub found : find_first (is_attendance organisation_id id) db.attendances ≡ some attendance
  pub shift : Shift
  pub of_shift : find_first (λ s. s.id == attendance.shift_id) db.shifts ≡ some shift
  pub clock_in_at : ℕ
  pub clock_out_at : ℕ
  pub clock_in_of : or_else dto.clock_in_server_at attendance.clock_in_server_at ≡ some clock_in_at
  pub clock_out_of :
      or_else dto.clock_out_server_at attendance.clock_out_server_at ≡ some clock_out_at
  pub row :
      result
      ≡ corrected attendance clock_in_at clock_out_at
          (shift_totals shift clock_in_at clock_out_at (completed_minutes attendance.id db.breaks))
  pub reason : String
  pub written :
      db'
      ≡ write_attendance user organisation_id now result AttendanceEventType.corrected reason
          AuditNote.correct db

pub correct-Correction :
    (env : Environment) (call : Call) (user : RequestUser) (id : ℕ) (dto : CorrectAttendanceDto)
    (db : Db) (result : Attendance) (db' : Db)
    → correct env call user id dto db ≡ ok (result, db')
    → Correction user call.now id dto db result db'
unfolding correct require_organisation_id find_attendance_or_throw tenant_not_found
correct-Correction env call user id dto db result db' h = elim (Option-cases user.organisation_id) [
  | inl t ↦ absurd (ground arith)
  | inr (o, t) ↦ elim (Option-cases (find_first (is_attendance o id) db.attendances)) [
    | inl e ↦ absurd (ground arith)
    | inr (a, e) ↦ elim (Option-cases (find_first (λ s. s.id == a.shift_id) db.shifts)) [
      | inl f ↦ absurd (ground arith)
      | inr (s, f) ↦ record {
        organisation_id = o;
        tenant = t;
        attendance = a;
        found = e;
        shift = s;
        of_shift = f;
        clock_in_at = get_or_else dto.clock_in_server_at (get_or_else a.clock_in_server_at 0);
        clock_out_at = get_or_else dto.clock_out_server_at (get_or_else a.clock_out_server_at 0);
        clock_in_of = ground arith;
        clock_out_of = ground arith;
        row = ground arith;
        reason = env.trim dto.reason;
        written = ground arith;
      }
    ]
  ]
]

-- The minutes of an attendance, when its completed breaks come to `m` minutes.
pub totals_of :
    (shift : Shift) (i o m : ℕ)
    → let t = shift_totals shift i o m in
      (t.total_break_minutes ≡ m)
      × (t.gross_minutes ≡ (o - i) / 60000)
      × (t.payable_minutes ≡ (o - i) / 60000 - m)
unfolding shift_totals calculate_totals minutes_between clamp_minutes
totals_of shift i o m = ground arith

-- The minutes of a corrected attendance, when its completed breaks come to `m` minutes.
pub corrected_minutes :
    (a : Attendance) (s : Shift) (i o m : ℕ) (r : Attendance)
    → r ≡ corrected a i o (shift_totals s i o m)
    → (r.total_break_minutes ≡ m)
      × (r.gross_minutes ≡ some ((o - i) / 60000))
      × (r.payable_minutes ≡ some ((o - i) / 60000 - m))
      × (r.clock_in_server_at ≡ some i)
      × (r.clock_out_server_at ≡ some o)
      × (r.id ≡ a.id)
      × (r.status ≡ a.status)
unfolding corrected
corrected_minutes a s i o m r e =
    let (b, g, p) = totals_of s i o m in rw e (b, ap some g, ap some p, refl, refl, refl, refl)

-- A corrected attendance has both times, each from the request or, where the request has none, as
-- it was; the whole minutes between them are its gross minutes, its break minutes are those of its
-- completed breaks, and its gross minutes less these are its payable minutes, whatever unpaid break
-- the shift plans; its status is not touched.
pub correct_totals :
    (env : Environment) (call : Call) (user : RequestUser) (id : ℕ) (dto : CorrectAttendanceDto)
    (db : Db) (result : Attendance) (db' : Db)
    → correct env call user id dto db ≡ ok (result, db')
    → (clock_in clock_out : ℕ) × (before : Attendance) × (o : ℕ) × (find_first
          (is_attendance o id)
          db.attendances
        ≡ some before)
      × (result.status ≡ before.status)
      × (or_else dto.clock_in_server_at before.clock_in_server_at ≡ some clock_in)
      × (or_else dto.clock_out_server_at before.clock_out_server_at ≡ some clock_out)
      × (result.clock_in_server_at ≡ some clock_in)
      × (result.clock_out_server_at ≡ some clock_out)
      × (result.total_break_minutes ≡ completed_minutes before.id db.breaks)
      × (result.gross_minutes ≡ some ((clock_out - clock_in) / 60000))
      × (result.payable_minutes
          ≡ some ((clock_out - clock_in) / 60000 - completed_minutes before.id db.breaks))
correct_totals env call user id dto db result db' h =
    let c = correct-Correction env call user id dto db result db' h in
    let m = completed_minutes c.attendance.id db.breaks in
    let f = corrected_minutes c.attendance c.shift c.clock_in_at c.clock_out_at m result c.row in
    (
      c.clock_in_at, c.clock_out_at, c.attendance, c.organisation_id, c.found, f.6, c.clock_in_of,
      c.clock_out_of, f.3, f.4, f.0, f.1, f.2,
    )
