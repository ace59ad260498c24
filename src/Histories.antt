-- ===== src/Histories.antt =====
-- The attendance and break handlers together: sequences of successful requests, against the invariant
-- of Breaks/Invariant. A request that fails returns no tables.
pub mod Attendances
pub mod Bookings
use guardtrak_api.Prelude.{
  ℕ, ◌≡◌, refl, arith, Option, none, List, [], ◌∷◌, total, ◌==◌, String, find_first, find_first-All,
  All-update_where,
}
use guardtrak_api.Errors.{ok}
use guardtrak_api.Common.Tenant.{RequestUser}
use guardtrak_api.Database.{Db, Attendance, ShiftBreak, AttendanceEventType, AuditNote}
use guardtrak_api.Environment.{Environment, Call}
use guardtrak_api.Transitions.AttendanceStatus.{AttendanceStatus}
use guardtrak_api.Breaks.Guards.{completed_minutes}
use guardtrak_api.Breaks.Start.{StartBreakDto, perform_start}
use guardtrak_api.Breaks.End.{EndBreakDto, perform_end}
use guardtrak_api.Breaks.Cancel.{cancel}
use guardtrak_api.Breaks.Invariant.{Inv, has_id}
use guardtrak_api.Breaks.Preserve.{perform_start-Inv, perform_end-Inv, cancel-Inv}
use guardtrak_api.Attendance.ClockIn.{ClockInDto, new_attendance}
use guardtrak_api.Attendance.ClockIn.Perform.{write_clock_in, perform_clock_in}
use guardtrak_api.Attendance.ClockIn.Laws.{ClockedIn, perform_clock_in-ClockedIn}
use guardtrak_api.Attendance.ClockOut.{ClockOutDto}
use guardtrak_api.Attendance.ClockOut.Perform.{write_clock_out, perform_clock_out}
use guardtrak_api.Attendance.ClockOut.Laws.{
  ClockedOut, perform_clock_out-ClockedOut, ClockedOut-minutes,
}
use guardtrak_api.Attendance.Lookup.{write_attendance, is_attendance}
use guardtrak_api.Attendance.Review.{request_review, review, void_attendance}
use guardtrak_api.Attendance.Review.Outcomes.{
  Changed, review-Changed, request_review-Changed, void-Changed,
}
use guardtrak_api.Attendance.Correct.{CorrectAttendanceDto, correct}
use guardtrak_api.Attendance.Correct.Laws.{Correction, correct-Correction, corrected_minutes}

-- A write to an attendance keeps the invariant, if the row that it writes has the right break minutes.
write_attendance-Inv :
    (user : RequestUser) (o now : ℕ) (new : Attendance) (kind : AttendanceEventType)
    (reason : String) (note : AuditNote) (db : Db)
    → new.total_break_minutes ≡ completed_minutes new.id db.breaks
    → Inv db
    → Inv (write_attendance user o now new kind reason note db)
unfolding write_attendance
write_attendance-Inv user o now new kind reason note db e v = record {
  distinct = v.distinct;
  one_active = v.one_active;
  totals =
      All-update_where (λ a. a.total_break_minutes ≡ completed_minutes a.id db.breaks)
        (λ a. a.total_break_minutes ≡ completed_minutes a.id db.breaks) (λ a. a.id == new.id)
        (λ a. new) (λ a h f. e) (λ a h f. h) db.attendances v.totals;
}

Changed-Inv :
    (user : RequestUser) (now id : ℕ) (next : AttendanceStatus) (db : Db) (result : Attendance)
    (db' : Db)
    → Changed user now id next db result db'
    → Inv db
    → Inv db'
Changed-Inv user now id next db result db' c v =
    let t =
      find_first-All (λ a. a.total_break_minutes ≡ completed_minutes a.id db.breaks)
        (is_attendance c.organisation_id id) db.attendances c.attendance v.totals c.found in
    let i = c.same_id in
    let s = c.same_total in
    rw c.written (
      write_attendance-Inv user c.organisation_id now result c.kind c.reason c.note db
        (ground arith) v)

Correction-Inv :
    (user : RequestUser) (now id : ℕ) (dto : CorrectAttendanceDto) (db : Db) (result : Attendance)
    (db' : Db)
    → Correction user now id dto db result db'
    → Inv db
    → Inv db'
Correction-Inv user now id dto db result db' c v =
    let f =
      corrected_minutes c.attendance c.shift c.clock_in_at c.clock_out_at
        (completed_minutes c.attendance.id db.breaks) result c.row in
    rw c.written
      (write_attendance-Inv user c.organisation_id now result _ c.reason _ db (ground arith) v)

no_minutes :
    (id : ℕ) (breaks : List ShiftBreak)
    → find_first (λ (b : ShiftBreak). b.attendance_id == id) breaks ≡ none
    → 0 ≡ completed_minutes id breaks
unfolding find_first completed_minutes total
no_minutes id [] h = refl
no_minutes id (b ∷ breaks) h = ground (arith, no_minutes id breaks)

ClockedIn-Inv :
    (env : Environment) (call : Call) (user : RequestUser) (o f : ℕ) (dto : ClockInDto) (db : Db)
    (result : Attendance) (db' : Db)
    → find_first (λ (b : ShiftBreak). b.attendance_id == call.new_id) db.breaks ≡ none
    → ClockedIn env call user o f dto db result db'
    → Inv db
    → Inv db'
unfolding write_clock_in new_attendance
ClockedIn-Inv env call user o f dto db result db' fresh c v = rw c.written (record {
  distinct = v.distinct;
  one_active = v.one_active;
  totals = (no_minutes call.new_id db.breaks fresh, v.totals);
})

ClockedOut-Inv :
    (env : Environment) (call : Call) (user : RequestUser) (o f : ℕ) (dto : ClockOutDto) (db : Db)
    (result : Attendance) (db' : Db)
    → ClockedOut env call user o f dto db result db'
    → Inv db
    → Inv db'
unfolding write_clock_out
ClockedOut-Inv env call user o f dto db result db' c v = rw c.written (record {
  distinct = v.distinct;
  one_active = v.one_active;
  totals =
      All-update_where (λ a. a.total_break_minutes ≡ completed_minutes a.id db.breaks)
        (λ a. a.total_break_minutes ≡ completed_minutes a.id db.breaks) (λ a. a.id == result.id)
        (λ a. result) (λ a h e. ClockedOut-minutes c) (λ a h e. h) db.attendances v.totals;
})

-- One request that succeeds. A break that starts gets an identifier that is not in use.
pub data Step (env : Environment) (db db' : Db) : Type 0 where
  break_starts :
      (call : Call) (user : RequestUser) (o f : ℕ) (dto : StartBreakDto) (b : ShiftBreak)
      → find_first (has_id call.new_id) db.breaks ≡ none
      → perform_start env call user o f dto db ≡ ok (b, db')
      → Step env db db'
  break_ends :
      (call : Call) (user : RequestUser) (o f id : ℕ) (dto : EndBreakDto) (b : ShiftBreak)
      → perform_end env call user o f id dto db ≡ ok (b, db')
      → Step env db db'
  break_cancelled :
      (call : Call) (user : RequestUser) (id : ℕ) (reason : Option String) (b : ShiftBreak)
      → cancel env call user id reason db ≡ ok (b, db')
      → Step env db db'
  review_requested :
      (call : Call) (user : RequestUser) (id : ℕ) (reason : String) (a : Attendance)
      → request_review env call user id reason db ≡ ok (a, db')
      → Step env db db'
  reviewed :
      (call : Call) (user : RequestUser) (id : ℕ) (reason : String) (next : AttendanceStatus)
      (event : AttendanceEventType) (a : Attendance)
      → review env call user id reason next event db ≡ ok (a, db')
      → Step env db db'
  voids :
      (call : Call) (user : RequestUser) (id : ℕ) (reason : String) (a : Attendance)
      → void_attendance env call user id reason db ≡ ok (a, db')
      → Step env db db'
  corrects :
      (call : Call) (user : RequestUser) (id : ℕ) (dto : CorrectAttendanceDto) (a : Attendance)
      → correct env call user id dto db ≡ ok (a, db')
      → Step env db db'
  clocks_in :
      (call : Call) (user : RequestUser) (o f : ℕ) (dto : ClockInDto) (a : Attendance)
      → find_first (λ (r : Attendance). r.id == call.new_id) db.attendances ≡ none
      → find_first (λ (b : ShiftBreak). b.attendance_id == call.new_id) db.breaks ≡ none
      → perform_clock_in env call user o f dto db ≡ ok (a, db')
      → Step env db db'
  clocks_out :
      (call : Call) (user : RequestUser) (o f : ℕ) (dto : ClockOutDto) (a : Attendance)
      → perform_clock_out env call user o f dto db ≡ ok (a, db')
      → Step env db db'

Step-Inv : (env : Environment) (db db' : Db) → Step env db db' → Inv db → Inv db'
Step-Inv env db db' (break_starts call user o f dto b fresh h) v =
    perform_start-Inv env call user o f dto db b db' fresh h v
Step-Inv env db db' (break_ends call user o f id dto b h) v =
    perform_end-Inv env call user o f id dto db b db' h v
Step-Inv env db db' (break_cancelled call user id reason b h) v =
    cancel-Inv env call user id reason db b db' h v
Step-Inv env db db' (review_requested call user id reason a h) v =
    Changed-Inv user call.now id _ db a db'
      (request_review-Changed env call user id reason db a db' h) v
Step-Inv env db db' (reviewed call user id reason next event a h) v =
    Changed-Inv user call.now id next db a db'
      (review-Changed env call user id reason next event db a db' h) v
Step-Inv env db db' (voids call user id reason a h) v =
    Changed-Inv user call.now id _ db a db' (void-Changed env call user id reason db a db' h) v
Step-Inv env db db' (corrects call user id dto a h) v =
    Correction-Inv user call.now id dto db a db'
      (correct-Correction env call user id dto db a db' h) v
Step-Inv env db db' (clocks_in call user o f dto a fresh unused h) v =
    ClockedIn-Inv env call user o f dto db a db' unused
      (perform_clock_in-ClockedIn env call user o f dto db a db' h) v
Step-Inv env db db' (clocks_out call user o f dto a h) v =
    ClockedOut-Inv env call user o f dto db a db'
      (perform_clock_out-ClockedOut env call user o f dto db a db' h) v

-- Any number of requests, by any users, in any order.
pub data Reach (env : Environment) (db : Db) : Db → Type 0 where
  here : Reach env db db
  next : {db' db'' : Db} → Reach env db db' → Step env db' db'' → Reach env db db''

-- After any sequence of successful requests, one after the other, that clock in and out, that
-- start, end and cancel breaks and that review, void and correct attendances, where a break that
-- starts gets an identifier that is not in use and a clock-in gets one that no attendance has and
-- no break names, breaks have distinct identifiers, an attendance has at most one active break, and
-- its break minutes are the sum of its completed breaks, if this held at the beginning.
pub Reach-Inv : {env : Environment} {db db' : Db} → Reach env db db' → Inv db → Inv db'
Reach-Inv here v = v
Reach-Inv (next r s) v = Step-Inv _ _ _ s (Reach-Inv r v)
