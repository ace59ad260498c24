-- ===== src/Histories/Attendances.antt =====
-- The same sequences of requests, and how many attendances an assignment has for one occurrence.
use guardtrak_api.Prelude.{
  ℕ, ◌≤◌, Bool, true, ◌≡◌, refl, ap, arith, none, some, List, ◌∷◌, ◌==◌, total, indicator,
  find_first, update_where, find_first-widen, find_first-none, find_first-holds, total-update_where,
  total-update_same,
}
use guardtrak_api.Common.Tenant.{RequestUser}
use guardtrak_api.Calendar.{DateKey, same_key}
use guardtrak_api.Database.{Db, Attendance}
use guardtrak_api.Environment.{Environment, Call}
use guardtrak_api.Transitions.AttendanceStatus.{AttendanceStatus}
use guardtrak_api.Breaks.Start.{insert_break}
use guardtrak_api.Breaks.End.{write_end}
use guardtrak_api.Breaks.Cancel.{write_cancel}
use guardtrak_api.Breaks.Outcomes.{perform_start-Started, perform_end-Ended, cancel-Cancelled}
use guardtrak_api.Attendance.Lookup.{write_attendance, is_attendance}
use guardtrak_api.Attendance.Review.Outcomes.{
  Changed, review-Changed, request_review-Changed, void-Changed,
}
use guardtrak_api.Attendance.Correct.{corrected}
use guardtrak_api.Attendance.Correct.Laws.{correct-Correction}
use guardtrak_api.Attendance.ClockIn.{ClockInDto, new_attendance, is_of_occurrence, is_taken}
use guardtrak_api.Attendance.ClockIn.Perform.{write_clock_in}
use guardtrak_api.Attendance.ClockIn.Laws.{ClockedIn, perform_clock_in-ClockedIn}
use guardtrak_api.Attendance.ClockOut.{ClockOutDto, clocked_out_row}
use guardtrak_api.Attendance.ClockOut.Perform.{write_clock_out}
use guardtrak_api.Attendance.ClockOut.Laws.{
  ClockedOut, perform_clock_out-ClockedOut, admit_clock_out-IsLeaving, own-found,
}
use guardtrak_api.Histories.{Step, Reach, here, next}

abbrev has_attendance_id : ℕ → Attendance → Bool
has_attendance_id id a = a.id == id

-- Attendances have distinct identifiers, and an assignment has at most one for an occurrence.
pub record OneEach (attendances : List Attendance) : Type 0 where
  pub distinct : (i : ℕ) → total (indicator (has_attendance_id i)) attendances ≤ 1
  pub one : (i : ℕ) (k : DateKey) → total (indicator (is_of_occurrence i k)) attendances ≤ 1

-- A row that replaces the one found, of the same assignment and occurrence.
replaced-OneEach :
    (attendances : List Attendance) (o id : ℕ) (old new : Attendance)
    → find_first (is_attendance o id) attendances ≡ some old
    → new.id ≡ old.id
    → new.assignment_id ≡ old.assignment_id
    → new.occurrence_date ≡ old.occurrence_date
    → OneEach attendances
    → OneEach (update_where (λ a. a.id == new.id) (λ a. new) attendances)
unfolding is_of_occurrence same_key
replaced-OneEach attendances o id old new found i s d v =
    let h = find_first-holds (is_attendance o id) attendances old found in
    let by_id =
      find_first-widen (is_attendance o id) (has_attendance_id new.id) (λ r e. ground arith)
        attendances old (v.distinct new.id) found in
    let sum = λ (weight : Attendance → ℕ).
      total-update_where weight (has_attendance_id new.id) (λ a. new) attendances old
        (v.distinct new.id) by_id in
    record {
      distinct = λ j. ground (arith, v.distinct j, sum (indicator (has_attendance_id j)));
      one = λ j k. ground (arith, v.one j k, sum (indicator (is_of_occurrence j k)));
    }

same_key-eq : (a b : DateKey) → same_key a b ≡ true → a ≡ b
unfolding same_key
same_key-eq a b h = ground arith

-- A row of another identifier, for an occurrence that has none.
added-OneEach :
    (attendances : List Attendance) (new : Attendance)
    → total (indicator (has_attendance_id new.id)) attendances ≡ 0
    → total (indicator (is_of_occurrence new.assignment_id new.occurrence_date)) attendances ≡ 0
    → OneEach attendances
    → OneEach (new ∷ attendances)
unfolding total is_of_occurrence
added-OneEach attendances new unused free v = record {
  distinct = λ j. ground (
    arith,
    v.distinct j,
    λ (e : new.id ≡ j). ap (λ i. total (indicator (has_attendance_id i)) attendances) e,
  );
  one = λ j k. ground (
    arith,
    v.one j k,
    same_key-eq new.occurrence_date k,
    λ (e : new.assignment_id ≡ j).
        ap (λ i. total (indicator (is_of_occurrence i new.occurrence_date)) attendances) e,
    λ (e : new.occurrence_date ≡ k).
        ap (λ d. total (indicator (is_of_occurrence j d)) attendances) e,
  );
}

-- An update that keeps the identifiers and the occurrences.
kept-OneEach :
    (where_ : Attendance → Bool) (change : Attendance → Attendance)
    → ((a : Attendance) → (change a).id ≡ a.id)
    → ((a : Attendance) → (change a).assignment_id ≡ a.assignment_id)
    → ((a : Attendance) → (change a).occurrence_date ≡ a.occurrence_date)
    → (attendances : List Attendance) → OneEach attendances
    → OneEach (update_where where_ change attendances)
unfolding is_of_occurrence same_key
kept-OneEach where_ change i s d attendances v = record {
  distinct = λ j.
      rw
        (total-update_same (indicator (has_attendance_id j)) where_ change
          (λ a. ground (arith, i a)) attendances)
        (v.distinct j);
  one = λ j k.
      rw
        (total-update_same (indicator (is_of_occurrence j k)) where_ change
          (λ a. ground (arith, s a, d a)) attendances)
        (v.one j k);
}

Changed-OneEach :
    (user : RequestUser) (now id : ℕ) (status : AttendanceStatus) (db : Db) (result : Attendance)
    (db' : Db)
    → Changed user now id status db result db'
    → OneEach db.attendances
    → OneEach db'.attendances
unfolding write_attendance
Changed-OneEach user now id status db result db' c v = rw c.written (
    replaced-OneEach db.attendances c.organisation_id id c.attendance result c.found c.same_id
      c.same_assignment c.same_date v)

ClockedIn-OneEach :
    (env : Environment) (call : Call) (user : RequestUser) (o f : ℕ) (dto : ClockInDto) (db : Db)
    (result : Attendance) (db' : Db)
    → find_first (has_attendance_id call.new_id) db.attendances ≡ none
    → ClockedIn env call user o f dto db result db'
    → OneEach db.attendances
    → OneEach db'.attendances
unfolding write_clock_in new_attendance is_taken
ClockedIn-OneEach env call user o f dto db result db' fresh c v =
    let new = new_attendance env call o f dto c.a in
    let free = c.free in
    rw c.written (
      added-OneEach db.attendances new
        (find_first-none (has_attendance_id call.new_id) db.attendances fresh)
        (find_first-none (is_of_occurrence c.a.assignment.id c.a.occurrence.date_key) db.attendances
          (ground arith))
        v)

ClockedOut-OneEach :
    (env : Environment) (call : Call) (user : RequestUser) (o f : ℕ) (dto : ClockOutDto) (db : Db)
    (result : Attendance) (db' : Db)
    → ClockedOut env call user o f dto db result db'
    → OneEach db.attendances
    → OneEach db'.attendances
unfolding write_clock_out clocked_out_row
ClockedOut-OneEach env call user o f dto db result db' c v =
    let i = admit_clock_out-IsLeaving env call user o f dto db c.l c.admitted in
    rw c.written (
      replaced-OneEach db.attendances o dto.attendance_id c.l.attendance result
        (own-found db o f dto.attendance_id c.l.attendance i.own) (rw c.row refl) (rw c.row refl)
        (rw c.row refl) v)

Step-OneEach :
    (env : Environment) (db db' : Db)
    → Step env db db'
    → OneEach db.attendances
    → OneEach db'.attendances
unfolding insert_break write_end write_cancel write_attendance corrected
Step-OneEach env db db' (Step.break_starts call user o f dto b fresh h) v =
    rw (perform_start-Started env call user o f dto db b db' h).written v
Step-OneEach env db db' (Step.break_ends call user o f id dto b h) v =
    rw (perform_end-Ended env call user o f id dto db b db' h).written
      (kept-OneEach _ _ (λ a. refl) (λ a. refl) (λ a. refl) db.attendances v)
Step-OneEach env db db' (Step.break_cancelled call user id reason b h) v =
    rw (cancel-Cancelled env call user id reason db b db' h).written v
Step-OneEach env db db' (Step.review_requested call user id reason a h) v =
    Changed-OneEach user call.now id _ db a db'
      (request_review-Changed env call user id reason db a db' h) v
Step-OneEach env db db' (Step.reviewed call user id reason status event a h) v =
    Changed-OneEach user call.now id status db a db'
      (review-Changed env call user id reason status event db a db' h) v
Step-OneEach env db db' (Step.voids call user id reason a h) v =
    Changed-OneEach user call.now id _ db a db' (void-Changed env call user id reason db a db' h) v
Step-OneEach env db db' (Step.corrects call user id dto a h) v =
    let c = correct-Correction env call user id dto db a db' h in
    rw c.written (
      replaced-OneEach db.attendances c.organisation_id id c.attendance a c.found (rw c.row refl)
        (rw c.row refl) (rw c.row refl) v)
Step-OneEach env db db' (Step.clocks_in call user o f dto a fresh unused h) v =
    ClockedIn-OneEach env call user o f dto db a db' fresh
      (perform_clock_in-ClockedIn env call user o f dto db a db' h) v
Step-OneEach env db db' (Step.clocks_out call user o f dto a h) v =
    ClockedOut-OneEach env call user o f dto db a db'
      (perform_clock_out-ClockedOut env call user o f dto db a db' h) v

-- After any sequence of successful requests, one after the other, that clock in and out, that
-- start, end and cancel breaks and that review, void and correct attendances, where a break that
-- starts gets an identifier that is not in use and a clock-in gets one that no attendance has and
-- no break names, attendances have distinct identifiers, and an assignment has at most one
-- attendance for an occurrence, if this held at the beginning.
pub Reach-OneEach :
    {env : Environment} {db db' : Db}
    → Reach env db db'
    → OneEach db.attendances
    → OneEach db'.attendances
Reach-OneEach here v = v
Reach-OneEach (next r s) v = Step-OneEach _ _ _ s (Reach-OneEach r v)
