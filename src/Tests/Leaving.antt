-- ===== src/Tests/Leaving.antt =====
-- An attendance that waits for a review is clocked out; a shift is worked on a later day.
use guardtrak_api.Prelude.{
  ℕ, ◌-◌, ◌/◌, ◌≤◌, ◌≡◌, ◌==◌, refl, true, false, ◌⊎◌, inl, none, some, [], ◌∷◌, arith, find_first,
  total,
}
use guardtrak_api.Prelude.Int.{JsNumber, pos, negsuc, fin, non_finite}
use guardtrak_api.Errors.{ok}
use guardtrak_api.Database.{Db, Attendance, ShiftBreak, Site}
use guardtrak_api.Calendar.{add_calendar_days, same_key}
use guardtrak_api.Timezone.{zoned_date_key}
use guardtrak_api.Transitions.AttendanceStatus.{
  AttendanceStatus, active_attendance_statuses, assert_attendance_transition,
  attendance_transitions,
}
use guardtrak_api.Breaks.Start.{own_attendance, is_active_of}
use guardtrak_api.Breaks.Guards.{
  completed_minutes, assert_device_time_tolerance, assert_active_device,
}
use guardtrak_api.Attendance.Calculation.{clamp_minutes}
use guardtrak_api.Attendance.Geofence.{
  GeofencePolicy, validate_coordinates, evaluate_geofence, apply_enforcement,
}
use guardtrak_api.Attendance.Presence.{
  check_accuracy, check_selfie, geofence_of, check_allowed, recurrence_input, needs_review,
  shift_by_id, site_by_id,
}
use guardtrak_api.Attendance.ClockOut.{
  ClockOutDto, Leaving, admit_clock_out, clock_out_totals, clocked_out_row, clock_out_status,
  check_final_note,
}
use guardtrak_api.Attendance.ClockOut.Perform.{perform_clock_out, write_clock_out}
use guardtrak_api.Attendance.ClockOut.Outcomes.{
  clock_out-holds, second_review_refused, standing_post_late,
}
use guardtrak_api.Attendance.ClockOut.Again.{IsFit, clock_out_again}
use guardtrak_api.Environment.{Environment}
use guardtrak_api.Shifts.Recurrence.{start_key, is_recurring_shift}
use guardtrak_api.Histories.{here, next, clocks_in}
use guardtrak_api.Histories.Attendances.{OneEach, Reach-OneEach}
use guardtrak_api.Attendance.ClockIn.Perform.{write_clock_in}
use guardtrak_api.Tests.{officer, call_at, attendance_with, db_with, duty, post, gate}
use guardtrak_api.Tests.Clocking.{
  clock_env, clock_in_dto, inside, found, row, no_attendance, clocked_in_now,
}

abbrev clock_out_dto : ClockOutDto
clock_out_dto = record {
  attendance_id = 100;
  device_timestamp = 28800000;
  latitude = fin (pos 88833000);
  longitude = fin (pos 130000000);
  accuracy_meters = 10;
  reason = none;
  final_shift_note = none;
  evidence_id = none;
  idempotency_key = 911;
}

abbrev waiting : Db
waiting = db_with AttendanceStatus.pending_supervisor_approval

abbrev leaving : Leaving
leaving = record {
  attendance = attendance_with AttendanceStatus.pending_supervisor_approval;
  assignment = duty;
  shift = post;
  site = gate;
  geofence = inside;
  next_status = AttendanceStatus.clocked_out;
  clock_in_server_at = 0;
}

may_leave :
    admit_clock_out clock_env (call_at 28800000) officer 10 20 clock_out_dto waiting ≡ ok leaving
unfolding admit_clock_out assert_device_time_tolerance validate_coordinates assert_active_device
    own_attendance check_accuracy check_selfie check_final_note geofence_of check_allowed find_first
    evaluate_geofence apply_enforcement clock_out_status assert_attendance_transition
    attendance_transitions active_attendance_statuses
may_leave = refl

abbrev left : Attendance
left =
    clocked_out_row clock_env (call_at 28800000) clock_out_dto leaving
      (clock_out_totals clock_env 28800000 leaving waiting)

abbrev gone : Db
gone = write_clock_out (call_at 28800000) officer 10 clock_out_dto leaving left waiting

clocked_out_now :
    perform_clock_out clock_env (call_at 28800000) officer 10 20 clock_out_dto waiting
    ≡ ok (left, gone)
unfolding perform_clock_out
clocked_out_now = rw may_leave refl

clock_out-holds_example :
    (a : Attendance) × (at : ℕ) × (own_attendance waiting 10 20 100 ≡ ok a)
    × (a.clock_in_server_at ≡ some at)
    × (active_attendance_statuses a.status ≡ true)
    × (find_first (is_active_of 100) [] ≡ none)
    × ((left.status ≡ AttendanceStatus.clocked_out)
        ⊎ (left.status ≡ AttendanceStatus.pending_supervisor_approval))
    × (left.clock_in_server_at ≡ a.clock_in_server_at)
    × (left.clock_out_server_at ≡ some 28800000)
    × (left.total_break_minutes ≡ completed_minutes 100 [])
    × (left.gross_minutes ≡ some ((28800000 - at) / 60000))
    × (left.payable_minutes ≡ some ((28800000 - at) / 60000 - completed_minutes 100 []))
clock_out-holds_example =
    clock_out-holds clock_env (call_at 28800000) officer 10 20 clock_out_dto waiting left gone
      clocked_out_now

-- A place to the west is far away.
abbrev far_west : JsNumber → ℕ
far_west (fin (pos n)) = 0
far_west (fin (negsuc n)) = 500
far_west non_finite = 0

abbrev mapped_env : Environment
mapped_env = record clock_env { distance_meters = λ a b c longitude. far_west longitude }

-- Who leaves elsewhere is reviewed.
abbrev strict_gate : Site
strict_gate = record gate {
  clock_out_outside_geofence_policy = GeofencePolicy.require_supervisor_approval;
}

abbrev at_work : Db
at_work = record (db_with AttendanceStatus.clocked_in) { sites = strict_gate ∷ [] }

abbrev elsewhere_dto : ClockOutDto
elsewhere_dto = record clock_out_dto { longitude = fin (negsuc 130000000) }

abbrev leaving_elsewhere : Leaving
leaving_elsewhere = record leaving {
  attendance = attendance_with AttendanceStatus.clocked_in;
  site = strict_gate;
  geofence = record { allowed = true; requires_review = true; outside = true };
  next_status = AttendanceStatus.pending_supervisor_approval;
}

abbrev reviewed : Attendance
reviewed =
    clocked_out_row mapped_env (call_at 28800000) elsewhere_dto leaving_elsewhere
      (clock_out_totals mapped_env 28800000 leaving_elsewhere at_work)

abbrev reviewed_db : Db
reviewed_db =
    write_clock_out (call_at 28800000) officer 10 elsewhere_dto leaving_elsewhere reviewed at_work

may_leave_elsewhere :
    admit_clock_out mapped_env (call_at 28800000) officer 10 20 elsewhere_dto at_work
    ≡ ok leaving_elsewhere
unfolding admit_clock_out assert_device_time_tolerance validate_coordinates assert_active_device
    own_attendance check_accuracy check_selfie check_final_note geofence_of check_allowed find_first
    evaluate_geofence apply_enforcement clock_out_status assert_attendance_transition
    attendance_transitions active_attendance_statuses needs_review
may_leave_elsewhere = refl

sent_to_review :
    perform_clock_out mapped_env (call_at 28800000) officer 10 20 elsewhere_dto at_work
    ≡ ok (reviewed, reviewed_db)
unfolding perform_clock_out
sent_to_review = rw may_leave_elsewhere refl

later_dto-IsFit :
    IsFit mapped_env (call_at 29000000) officer 10 clock_out_dto reviewed_db strict_gate
unfolding assert_device_time_tolerance validate_coordinates assert_active_device check_accuracy
    check_selfie check_final_note geofence_of evaluate_geofence apply_enforcement needs_review
    find_first write_clock_out
later_dto-IsFit = record {
  on_time = refl;
  position = refl;
  device = refl;
  accurate = refl;
  picture = refl;
  note = refl;
  allowed = refl;
  no_review = refl;
}

places_kept :
    (shift_by_id reviewed_db 30 ≡ some post) × (site_by_id reviewed_db 60 ≡ some strict_gate)
unfolding find_first write_clock_out
places_kept = (refl, refl)

clock_out_again_example :
    (again : Attendance) × (db'' : Db) × (at : ℕ) × (perform_clock_out mapped_env
        (call_at 29000000)
        officer
        10
        20
        clock_out_dto
        reviewed_db
      ≡ ok (again, db''))
    × (again.id ≡ 100)
    × (again.status ≡ AttendanceStatus.clocked_out)
    × (some 0 ≡ some at)
    × (again.clock_out_server_at ≡ some 29000000)
    × (again.gross_minutes ≡ some ((29000000 - at) / 60000))
unfolding clocked_out_row
clock_out_again_example =
    clock_out_again mapped_env (call_at 28800000) (call_at 29000000) officer officer 10 20
      elsewhere_dto clock_out_dto at_work reviewed reviewed_db post strict_gate sent_to_review refl
      refl places_kept.0 places_kept.1 later_dto-IsFit

own_waiting :
    own_attendance waiting 10 20 100
    ≡ ok (attendance_with AttendanceStatus.pending_supervisor_approval)
unfolding own_attendance find_first
own_waiting = refl

second_review_refused_example : left.status ≡ AttendanceStatus.clocked_out
second_review_refused_example =
    second_review_refused clock_env (call_at 28800000) officer 10 20 clock_out_dto waiting left gone
      clocked_out_now (attendance_with AttendanceStatus.pending_supervisor_approval) own_waiting
      (inl refl)

-- Two days after the one on which the shift was planned.
abbrev two_days_later : Leaving
two_days_later = record leaving {
  attendance = record (attendance_with AttendanceStatus.clocked_in) {
    occurrence_date = record { year = 1970; month = 1; day = 3 };
  };
  clock_in_server_at = 172800000;
}

another_day :
    same_key
      (record { year = 1970; month = 1; day = 3 })
      (start_key clock_env.intl (recurrence_input post))
    ≡ false
unfolding same_key start_key zoned_date_key add_calendar_days recurrence_input
another_day = refl

standing_post_late_example :
    1440 ≤ (clock_out_totals clock_env 201600000 two_days_later waiting).late_minutes
unfolding is_recurring_shift clamp_minutes
standing_post_late_example =
    standing_post_late clock_env 201600000 two_days_later waiting refl another_day (omega arith)

none-OneEach : OneEach []
unfolding total
none-OneEach = record { distinct = λ i. omega arith; one = λ i k. omega arith }

not_there : find_first (λ (a : Attendance). a.id == 50) [] ≡ none
unfolding find_first
not_there = refl

no_break_there : find_first (λ (b : ShiftBreak). b.attendance_id == 50) [] ≡ none
unfolding find_first
no_break_there = refl

Reach-OneEach_example :
    OneEach
      (write_clock_in (call_at 60000) officer 10 clock_in_dto found row no_attendance).attendances
Reach-OneEach_example =
    Reach-OneEach {env = clock_env}
      (next here (
        clocks_in (call_at 60000) officer 10 20 clock_in_dto row not_there no_break_there
          clocked_in_now))
      none-OneEach
