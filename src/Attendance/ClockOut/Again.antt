-- ===== src/Attendance/ClockOut/Again.antt =====
-- A second clock-out of an attendance that waits for a review.
use guardtrak_api.Prelude.{
  ℕ, ◌-◌, ◌/◌, Bool, true, false, ◌≡◌, refl, ap, ◌∙◌, inl, inr, none, some, List, [], ◌∷◌,
  find_first, update_where, Bool-cases, if_both,
}
use guardtrak_api.Errors.{ok}
use guardtrak_api.Common.Tenant.{RequestUser}
use guardtrak_api.Environment.{Environment, Call}
use guardtrak_api.Database.{Db, Attendance, Assignment, Shift, Site}
use guardtrak_api.Transitions.AttendanceStatus.{
  AttendanceStatus, active_attendance_statuses, assert_attendance_transition,
  attendance_transitions,
}
use guardtrak_api.Breaks.Guards.{assert_device_time_tolerance, assert_active_device}
use guardtrak_api.Breaks.Start.{own_attendance, is_active_of}
use guardtrak_api.Attendance.Geofence.{GeofenceEvaluationResult, validate_coordinates}
use guardtrak_api.Attendance.Presence.{
  has_assignment_id, assignment_by_id, shift_by_id, site_by_id, check_selfie, check_accuracy,
  geofence_of, check_allowed, needs_review,
}
use guardtrak_api.Attendance.ClockOut.{
  ClockOutDto, Leaving, admit_clock_out, clock_out_totals, clocked_out_row, clock_out_status,
  check_final_note,
}
use guardtrak_api.Attendance.ClockOut.Perform.{
  is_in_progress, leave_assignment, write_clock_out, perform_clock_out,
}
use guardtrak_api.Attendance.ClockOut.Laws.{perform_clock_out-ClockedOut, admit_clock_out-IsLeaving}
use guardtrak_api.Attendance.Correct.Laws.{totals_of}
use guardtrak_api.Attendance.ClockOut.Outcomes.{clock_out-holds, found_again}

abbrev place_of : Environment → Site → ClockOutDto → GeofenceEvaluationResult
place_of env site dto =
    geofence_of env site site.clock_out_radius_meters site.clock_out_outside_geofence_policy
      dto.latitude dto.longitude dto.reason

-- A request to clock out that passes the checks of its clock, device, position, picture and note at the
-- site, is allowed there and needs no review.
pub record IsFit (env : Environment) (call : Call) (user : RequestUser) (o : ℕ) (dto : ClockOutDto)
    (db : Db) (site : Site) : Type 0 where
  pub on_time :
      assert_device_time_tolerance env.device_time_tolerance_minutes dto.device_timestamp call.now
      ≡ ok tt
  pub position : validate_coordinates dto.latitude dto.longitude ≡ ok tt
  pub device : assert_active_device db user ≡ ok tt
  pub accurate : check_accuracy env site dto.accuracy_meters ≡ ok tt
  pub picture : check_selfie db o user site.requires_clock_out_selfie dto.evidence_id ≡ ok tt
  pub note : check_final_note env site dto.final_shift_note ≡ ok tt
  pub allowed : (place_of env site dto).allowed ≡ true
  pub no_review : needs_review env (place_of env site dto) ≡ false

still_found :
    (p where_ : Assignment → Bool) (change : Assignment → Assignment)
    → ((r : Assignment) → p (change r) ≡ p r)
    → (rows : List Assignment) (row : Assignment) → find_first p rows ≡ some row
    → (after : Assignment) × (find_first p (update_where where_ change rows) ≡ some after)
unfolding find_first update_where
still_found p where_ change same [] row h = cc
still_found p where_ change same (r ∷ rows) row h = elim (Bool-cases (p r)) [
  | inl fits ↦ elim (Bool-cases (where_ r)) [
    | inl e ↦ (change r, rw (e, same r, fits) refl)
    | inr e ↦ (r, rw (e, fits) refl)
  ]
  | inr other ↦
      let (after, f) = still_found p where_ change same rows row (rw (other) at h) in
      elim (Bool-cases (where_ r)) [
        | inl e ↦ (after, rw (e, same r, other) f)
        | inr e ↦ (after, rw (e, other) f)
      ]
]

assignment_stays :
    (now id : ℕ) (left : Assignment) (recurring : Bool) (rows : List Assignment) (row : Assignment)
    → find_first (has_assignment_id id) rows ≡ some row
    → (after : Assignment) × (find_first
          (has_assignment_id id)
          (leave_assignment now left recurring rows)
        ≡ some after)
unfolding leave_assignment
assignment_stays now id left recurring rows row h = elim (Bool-cases (is_in_progress left.status)) [
  | inr e ↦ rw (e, leave_assignment) (row, h)
  | inl e ↦
      rw (e, leave_assignment)
        (still_found (has_assignment_id id) (has_assignment_id left.id) _
          (λ r.
            if_both (λ x. (has_assignment_id id x ≡ has_assignment_id id r)) recurring (λ q. refl)
              (λ q. refl))
          rows row h)
]

admitted :
    (env : Environment) (call : Call) (user : RequestUser) (o f : ℕ) (dto : ClockOutDto) (db : Db)
    (a : Attendance) (at : ℕ) (assignment : Assignment) (shift : Shift) (site : Site)
    → own_attendance db o f dto.attendance_id ≡ ok a
    → a.status ≡ AttendanceStatus.pending_supervisor_approval
    → a.clock_in_server_at ≡ some at
    → shift_by_id db a.shift_id ≡ some shift
    → site_by_id db a.site_id ≡ some site
    → assignment_by_id db a.assignment_id ≡ some assignment
    → find_first (is_active_of a.id) db.breaks ≡ none
    → IsFit env call user o dto db site
    → admit_clock_out env call user o f dto db
      ≡ ok (record {
        attendance = a;
        assignment = assignment;
        shift = shift;
        site = site;
        geofence = place_of env site dto;
        next_status = AttendanceStatus.clocked_out;
        clock_in_server_at = at;
      })
unfolding admit_clock_out check_allowed clock_out_status assert_attendance_transition
    attendance_transitions active_attendance_statuses
admitted env call user o f dto db a at assignment shift site own s i e1 e2 e3 b x =
    rw
      (
        x.on_time, x.position, x.device, own, e1, e2, e3, s, b, x.accurate, x.picture, x.note,
        x.allowed, x.no_review, i,
      )
      refl

module _ (env : Environment) (call : Call) (user : RequestUser) (o f : ℕ) (dto : ClockOutDto)
    (db : Db) (result : Attendance) (db' : Db)
    (out : perform_clock_out env call user o f dto db ≡ ok (result, db')) where
  no_break_after : find_first (is_active_of result.id) db'.breaks ≡ none
  unfolding write_clock_out clocked_out_row
  no_break_after =
      let c = perform_clock_out-ClockedOut env call user o f dto db result db' out in
      let i = admit_clock_out-IsLeaving env call user o f dto db c.l c.admitted in
      rw (c.written, c.row) i.no_break

  assignment_after : (after : Assignment) × (assignment_by_id db' result.assignment_id ≡ some after)
  unfolding write_clock_out clocked_out_row
  assignment_after =
      let c = perform_clock_out-ClockedOut env call user o f dto db result db' out in
      let i = admit_clock_out-IsLeaving env call user o f dto db c.l c.admitted in
      rw (c.written, c.row)
        (assignment_stays call.now c.l.attendance.assignment_id c.l.assignment _ db.assignments
          c.l.assignment i.of_assignment)

-- After a clock-out that was sent to review, the same attendance can be clocked out a second time:
-- a request for it right after, by whichever user acts for the officer, that passes the checks of
-- clock, device, position, picture and note and needs no review at the site succeeds, if the shift
-- and the site are there, and leaves the attendance clocked out with its own time as the end and
-- the gross minutes up to then.
pub clock_out_again :
    (env : Environment) (call call' : Call) (user user' : RequestUser) (o f : ℕ)
    (dto dto' : ClockOutDto) (db : Db) (result : Attendance) (db' : Db) (shift : Shift)
    (site : Site)
    → perform_clock_out env call user o f dto db ≡ ok (result, db')
    → result.status ≡ AttendanceStatus.pending_supervisor_approval
    → dto'.attendance_id ≡ dto.attendance_id
    → shift_by_id db' result.shift_id ≡ some shift
    → site_by_id db' result.site_id ≡ some site
    → IsFit env call' user' o dto' db' site
    → (again : Attendance) × (db'' : Db) × (at : ℕ) × (perform_clock_out env call' user' o f dto'
          db'
        ≡ ok (again, db''))
      × (again.id ≡ result.id)
      × (again.status ≡ AttendanceStatus.clocked_out)
      × (result.clock_in_server_at ≡ some at)
      × (again.clock_out_server_at ≡ some call'.now)
      × (again.gross_minutes ≡ some ((call'.now - at) / 60000))
unfolding perform_clock_out clocked_out_row clock_out_totals
clock_out_again env call call' user user' o f dto dto' db result db' shift site out s same e1 e2 x =
    let holds = clock_out-holds env call user o f dto db result db' out in
    let at = holds.1 in
    let clocked_in = holds.7 ∙ holds.3 in
    let (assignment, e3) = assignment_after env call user o f dto db result db' out in
    let own : own_attendance db' o f dto'.attendance_id ≡ ok result =
      rw same (found_again env call user o f dto db result db' out) in
    let l : Leaving = record {
      attendance = result;
      assignment = assignment;
      shift = shift;
      site = site;
      geofence = place_of env site dto';
      next_status = AttendanceStatus.clocked_out;
      clock_in_server_at = at;
    } in
    let go =
      admitted env call' user' o f dto' db' result at assignment shift site own s clocked_in e1 e2
        e3 (no_break_after env call user o f dto db result db' out) x in
    let again = clocked_out_row env call' dto' l (clock_out_totals env call'.now l db') in
    (
      again,
      write_clock_out call' user' o dto' l again db',
      at,
      rw (go, perform_clock_out) refl,
      refl,
      refl,
      clocked_in,
      refl,
      ap some (totals_of _ at call'.now _).1,
    )
