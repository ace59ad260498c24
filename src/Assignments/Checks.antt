-- ===== src/Assignments/Checks.antt =====
-- The checks of modules/assignments/assignments.service.ts before an assignment is made.
use guardtrak_api.Prelude.{
  ℕ, ◌+◌, Bool, true, false, ◌&&◌, ◌||◌, not, Option, none, some, ◌==◌, is_some, find_first,
  get_or_else, if◌then◌else◌,
}
use guardtrak_api.Errors.{
  Result, ok, throw, ensure, conflict_409, bad_request_400, shift_not_found,
  assignment_shift_invalid, shift_site_inactive, officer_not_found, assignment_officer_inactive,
  assignment_supervisor_invalid, assignment_duplicate, assignment_time_conflict,
}
use guardtrak_api.Common.Tenant.{tenant_not_found}
use guardtrak_api.Database.{
  Db, Assignment, Shift, Site, SiteStatus, OfficerProfile, OfficerEmploymentStatus,
}
use guardtrak_api.Transitions.ShiftStatus.{ShiftStatus}
use guardtrak_api.Transitions.AssignmentStatus.{active_assignment_statuses}
use guardtrak_api.Timezone.{Intl}
use guardtrak_api.Shifts.Schedule.{ranges_overlap}
use guardtrak_api.Shifts.Recurrence.{is_recurring_shift}
use guardtrak_api.Shifts.Recurrence.Range.{recurrences_overlap}
use guardtrak_api.Attendance.Presence.{recurrence_input, shift_by_id, site_by_id}

-- DRAFT and SCHEDULED, and IN_PROGRESS where it is allowed.
abbrev pub is_assignable : Bool → ShiftStatus → Bool
is_assignable allow_in_progress ShiftStatus.draft = true
is_assignable allow_in_progress ShiftStatus.scheduled = true
is_assignable allow_in_progress ShiftStatus.in_progress = allow_in_progress
is_assignable allow_in_progress _ = false

abbrev is_active_site_status : SiteStatus → Bool
is_active_site_status SiteStatus.active = true
is_active_site_status _ = false

-- The site is there, not deleted, and ACTIVE.
abbrev pub is_open_site : Option Site → Bool
is_open_site none = false
is_open_site (some site) = not (is_some site.deleted_at) && is_active_site_status site.status

abbrev pub is_shift_of : ℕ → ℕ → Shift → Bool
is_shift_of organisation_id id s =
    s.id == id && (s.organisation_id == organisation_id && not (is_some s.deleted_at))

unfoldable pub load_assignable_shift : Db → ℕ → ℕ → Bool → Result Shift
unfolding tenant_not_found
load_assignable_shift db organisation_id shift_id allow_in_progress =
    elim (find_first (is_shift_of organisation_id shift_id) db.shifts) [
      | none ↦ tenant_not_found shift_not_found
      | some shift ↦
          if is_assignable allow_in_progress shift.status
          then (if is_open_site (site_by_id db shift.site_id)
              then ok shift
              else throw conflict_409 shift_site_inactive)
          else throw conflict_409 assignment_shift_invalid
    ]

abbrev is_employed : OfficerEmploymentStatus → Bool
is_employed OfficerEmploymentStatus.active = true
is_employed _ = false

abbrev pub is_officer_of : ℕ → ℕ → OfficerProfile → Bool
is_officer_of organisation_id id p =
    p.id == id && (p.organisation_id == organisation_id && not (is_some p.deleted_at))

unfoldable pub assert_officer_assignable : Db → ℕ → ℕ → Result (Unit {0})
unfolding tenant_not_found
assert_officer_assignable db organisation_id officer_id =
    elim (find_first (is_officer_of organisation_id officer_id) db.officers) [
      | none ↦ tenant_not_found officer_not_found
      | some officer ↦
          ensure (is_employed officer.employment_status) conflict_409 assignment_officer_inactive
    ]

-- Nothing is checked where no supervisor is named.
unfoldable pub assert_supervisor_assignable : Db → ℕ → Option ℕ → Result (Unit {0})
assert_supervisor_assignable db organisation_id none = ok tt
assert_supervisor_assignable db organisation_id (some supervisor_id) =
    ensure
      (is_some (
        find_first
          (λ p.
            p.id == supervisor_id
            && (p.organisation_id == organisation_id && not (is_some p.deleted_at)))
          db.supervisors))
      bad_request_400 assignment_supervisor_invalid

-- The active assignments of an officer to a shift.
unfoldable pub is_active_for : ℕ → ℕ → ℕ → Assignment → Bool
is_active_for organisation_id shift_id officer_id a =
    a.organisation_id == organisation_id
    && (a.shift_id == shift_id
        && (a.officer_id == officer_id && active_assignment_statuses a.status))

unfoldable pub assert_no_duplicate : Db → ℕ → ℕ → ℕ → Result (Unit {0})
assert_no_duplicate db organisation_id shift_id officer_id =
    ensure
      (not
        (is_some (find_first (is_active_for organisation_id shift_id officer_id) db.assignments)))
      conflict_409 assignment_duplicate

-- `proposedShift.recurrenceEndAt`, or else 62 days after its start.
unfoldable pub window_end : Shift → ℕ
window_end proposed =
    get_or_else proposed.recurrence_end_at (proposed.scheduled_start_at + 5356800000)

-- Whether another shift overlaps with the proposed one.
unfoldable pub shifts_overlap : Intl → Shift → Shift → Bool
unfolding recurrence_input window_end
shifts_overlap intl proposed other =
    if is_recurring_shift (some proposed.recurrence_type)
      || is_recurring_shift (some other.recurrence_type)
    then recurrences_overlap intl (recurrence_input proposed) (recurrence_input other)
        proposed.scheduled_start_at (window_end proposed)
    else ranges_overlap other.scheduled_start_at other.scheduled_end_at proposed.scheduled_start_at
        proposed.scheduled_end_at

-- An assignment that is left out, where there is one.
abbrev pub is_ignored : Option ℕ → Assignment → Bool
is_ignored none a = false
is_ignored (some id) a = a.id == id

-- The shift of an assignment, where it is not deleted, overlaps.
abbrev pub shift_overlaps : Intl → Shift → Option Shift → Bool
shift_overlaps intl proposed none = false
shift_overlaps intl proposed (some other) =
    not (is_some other.deleted_at) && shifts_overlap intl proposed other

-- An active assignment of the officer that stands in the way.
unfoldable pub conflicts : Intl → Db → ℕ → ℕ → Shift → Option ℕ → Assignment → Bool
conflicts intl db organisation_id officer_id proposed ignored a =
    (a.organisation_id == organisation_id
      && (a.officer_id == officer_id
          && (a.is_active && (active_assignment_statuses a.status && not (is_ignored ignored a)))))
    && shift_overlaps intl proposed (shift_by_id db a.shift_id)

unfoldable pub assert_no_overlap : Intl → Db → ℕ → ℕ → Shift → Option ℕ → Result (Unit {0})
assert_no_overlap intl db organisation_id officer_id proposed ignored =
    ensure
      (not (
        is_some (
          find_first (conflicts intl db organisation_id officer_id proposed ignored)
            db.assignments)))
      conflict_409 assignment_time_conflict
