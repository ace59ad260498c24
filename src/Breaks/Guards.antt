-- ===== src/Breaks/Guards.antt =====
-- The checks and queries that the handlers of a break share: `assertDeviceTimeTolerance`,
-- `assertActiveDevice`, and `resolveOfficerProfileId` of
-- modules/assignments/assignment-access.service.ts.
use guardtrak_api.Prelude.{
  ℕ, ◌+◌, ◌-◌, ◌*◌, Bool, true, false, ◌&&◌, not, Option, none, some, List, leb, ◌==◌, is_some,
  get_or_else, find_first, total, if◌then◌else◌,
}
use guardtrak_api.Errors.{
  Result, ok, throw, ensure, ◌>>=◌, bad_request_400, forbidden_403, attendance_device_time_invalid,
  device_not_active, assignment_access_forbidden,
}
use guardtrak_api.Common.Tenant.{RequestUser, require_organisation_id}
use guardtrak_api.Transitions.DeviceStatus.{DeviceStatus}
use guardtrak_api.Transitions.BreakStatus.{BreakStatus}
use guardtrak_api.Database.{Db, Device, ShiftBreak}

-- `config.get('attendance.deviceTimeToleranceMinutes') ?? 10`, and the distance of two times.
unfoldable pub assert_device_time_tolerance : Option ℕ → ℕ → ℕ → Result (Unit {0})
assert_device_time_tolerance configured device_at server_at =
    let delta_ms = (device_at - server_at) + (server_at - device_at) in
    ensure (leb delta_ms (get_or_else configured 10 * 60000)) bad_request_400
      attendance_device_time_invalid

abbrev is_active_device : DeviceStatus → Bool
is_active_device DeviceStatus.active = true
is_active_device _ = false

-- `device && device.status === ACTIVE`
abbrev device_ready : Option Device → Bool
device_ready none = false
device_ready (some device) = is_active_device device.status

unfoldable pub assert_active_device : Db → RequestUser → Result (Unit {0})
unfolding find_first
assert_active_device db user = elim user.device_id [
  | none ↦ throw forbidden_403 device_not_active
  | some device_id ↦
      ensure (device_ready (find_first (λ d. d.id == device_id) db.devices)) forbidden_403
        device_not_active
]

unfoldable pub resolve_officer_profile_id : Db → RequestUser → ℕ → Result ℕ
unfolding find_first
resolve_officer_profile_id db user organisation_id =
    elim (find_first
      (λ p.
        p.user_id == user.id && p.organisation_id == organisation_id && not (is_some p.deleted_at))
      db.officers) [
        | none ↦ throw forbidden_403 assignment_access_forbidden
        | some officer ↦ ok officer.id
      ]

abbrev pub is_active : BreakStatus → Bool
is_active BreakStatus.active = true
is_active _ = false

abbrev pub is_completed : BreakStatus → Bool
is_completed BreakStatus.completed = true
is_completed _ = false

-- What a break adds to the break minutes of an attendance: its duration, once it is completed.
abbrev pub completed_part : ℕ → ShiftBreak → ℕ
completed_part attendance_id row =
    if row.attendance_id == attendance_id && is_completed row.status
    then get_or_else row.duration_minutes 0
    else 0

-- The completed breaks of an attendance, added up by `reduce`.
unfoldable pub completed_minutes : ℕ → List ShiftBreak → ℕ
unfolding total
completed_minutes attendance_id breaks = total (completed_part attendance_id) breaks

-- The organisation and the officer profile of the user, with which every handler of an officer begins.
unfoldable pub officer_of : Db → RequestUser → Result (ℕ × ℕ)
unfolding require_organisation_id resolve_officer_profile_id
officer_of db user = do
  organisation_id ← require_organisation_id user
  officer_id ← resolve_officer_profile_id db user organisation_id
  ok (organisation_id, officer_id)
