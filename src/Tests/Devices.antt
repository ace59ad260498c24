-- ===== src/Tests/Devices.antt =====
-- A device that is blocked, retired and activated again.
use guardtrak_api.Prelude.{ℕ, ◌≡◌, ◌≢◌, refl, true, ◌⊎◌, none, some, [], ◌∷◌, arith, find_first}
use guardtrak_api.Errors.{ok}
use guardtrak_api.Common.Tenant.{
  RequestUser, UserRole, Permission, user_has_permission, require_organisation_id,
  assert_permission, assert_same_organisation,
}
use guardtrak_api.Transitions.DeviceStatus.{
  DeviceStatus, same, assert_device_transition_allowed, required_permission_for_transition,
  is_activation_transition,
}
use guardtrak_api.Devices.{
  DeviceRow, Tables, UpdateDeviceStatusDto, is_device, find_device_or_throw, with_status,
  write_status, update_status, retire,
}
use guardtrak_api.Database.{AuditAction}
use guardtrak_api.Devices.Rights.{activation_authorised, retire_then_approve}
use guardtrak_api.Devices.Sessions.{IsSignedOut, update_status-IsSignedOut}

abbrev administrator : RequestUser
administrator = record {
  id = 3;
  role = UserRole.administrator;
  organisation_id = some 10;
  device_id = none;
  permissions = Permission.device_approve ∷ Permission.device_revoke ∷ Permission.device_block ∷ [];
}

abbrev device_with : DeviceStatus → DeviceRow
device_with status = record {
  id = 5;
  organisation_id = 10;
  user_id = 1;
  status = status;
  trusted_at = none;
  revoked_at = none;
  trust_score = 60;
}

abbrev tables_with : DeviceStatus → Tables
tables_with status = record { devices = device_with status ∷ []; sessions = []; audit_logs = [] }

-- The device is active, and two sessions live, one of them on it.
abbrev signed_in : Tables
signed_in = record (tables_with DeviceStatus.active) {
  sessions =
      record { user_id = 1; device_id = some 5; revoked_at = none }
      ∷ record { user_id = 2; device_id = some 6; revoked_at = none }
      ∷ [];
}

abbrev to_status : DeviceStatus → UpdateDeviceStatusDto
to_status status = record { status = status; reason = none }

activated :
    update_status 100 administrator 5
      (to_status DeviceStatus.active)
      (tables_with DeviceStatus.pending)
    ≡ ok (
      with_status 100 DeviceStatus.active (device_with DeviceStatus.pending),
      write_status administrator 10 100 AuditAction.update none
          (device_with DeviceStatus.pending)
          DeviceStatus.active
          (tables_with DeviceStatus.pending),
    )
unfolding update_status require_organisation_id find_device_or_throw same
    required_permission_for_transition assert_permission is_activation_transition
    assert_device_transition_allowed assert_same_organisation user_has_permission find_first
activated = refl

activation_authorised_example :
    (o : ℕ) × (device : DeviceRow) × (administrator.organisation_id ≡ some o)
    × (find_first (is_device o 5) (device_with DeviceStatus.pending ∷ []) ≡ some device)
    × ((with_status 100 DeviceStatus.active (device_with DeviceStatus.pending)).status
        ≡ DeviceStatus.active)
    × ((device.status ≡ DeviceStatus.active)
        ⊎ ((device.user_id ≢ 3)
            × (((device.status ≢ DeviceStatus.blocked)
                  × (user_has_permission administrator Permission.device_approve ≡ true))
                ⊎ ((device.status ≡ DeviceStatus.blocked)
                    × (user_has_permission administrator Permission.device_unblock ≡ true)))))
activation_authorised_example =
    activation_authorised 100 administrator 5 (to_status DeviceStatus.active)
      (tables_with DeviceStatus.pending) _ _ activated refl

blocking :
    update_status 100 administrator 5 (to_status DeviceStatus.blocked) signed_in
    ≡ ok (
      with_status 100 DeviceStatus.blocked (device_with DeviceStatus.active),
      write_status administrator 10 100 AuditAction.update none
          (device_with DeviceStatus.active)
          DeviceStatus.blocked
          signed_in,
    )
unfolding update_status require_organisation_id find_device_or_throw same
    required_permission_for_transition assert_permission is_activation_transition
    assert_device_transition_allowed assert_same_organisation user_has_permission find_first
blocking = refl

signed_in-IsSignedOut : IsSignedOut signed_in
signed_in-IsSignedOut = (λ gone. absurd (ground arith), tt)

update_status-IsSignedOut_example : IsSignedOut (
    write_status administrator 10 100 AuditAction.update none
      (device_with DeviceStatus.active)
      DeviceStatus.blocked
      signed_in)
update_status-IsSignedOut_example =
    update_status-IsSignedOut 100 administrator 5 (to_status DeviceStatus.blocked) signed_in _ _
      blocking signed_in-IsSignedOut

retired :
    retire 100 administrator 5 (tables_with DeviceStatus.blocked)
    ≡ ok (
      tt,
      write_status administrator 10 100 AuditAction.delete none
          (device_with DeviceStatus.blocked)
          DeviceStatus.revoked
          (tables_with DeviceStatus.blocked),
    )
unfolding retire require_organisation_id find_device_or_throw same assert_permission
    assert_same_organisation user_has_permission find_first
retired = refl

blocked_found :
    find_first (is_device 10 5) (device_with DeviceStatus.blocked ∷ [])
    ≡ some (device_with DeviceStatus.blocked)
unfolding find_first
blocked_found = refl

may_approve : user_has_permission administrator Permission.device_approve ≡ true
unfolding user_has_permission
may_approve = refl

retire_then_approve_example :
    (device' : DeviceRow) × (tables'' : Tables) × (update_status 200 administrator 5
        (to_status DeviceStatus.active)
        (write_status administrator 10 100 AuditAction.delete none
          (device_with DeviceStatus.blocked)
          DeviceStatus.revoked
          (tables_with DeviceStatus.blocked))
      ≡ ok (device', tables''))
retire_then_approve_example =
    retire_then_approve 100 200 administrator administrator 5 10 (tables_with DeviceStatus.blocked)
      _ (device_with DeviceStatus.blocked) blocked_found refl refl (λ e. omega arith) may_approve
      retired
