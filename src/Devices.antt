-- ===== src/Devices.antt =====
-- modules/devices/devices.service.ts, the operations that change a device: `updateStatus` and `retire`.
-- The code writes no negative trust score, and no null.
pub mod Sessions
pub mod Rights
use guardtrak_api.Prelude.{
  ℕ, ◌+◌, Bool, true, false, not, ◌&&◌, Option, none, some, List, [], ◌∷◌, ◌==◌, leb, is_some,
  String, find_first, update_where, if◌then◌else◌,
}
use guardtrak_api.Errors.{
  Result, ok, throw, ensure, ◌>>=◌, ◌>>◌, forbidden_403, not_found_404, device_not_found,
  device_access_forbidden,
}
use guardtrak_api.Common.Tenant.{
  RequestUser, Permission, require_organisation_id, assert_same_organisation, assert_permission,
}
use guardtrak_api.Database.{AuditAction}
use guardtrak_api.Transitions.DeviceStatus.{
  DeviceStatus, same, DevicePermission, assert_device_transition_allowed,
  required_permission_for_transition, should_revoke_sessions, is_activation_transition,
}

pub record DeviceRow : Type 0 where
  pub id : ℕ
  pub organisation_id : ℕ
  pub user_id : ℕ
  pub status : DeviceStatus
  pub trusted_at : Option ℕ
  pub revoked_at : Option ℕ
  pub trust_score : ℕ

pub record RefreshSession : Type 0 where
  pub user_id : ℕ
  pub device_id : Option ℕ
  pub revoked_at : Option ℕ

pub record DeviceAudit : Type 0 where
  pub organisation_id : ℕ
  pub actor_user_id : ℕ
  pub action : AuditAction
  pub entity_id : ℕ
  pub previous_status : DeviceStatus
  pub new_status : DeviceStatus
  pub reason : Option String

pub record Tables : Type 0 where
  pub devices : List DeviceRow
  pub sessions : List RefreshSession
  pub audit_logs : List DeviceAudit

pub record UpdateDeviceStatusDto : Type 0 where
  pub status : DeviceStatus
  pub reason : Option String

abbrev pub is_device : ℕ → ℕ → DeviceRow → Bool
is_device organisation_id id d = d.id == id && d.organisation_id == organisation_id

unfoldable pub find_device_or_throw : Tables → ℕ → ℕ → Result DeviceRow
unfolding assert_same_organisation
find_device_or_throw tables organisation_id id =
    elim (find_first (is_device organisation_id id) tables.devices) [
      | none ↦ throw not_found_404 device_not_found
      | some device ↦ do assert_same_organisation organisation_id device.organisation_id; ok device
    ]

abbrev pub permission_of : DevicePermission → Permission
permission_of DevicePermission.device_approve = Permission.device_approve
permission_of DevicePermission.device_unblock = Permission.device_unblock
permission_of DevicePermission.device_revoke = Permission.device_revoke
permission_of DevicePermission.device_block = Permission.device_block

-- `Math.min(100, trustScore + 10)`
abbrev pub raised : ℕ → ℕ
raised score = if leb (score + 10) 100 then score + 10 else 100

-- `updateData`, on a row.
unfoldable pub with_status : ℕ → DeviceStatus → DeviceRow → DeviceRow
with_status now DeviceStatus.pending d = record d { status = DeviceStatus.pending }
with_status now DeviceStatus.active d = record d {
  status = DeviceStatus.active;
  trusted_at = some now;
  revoked_at = none;
  trust_score = raised d.trust_score;
}
with_status now DeviceStatus.revoked d = record d {
  status = DeviceStatus.revoked;
  revoked_at = some now;
  trust_score = 0;
}
with_status now DeviceStatus.blocked d = record d { status = DeviceStatus.blocked; trust_score = 0 }

abbrev pub of_device : ℕ → Option ℕ → Bool
of_device id none = false
of_device id (some d) = d == id

-- `where: { deviceId: device.id, revokedAt: null }`
abbrev pub is_live : ℕ → RefreshSession → Bool
is_live id s = of_device id s.device_id && not (is_some s.revoked_at)

unfoldable pub revoke_sessions : ℕ → ℕ → List RefreshSession → List RefreshSession
revoke_sessions now id sessions =
    update_where (is_live id) (λ s. record s { revoked_at = some now }) sessions

-- The transaction, and the audit entry after it.
unfoldable pub write_status :
    RequestUser → ℕ → ℕ → AuditAction → Option String → DeviceRow → DeviceStatus → Tables → Tables
write_status user organisation_id now action reason device status tables = record tables {
  devices =
      update_where (λ d. d.id == device.id) (λ d. with_status now status device) tables.devices;
  sessions =
      if should_revoke_sessions status
      then revoke_sessions now device.id tables.sessions
      else tables.sessions;
  audit_logs =
      record {
        organisation_id = organisation_id;
        actor_user_id = user.id;
        action = action;
        entity_id = device.id;
        previous_status = device.status;
        new_status = status;
        reason = reason;
      }
      ∷ tables.audit_logs;
}

unfoldable pub update_status :
    ℕ → RequestUser → ℕ → UpdateDeviceStatusDto → Tables → Result (DeviceRow × Tables)
update_status now user id dto tables = do
  organisation_id ← require_organisation_id user
  device ← find_device_or_throw tables organisation_id id
  if same device.status dto.status then ok (device, tables) else do
    assert_device_transition_allowed device.status dto.status
    permission ← required_permission_for_transition device.status dto.status
    assert_permission user (permission_of permission)
    ensure (not (is_activation_transition dto.status && device.user_id == user.id)) forbidden_403
        device_access_forbidden
    ok (
      with_status now dto.status device,
      write_status user organisation_id now AuditAction.update dto.reason device dto.status tables,
    )

unfoldable pub retire : ℕ → RequestUser → ℕ → Tables → Result (Unit {0} × Tables)
retire now user id tables = do
  organisation_id ← require_organisation_id user
  device ← find_device_or_throw tables organisation_id id
  if same device.status DeviceStatus.revoked then ok (tt, tables) else do
    assert_permission user Permission.device_revoke
    ok (
      tt,
      write_status user organisation_id now AuditAction.delete none device DeviceStatus.revoked
          tables,
    )
