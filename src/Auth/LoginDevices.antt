-- ===== src/Auth/LoginDevices.antt =====
-- modules/auth/services/device-auth.service.ts
use guardtrak_api.Prelude.{
  ℕ, ◌+◌, Bool, true, false, ◌&&◌, ◌||◌, not, Option, none, some, List, [], ◌∷◌, ◌==◌, leb, is_some,
  find_first, update_where, get_or_else, if◌then◌else◌,
}
use guardtrak_api.Errors.{ok, throw, forbidden_403, auth_device_blocked}
use guardtrak_api.Transitions.DeviceStatus.{DeviceStatus}
use guardtrak_api.Auth.Tables.{
  AuthDb, AuthCall, AuthEnvironment, DevicePlatform, LoginDevice, Answer,
}
use guardtrak_api.Auth.Sessions.{or_else}

pub record DeviceLoginInput : Type 0 where
  pub organisation_id : ℕ
  pub user_id : ℕ
  pub installation_id : ℕ
  pub platform : DevicePlatform
  pub device_name : Option ℕ
  pub manufacturer : Option ℕ
  pub model : Option ℕ
  pub operating_system : Option ℕ
  pub operating_system_version : Option ℕ
  pub app_version : Option ℕ

-- Only a device of the web is approved by default; others are where the process runs in development.
unfoldable pub auto_approve : AuthEnvironment → DevicePlatform → Bool
auto_approve env DevicePlatform.web = get_or_else env.web_device_auto_approve true
auto_approve env _ = get_or_else env.new_device_auto_approve env.is_development

unfoldable pub enforce_device_ownership : AuthEnvironment → Bool
enforce_device_ownership env = get_or_else env.enforce_device_ownership env.is_deployed

is_listed : List ℕ → ℕ → Bool
is_listed [] id = false
is_listed (i ∷ ids) id = i == id || is_listed ids id

unfoldable pub is_ownership_bypass_installation : AuthEnvironment → ℕ → Bool
unfolding is_listed
is_ownership_bypass_installation env installation_id =
    is_listed env.bypass_installation_ids installation_id

-- REVOKED or BLOCKED.
abbrev pub is_barred : DeviceStatus → Bool
is_barred DeviceStatus.revoked = true
is_barred DeviceStatus.blocked = true
is_barred _ = false

abbrev pub is_pending : DeviceStatus → Bool
is_pending DeviceStatus.pending = true
is_pending _ = false

unfoldable pub login_status : AuthEnvironment → DevicePlatform → DeviceStatus → DeviceStatus
unfolding auto_approve
login_status env platform DeviceStatus.active = DeviceStatus.active
login_status env platform status = if auto_approve env platform then DeviceStatus.active else status

abbrev pub is_active_login : DeviceStatus → Bool
is_active_login DeviceStatus.active = true
is_active_login _ = false

-- `Math.min(100, trustScore + 10)`
abbrev raised_score : ℕ → ℕ
raised_score score = if leb (score + 10) 100 then score + 10 else 100

abbrev is_foreign : DeviceLoginInput → LoginDevice → Bool
is_foreign input d =
    not (d.user_id == input.user_id) || not (d.organisation_id == input.organisation_id)

-- The `data` of the update. It writes the owner in any case: an owner that matches is the same.
unfoldable pub seen_device : AuthEnvironment → ℕ → DeviceLoginInput → LoginDevice → LoginDevice
unfolding login_status
seen_device env now input d =
    let status = login_status env input.platform d.status in
    record {
      id = d.id;
      organisation_id = input.organisation_id;
      user_id = input.user_id;
      installation_id = d.installation_id;
      platform = input.platform;
      device_name = or_else input.device_name d.device_name;
      manufacturer = or_else input.manufacturer d.manufacturer;
      model = or_else input.model d.model;
      operating_system = or_else input.operating_system d.operating_system;
      operating_system_version = or_else input.operating_system_version d.operating_system_version;
      app_version = or_else input.app_version d.app_version;
      status = status;
      trusted_at =
          if is_active_login status && not (is_some d.trusted_at) then some now else d.trusted_at;
      trust_score = if is_active_login status then raised_score d.trust_score else d.trust_score;
      last_seen_at = some now;
    }

unfoldable pub new_device : AuthEnvironment → AuthCall → DeviceLoginInput → LoginDevice
unfolding auto_approve
new_device env call input =
    let approved = auto_approve env input.platform in
    record {
      id = call.new_device_id;
      organisation_id = input.organisation_id;
      user_id = input.user_id;
      installation_id = input.installation_id;
      platform = input.platform;
      device_name = input.device_name;
      manufacturer = input.manufacturer;
      model = input.model;
      operating_system = input.operating_system;
      operating_system_version = input.operating_system_version;
      app_version = input.app_version;
      status = if approved then DeviceStatus.active else DeviceStatus.pending;
      trusted_at = if approved then some call.now else none;
      trust_score = if approved then 60 else 20;
      last_seen_at = some call.now;
    }

unfoldable pub update_device :
    AuthEnvironment → AuthCall → DeviceLoginInput → LoginDevice → AuthDb → Answer LoginDevice
unfolding seen_device enforce_device_ownership is_ownership_bypass_installation
update_device env call input existing db =
    if is_barred existing.status
    then (throw forbidden_403 auth_device_blocked, db)
    else if is_foreign input existing
        && (enforce_device_ownership env
            && not (is_ownership_bypass_installation env input.installation_id))
    then (throw forbidden_403 auth_device_blocked, db)
    else (
      ok (seen_device env call.now input existing),
      record db {
        devices =
            update_where (λ d. d.id == existing.id) (seen_device env call.now input) db.devices;
      },
    )

unfoldable pub upsert_for_login :
    AuthEnvironment → AuthCall → DeviceLoginInput → AuthDb → Answer LoginDevice
unfolding update_device new_device
upsert_for_login env call input db =
    elim (find_first (λ d. d.installation_id == input.installation_id) db.devices) [
      | some existing ↦ update_device env call input existing db
      | none ↦
          let created = new_device env call input in
          (ok created, record db { devices = created ∷ db.devices })
    ]
