-- ===== src/Auth/SignIn.antt =====
-- `login` of modules/auth/auth.service.ts from the right password on, and the whole of it.
use guardtrak_api.Prelude.{ℕ, Bool, true, false, Option, none, some, if◌then◌else◌}
use guardtrak_api.Errors.{
  Result, ok, err, throw, ◌>>◌, forbidden_403, unauthorized_401, auth_invalid_credentials,
  auth_organisation_required, auth_device_pending,
}
use guardtrak_api.Common.Tenant.{UserRole}
use guardtrak_api.Auth.Tables.{
  AuthDb, AuthCall, AuthEnvironment, AuthEvent, User, LoginDevice, RequestContext, Answer,
}
use guardtrak_api.Auth.Sessions.{new_session, insert_session, record_event}
use guardtrak_api.Auth.LoginDevices.{DeviceLoginInput, upsert_for_login, is_pending}
use guardtrak_api.Auth.Login.{
  LoginDto, AuthTokens, resolve_login_user, assert_account_can_authenticate, assert_not_locked,
  update_user, register_failed_login, require_new_password,
}

abbrev is_super_admin : UserRole → Bool
is_super_admin UserRole.super_admin = true
is_super_admin _ = false

unfoldable pub device_input : LoginDto → ℕ → ℕ → DeviceLoginInput
device_input dto organisation_id user_id = record {
  organisation_id = organisation_id;
  user_id = user_id;
  installation_id = dto.installation_id;
  platform = dto.platform;
  device_name = dto.device_name;
  manufacturer = dto.manufacturer;
  model = dto.model;
  operating_system = dto.operating_system;
  operating_system_version = dto.operating_system_version;
  app_version = dto.app_version;
}

-- A device that waits for approval may not sign in.
unfoldable pub admit_device : User → Result LoginDevice → AuthDb → Answer (Option ℕ)
unfolding record_event
admit_device user (err thrown) db = (err thrown, db)
admit_device user (ok device) db =
    if is_pending device.status
    then (
      throw forbidden_403 auth_device_pending,
      record_event user.id device.id AuthEvent.login_blocked_device_pending db,
    )
    else (ok (some device.id), db)

-- The device of the login, which a user of no organisation does without.
unfoldable pub login_device :
    AuthEnvironment → AuthCall → LoginDto → User → AuthDb → Answer (Option ℕ)
unfolding admit_device device_input
login_device env call dto user db = elim user.organisation_id [
  | none ↦
      if is_super_admin user.role
      then (ok none, db)
      else (throw forbidden_403 auth_organisation_required, db)
  | some organisation_id ↦
      let upserted = upsert_for_login env call (device_input dto organisation_id user.id) db in
      admit_device user upserted.0 upserted.1
]

unfoldable pub rehash : AuthEnvironment → LoginDto → User → AuthDb → AuthDb
unfolding update_user
rehash env dto user db =
    if env.needs_rehash user.password_hash
    then update_user user.id (λ u. record u { password_hash = env.hash_password dto.password }) db
    else db

-- The session, the counters of the user set back, and the audit entry.
unfoldable pub open_session :
    AuthEnvironment
    → AuthCall
    → LoginDto
    → RequestContext
    → User
    → Option ℕ
    → AuthDb
    → Answer AuthTokens
unfolding new_session insert_session update_user record_event rehash
open_session env call dto ctx user device_id db =
    let fingerprint = env.build_session_fingerprint ctx.user_agent (some dto.platform) in
    let session = new_session env call ctx user.id device_id fingerprint in
    (
      ok (record {
        sub = user.id;
        session_id = session.id;
        device_id = device_id;
        refresh_token = call.new_token;
        refresh_token_expires_at = session.expires_at;
      }),
      record_event user.id user.id AuthEvent.login_succeeded (
          update_user user.id
            (λ u. record u {
              failed_login_attempts = 0;
              locked_until = none;
              last_login_at = some call.now;
            })
            (insert_session session (rehash env dto user db))),
    )

-- What follows once the password is right.
unfoldable pub sign_in :
    AuthEnvironment → AuthCall → LoginDto → RequestContext → User → AuthDb → Answer AuthTokens
unfolding require_new_password
sign_in env call dto ctx user db =
    let admitted = login_device env call dto user (require_new_password env call.now user db) in
    elim admitted.0 [
      | err thrown ↦ (err thrown, admitted.1)
      | ok device_id ↦ open_session env call dto ctx user device_id admitted.1
    ]

unfoldable pub login_user :
    AuthEnvironment → AuthCall → LoginDto → RequestContext → User → AuthDb → Answer AuthTokens
unfolding assert_account_can_authenticate assert_not_locked register_failed_login
login_user env call dto ctx user db =
    elim (assert_account_can_authenticate user >> assert_not_locked call.now user) [
      | err thrown ↦ (err thrown, db)
      | ok checked ↦
          if env.verify_password user.password_hash dto.password
          then sign_in env call dto ctx user db
          else (
            throw unauthorized_401 auth_invalid_credentials,
            register_failed_login env call.now user db,
          )
    ]

unfoldable pub login :
    AuthEnvironment → AuthCall → LoginDto → RequestContext → AuthDb → Answer AuthTokens
unfolding resolve_login_user
login env call dto ctx db = elim (resolve_login_user env dto.organisation_code dto.employee_id db) [
  | none ↦ (throw unauthorized_401 auth_invalid_credentials, db)
  | some user ↦ login_user env call dto ctx user db
]
