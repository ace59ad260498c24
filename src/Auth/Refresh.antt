-- ===== src/Auth/Refresh.antt =====
-- `refresh`, `validateAccessUser`, `logout` and `logoutAll` of modules/auth/auth.service.ts.
use guardtrak_api.Prelude.{
  ℕ, Bool, false, ◌&&◌, ◌||◌, not, Option, none, some, ◌==◌, ltb, is_some, find_first, get_or_else,
  if◌then◌else◌,
}
use guardtrak_api.Errors.{
  Result, ok, err, throw, ensure, ◌>>=◌, ◌>>◌, forbidden_403, unauthorized_401, auth_token_invalid,
  auth_token_expired, auth_refresh_reused, auth_fingerprint_mismatch, auth_device_blocked,
  auth_device_pending, auth_session_revoked,
}
use guardtrak_api.Auth.Tables.{
  AuthDb, AuthCall, AuthEnvironment, AuthEvent, User, Session, LoginDevice, DevicePlatform,
  RequestContext, Answer,
}
use guardtrak_api.Auth.Sessions.{
  has_session_id, find_by_refresh_token, revoke_session, revoke_family, revoke_all_for_user,
  rotated_session, rotate, record_event,
}
use guardtrak_api.Auth.LoginDevices.{is_barred, is_pending}
use guardtrak_api.Auth.Login.{AuthTokens, assert_account_can_authenticate}

abbrev pub device_row : AuthDb → ℕ → Option LoginDevice
device_row db id = find_first (λ d. d.id == id) db.devices

-- The platform of the session's device, where both are there.
unfoldable pub platform_of : AuthDb → Option ℕ → Option DevicePlatform
platform_of db none = none
platform_of db (some device_id) = elim (device_row db device_id) [
  | none ↦ none
  | some device ↦ some device.platform
]

-- A session of a device goes on only where the device is there and ACTIVE.
unfoldable pub check_device : AuthDb → Option ℕ → Result (Unit {0})
check_device db none = ok tt
check_device db (some device_id) = elim (device_row db device_id) [
  | none ↦ throw forbidden_403 auth_device_blocked
  | some device ↦
      if is_barred device.status
      then throw forbidden_403 auth_device_blocked
      else if is_pending device.status
      then throw forbidden_403 auth_device_pending
      else ok tt
]

-- `strictFingerprint && current.fingerprint && current.fingerprint !== fingerprint`
abbrev pub differs : Option ℕ → ℕ → Bool
differs none fingerprint = false
differs (some known) fingerprint = not (known == fingerprint)

-- The user of the session, and that the account and the device may go on.
unfoldable pub check_owner : AuthDb → Session → Result User
unfolding assert_account_can_authenticate check_device
check_owner db current = elim (find_first (λ u. u.id == current.user_id) db.users) [
  | none ↦ throw unauthorized_401 auth_token_invalid
  | some user ↦ do assert_account_can_authenticate user; check_device db current.device_id; ok user
]

-- The family is revoked, and the event recorded.
unfoldable pub shut_family : ℕ → Session → AuthEvent → AuthDb → AuthDb
unfolding revoke_family record_event
shut_family now current event db =
    record_event current.user_id current.id event (revoke_family now current.family_id db)

unfoldable pub rotate_for :
    AuthEnvironment → AuthCall → RequestContext → Session → ℕ → AuthDb → Answer AuthTokens
unfolding check_owner rotate rotated_session
rotate_for env call ctx current fingerprint db = elim (check_owner db current) [
  | err thrown ↦ (err thrown, db)
  | ok user ↦
      let session = rotated_session env call ctx current fingerprint in
      (
        ok (record {
          sub = user.id;
          session_id = session.id;
          device_id = session.device_id;
          refresh_token = call.new_token;
          refresh_token_expires_at = session.expires_at;
        }),
        rotate env call ctx current fingerprint db,
      )
]

unfoldable pub refresh_session :
    AuthEnvironment → AuthCall → RequestContext → Session → AuthDb → Answer AuthTokens
unfolding shut_family rotate_for platform_of
refresh_session env call ctx current db =
    let fingerprint =
      env.build_session_fingerprint ctx.user_agent (platform_of db current.device_id) in
    if is_some current.revoked_at
    then (
      throw unauthorized_401 auth_refresh_reused,
      shut_family call.now current AuthEvent.refresh_reuse_detected db,
    )
    else if ltb current.expires_at call.now
    then (throw unauthorized_401 auth_token_expired, db)
    else if get_or_else env.strict_fingerprint false && differs current.fingerprint fingerprint
    then (
      throw unauthorized_401 auth_fingerprint_mismatch,
      shut_family call.now current AuthEvent.fingerprint_mismatch db,
    )
    else rotate_for env call ctx current fingerprint db

unfoldable pub refresh :
    AuthEnvironment → AuthCall → ℕ → RequestContext → AuthDb → Answer AuthTokens
unfolding find_by_refresh_token
refresh env call refresh_token ctx db = elim (find_by_refresh_token env refresh_token db) [
  | none ↦ (throw unauthorized_401 auth_token_invalid, db)
  | some current ↦ refresh_session env call ctx current db
]

-- The session of an access token: there, live, and the user's.
unfoldable pub check_session : AuthDb → ℕ → ℕ → Result Session
check_session db user_id session_id = elim (find_first (has_session_id session_id) db.sessions) [
  | none ↦ throw unauthorized_401 auth_session_revoked
  | some session ↦
      if is_some session.revoked_at || not (session.user_id == user_id)
      then throw unauthorized_401 auth_session_revoked
      else ok session
]

-- The user and the session that an access token names.
unfoldable pub validate_access_user : ℕ → ℕ → AuthDb → Result (User × Session)
unfolding assert_account_can_authenticate check_session check_device
validate_access_user user_id session_id db = elim (find_first (λ u. u.id == user_id) db.users) [
  | none ↦ throw unauthorized_401 auth_token_invalid
  | some user ↦ do
    ensure (not (is_some user.deleted_at)) unauthorized_401 auth_token_invalid
    assert_account_can_authenticate user
    session ← check_session db user.id session_id
    check_device db session.device_id
    ok (user, session)
]

unfoldable pub logout : ℕ → ℕ → ℕ → AuthDb → AuthDb
unfolding revoke_session record_event
logout now user_id session_id db =
    record_event user_id session_id AuthEvent.logged_out (revoke_session now session_id db)

unfoldable pub logout_all : ℕ → ℕ → AuthDb → AuthDb
unfolding revoke_all_for_user record_event
logout_all now user_id db =
    record_event user_id user_id AuthEvent.all_sessions_revoked (revoke_all_for_user now user_id db)
