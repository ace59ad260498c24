-- ===== src/Auth/Login.antt =====
-- The checks of modules/auth/auth.service.ts on an account, and what a wrong password writes. One
-- reading of the clock stands for those of a call.
use guardtrak_api.Prelude.{
  ℕ, suc, ◌+◌, ◌-◌, ◌*◌, Bool, true, false, ◌&&◌, not, Option, none, some, ◌==◌, ltb, leb, is_some,
  find_first, update_where, get_or_else, if◌then◌else◌,
}
use guardtrak_api.Errors.{
  Result, ensure, forbidden_403, locked_423, auth_account_inactive, auth_account_locked,
}
use guardtrak_api.Auth.Tables.{
  AuthDb, AuthEnvironment, AuthEvent, AccountStatus, OrganisationStatus, User, DevicePlatform,
}
use guardtrak_api.Auth.Sessions.{record_event}

pub record LoginDto : Type 0 where
  pub organisation_code : ℕ
  pub employee_id : ℕ
  pub password : ℕ
  pub installation_id : ℕ
  pub platform : DevicePlatform
  pub device_name : Option ℕ
  pub manufacturer : Option ℕ
  pub model : Option ℕ
  pub operating_system : Option ℕ
  pub operating_system_version : Option ℕ
  pub app_version : Option ℕ

-- The claims of an access token, and the refresh token with the time at which it ends.
pub record AuthTokens : Type 0 where
  pub sub : ℕ
  pub session_id : ℕ
  pub device_id : Option ℕ
  pub refresh_token : ℕ
  pub refresh_token_expires_at : ℕ

abbrev pub same_option : Option ℕ → Option ℕ → Bool
same_option none none = true
same_option (some a) (some b) = a == b
same_option _ _ = false

abbrev pub is_active_organisation : OrganisationStatus → Bool
is_active_organisation OrganisationStatus.active = true
is_active_organisation _ = false

-- `findFirst({ where: { organisationId, employeeId, deletedAt: null } })`
abbrev pub is_employee : Option ℕ → ℕ → User → Bool
is_employee organisation_id employee_id u =
    same_option u.organisation_id organisation_id
    && (same_option u.employee_id (some employee_id) && not (is_some u.deleted_at))

unfoldable pub resolve_login_user : AuthEnvironment → ℕ → ℕ → AuthDb → Option User
resolve_login_user env organisation_code employee_id db =
    let code = env.normalise_code organisation_code in
    let number = env.trim_id employee_id in
    if code == env.platform_code
    then find_first (is_employee none number) db.users
    else elim (find_first
        (λ o. o.code == code && (not (is_some o.deleted_at) && is_active_organisation o.status))
        db.organisations) [
          | none ↦ none
          | some organisation ↦ find_first (is_employee (some organisation.id) number) db.users
        ]

-- SUSPENDED, DISABLED or ARCHIVED.
abbrev pub is_inactive : AccountStatus → Bool
is_inactive AccountStatus.suspended = true
is_inactive AccountStatus.disabled = true
is_inactive AccountStatus.archived = true
is_inactive _ = false

unfoldable pub assert_account_can_authenticate : User → Result (Unit {0})
assert_account_can_authenticate user =
    ensure (not (is_inactive user.status)) forbidden_403 auth_account_inactive

-- Later than now.
abbrev pub is_later : ℕ → Option ℕ → Bool
is_later now none = false
is_later now (some at) = ltb now at

unfoldable pub assert_not_locked : ℕ → User → Result (Unit {0})
assert_not_locked now user =
    ensure (not (is_later now user.locked_until)) locked_423 auth_account_locked

-- `user.update` by its identifier.
unfoldable pub update_user : ℕ → (User → User) → AuthDb → AuthDb
update_user id change db = record db { users = update_where (λ u. u.id == id) change db.users }

-- The end of the lock that a failed attempt begins, if it begins one.
unfoldable pub lock_after : AuthEnvironment → ℕ → ℕ → Option ℕ
lock_after env now attempts =
    if leb (get_or_else env.max_failed_attempts 5) attempts
    then some (now + get_or_else env.lockout_minutes 15 * 60000)
    else none

unfoldable pub register_failed_login : AuthEnvironment → ℕ → User → AuthDb → AuthDb
unfolding lock_after update_user record_event
register_failed_login env now user db =
    let attempts = suc user.failed_login_attempts in
    let locked = lock_after env now attempts in
    let written =
      update_user user.id
        (λ u. record u { failed_login_attempts = attempts; locked_until = locked }) db in
    if is_some locked
    then record_event user.id user.id (AuthEvent.account_locked attempts) written
    else written

-- The password is older than the settings allow, where they set a limit.
unfoldable pub is_password_expired : AuthEnvironment → ℕ → User → Bool
is_password_expired env now user =
    let days = get_or_else env.password_max_age_days 0 in
    let changed_at = get_or_else user.password_changed_at user.created_at in
    ltb 0 days && ltb (days * 86400000) (now - changed_at)

unfoldable pub require_new_password : AuthEnvironment → ℕ → User → AuthDb → AuthDb
unfolding is_password_expired update_user record_event
require_new_password env now user db =
    if is_password_expired env now user
    then record_event user.id user.id AuthEvent.password_expired
        (update_user user.id (λ u. record u { must_change_password = true }) db)
    else db
