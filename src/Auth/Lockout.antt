-- ===== src/Auth/Lockout.antt =====
-- Wrong passwords, and the lock that they begin.
use guardtrak_api.Prelude.{
  ℕ, suc, ◌+◌, ◌*◌, ◌≤◌, ◌<◌, true, false, ◌≡◌, refl, ap, ◌∙◌, arith, Option, none, some, List,
  ◌==◌, is_some, leb, find_first, find_first-kept, update_where, get_or_else, Option-cases,
  Bool-cases, inl, inr, not, ◌&&◌,
}
use guardtrak_api.Errors.{
  throw, unauthorized_401, locked_423, auth_invalid_credentials, auth_account_locked,
}
use guardtrak_api.Auth.Tables.{AuthDb, AuthCall, AuthEnvironment, AuthEvent, RequestContext, User}
use guardtrak_api.Auth.Sessions.{record_event}
use guardtrak_api.Auth.Login.{
  LoginDto, is_employee, is_active_organisation, resolve_login_user,
  assert_account_can_authenticate, assert_not_locked, is_inactive, is_later, update_user,
  lock_after, register_failed_login,
}
use guardtrak_api.Auth.SignIn.{login_user, login}

-- What a wrong password leaves of its user.
abbrev failed : ℕ → Option ℕ → User → User
failed attempts locked u = record u { failed_login_attempts = attempts; locked_until = locked }

found_failed :
    (organisation_id : Option ℕ) (number id attempts : ℕ) (locked : Option ℕ) (users : List User)
    (user : User)
    → (user.id == id) ≡ true
    → find_first (is_employee organisation_id number) users ≡ some user
    → find_first
        (is_employee organisation_id number)
        (update_where (λ u. u.id == id) (failed attempts locked) users)
      ≡ some (failed attempts locked user)
found_failed organisation_id number id attempts locked users user hit found =
    let z =
      find_first-kept (is_employee organisation_id number) (λ u. u.id == id)
        (failed attempts locked) (λ u. refl) users user found in
    rw (hit) at z

-- The account is found again under the same names.
resolve-kept :
    (env : AuthEnvironment) (code number id attempts : ℕ) (locked : Option ℕ) (db : AuthDb)
    (user : User)
    → resolve_login_user env code number db ≡ some user
    → user.id ≡ id
    → resolve_login_user env code number (update_user id (failed attempts locked) db)
      ≡ some (failed attempts locked user)
unfolding resolve_login_user update_user
resolve-kept env code number id attempts locked db user h same =
    let hit : (user.id == id) ≡ true = ground arith in
    let c = env.normalise_code code in
    let n = env.trim_id number in
    elim (Bool-cases (c == env.platform_code)) [
      | inl e ↦
          rw (e, resolve_login_user)
            (found_failed none n id attempts locked db.users user hit
              (rw (e, resolve_login_user) at h))
      | inr e ↦
          elim (Option-cases (
            find_first
              (λ o. o.code == c && (not (is_some o.deleted_at) && is_active_organisation o.status))
              db.organisations)) [
                | inl f ↦ let x : none ≡ some user = rw (e, f, resolve_login_user) at h in cc
                | inr (o, f) ↦
                    rw (e, f, resolve_login_user)
                      (found_failed (some o.id) n id attempts locked db.users user hit
                        (rw (e, f, resolve_login_user) at h))
              ]
    ]

-- A wrong password of an account that may sign in.
pub record IsWrong (env : AuthEnvironment) (now : ℕ) (dto : LoginDto) (db : AuthDb) (user : User)
    : Type 0 where
  pub resolved : resolve_login_user env dto.organisation_code dto.employee_id db ≡ some user
  pub may : is_inactive user.status ≡ false
  pub open_ : is_later now user.locked_until ≡ false
  pub wrong : env.verify_password user.password_hash dto.password ≡ false

wrong-answer :
    (env : AuthEnvironment) (call : AuthCall) (dto : LoginDto) (ctx : RequestContext) (db : AuthDb)
    (user : User)
    → IsWrong env call.now dto db user
    → login env call dto ctx db ≡ (
      throw unauthorized_401 auth_invalid_credentials,
      register_failed_login env call.now user db,
    )
unfolding login login_user assert_account_can_authenticate assert_not_locked
wrong-answer env call dto ctx db user w =
    let a = w.may in
    let b = w.open_ in
    rw
      (
        w.resolved, login, login_user, assert_account_can_authenticate, assert_not_locked, a, b,
        w.wrong,
      )
      refl

locked-answer :
    (env : AuthEnvironment) (call : AuthCall) (dto : LoginDto) (ctx : RequestContext) (db : AuthDb)
    (user : User)
    → resolve_login_user env dto.organisation_code dto.employee_id db ≡ some user
    → is_inactive user.status ≡ false
    → is_later call.now user.locked_until ≡ true
    → login env call dto ctx db ≡ (throw locked_423 auth_account_locked, db)
unfolding login login_user assert_account_can_authenticate assert_not_locked
locked-answer env call dto ctx db user r a b =
    rw (r, login, login_user, assert_account_can_authenticate, assert_not_locked, a, b) refl

locked_until_of :
    (env : AuthEnvironment) (now attempts : ℕ)
    → get_or_else env.max_failed_attempts 5 ≤ attempts
    → lock_after env now attempts ≡ some (now + get_or_else env.lockout_minutes 15 * 60000)
unfolding lock_after
locked_until_of env now attempts h =
    let e : leb (get_or_else env.max_failed_attempts 5) attempts ≡ true = ground arith in rw e refl

registered :
    (env : AuthEnvironment) (now until : ℕ) (user : User) (db : AuthDb)
    → lock_after env now (suc user.failed_login_attempts) ≡ some until
    → register_failed_login env now user db
      ≡ record_event user.id user.id
          (AuthEvent.account_locked (suc user.failed_login_attempts))
          (update_user user.id (failed (suc user.failed_login_attempts) (some until)) db)
unfolding register_failed_login
registered env now until user db e = rw (e, register_failed_login) refl

resolve-event :
    (env : AuthEnvironment) (code number actor entity : ℕ) (event : AuthEvent) (db : AuthDb)
    → resolve_login_user env code number (record_event actor entity event db)
      ≡ resolve_login_user env code number db
unfolding resolve_login_user record_event
resolve-event env code number actor entity event db = refl

-- A wrong password of an account that may sign in, which makes as many failed attempts as the
-- settings allow, locks the account: until the lock ends, a login for the same organisation code
-- and employee number, with whatever password, is answered 423 and writes nothing.
pub locked_out :
    (env : AuthEnvironment) (call : AuthCall) (dto : LoginDto) (ctx : RequestContext) (db : AuthDb)
    (user : User) (call' : AuthCall) (dto' : LoginDto) (ctx' : RequestContext)
    → IsWrong env call.now dto db user
    → get_or_else env.max_failed_attempts 5 ≤ suc user.failed_login_attempts
    → dto'.organisation_code ≡ dto.organisation_code
    → dto'.employee_id ≡ dto.employee_id
    → call'.now < call.now + get_or_else env.lockout_minutes 15 * 60000
    → login env call' dto' ctx' (login env call dto ctx db).1
      ≡ (throw locked_423 auth_account_locked, (login env call dto ctx db).1)
locked_out env call dto ctx db user call' dto' ctx' w enough same_code same_id soon =
    let until = call.now + get_or_else env.lockout_minutes 15 * 60000 in
    let attempts = suc user.failed_login_attempts in
    let change = failed attempts (some until) in
    let db' =
      record_event user.id user.id (AuthEvent.account_locked attempts)
        (update_user user.id change db) in
    let after : (login env call dto ctx db).1 ≡ db' =
      ap (λ r. r.1) (wrong-answer env call dto ctx db user w)
      ∙ registered env call.now until user db (locked_until_of env call.now attempts enough) in
    let again : resolve_login_user env dto'.organisation_code dto'.employee_id db'
        ≡ some (change user) =
      rw (same_code, same_id)
        (resolve-event env dto.organisation_code dto.employee_id user.id user.id _
            (update_user user.id change db)
          ∙ resolve-kept env dto.organisation_code dto.employee_id user.id attempts (some until) db
              user w.resolved refl) in
    rw (after) (locked-answer env call' dto' ctx' db' (change user) again w.may (ground arith))
