-- ===== src/Auth/Requests.antt =====
-- The requests of modules/auth as moves of the table of sessions.
use guardtrak_api.Prelude.{
  ℕ, true, false, ◌&&◌, ◌≡◌, refl, ◌∙◌, arith, Option, none, some, List, is_some, ltb, find_first,
  find_first-by_key, Option-cases, Bool-cases, inl, inr, if_both, get_or_else,
}
use guardtrak_api.Errors.{Result, ok, err, Result-cases, ◌>>◌}
use guardtrak_api.Auth.Tables.{
  AuthDb, AuthCall, AuthEnvironment, RequestContext, Session, User, LoginDevice, AuthEvent, Answer,
}
use guardtrak_api.Auth.Sessions.{
  is_unrevoked, has_session_id, has_token, lives_in, find_by_refresh_token, revoke_where,
  revoke_family, new_session, insert_session, rotated_session, rotate, record_event,
}
use guardtrak_api.Auth.LoginDevices.{DeviceLoginInput, upsert_for_login, update_device}
use guardtrak_api.Auth.Login.{
  LoginDto, AuthTokens, update_user, register_failed_login, require_new_password,
  resolve_login_user, assert_account_can_authenticate, assert_not_locked,
}
use guardtrak_api.Auth.SignIn.{
  rehash, login_device, admit_device, open_session, sign_in, login_user, login, device_input,
}
use guardtrak_api.Auth.Refresh.{
  differs, platform_of, check_owner, shut_family, rotate_for, refresh_session, refresh,
}
use guardtrak_api.Auth.Families.{Moves, unchanged, revoked, opened, rotated, in_family, OneLive}

-- What is drawn at random for a request is not in use: the identifier of a session, the identifier of
-- a family, and the hash of a token.
pub record IsUnused (env : AuthEnvironment) (call : AuthCall) (db : AuthDb) : Type 0 where
  pub id : find_first (has_session_id call.new_id) db.sessions ≡ none
  pub family : find_first (in_family call.new_family_id) db.sessions ≡ none
  pub token : find_first (has_token (env.hash_opaque_token call.new_token)) db.sessions ≡ none

pub same-Moves : {before after : List Session} → after ≡ before → Moves before after
same-Moves {before} e = rw e unchanged

failed-sessions :
    (env : AuthEnvironment) (now : ℕ) (user : User) (db : AuthDb)
    → (register_failed_login env now user db).sessions ≡ db.sessions
unfolding register_failed_login record_event update_user
failed-sessions env now user db = ground arith

required-sessions :
    (env : AuthEnvironment) (now : ℕ) (user : User) (db : AuthDb)
    → (require_new_password env now user db).sessions ≡ db.sessions
unfolding require_new_password record_event update_user
required-sessions env now user db = ground arith

rehash-sessions :
    (env : AuthEnvironment) (dto : LoginDto) (user : User) (db : AuthDb)
    → (rehash env dto user db).sessions ≡ db.sessions
unfolding rehash update_user
rehash-sessions env dto user db = ground arith

admit-sessions :
    (user : User) (device : Result LoginDevice) (db : AuthDb)
    → (admit_device user device db).1.sessions ≡ db.sessions
unfolding admit_device record_event
admit-sessions user (err thrown) db = refl
admit-sessions user (ok device) db = ground arith

upsert-sessions :
    (env : AuthEnvironment) (call : AuthCall) (input : DeviceLoginInput) (db : AuthDb)
    → (upsert_for_login env call input db).1.sessions ≡ db.sessions
unfolding upsert_for_login update_device
upsert-sessions env call input db = ground arith

device-sessions :
    (env : AuthEnvironment) (call : AuthCall) (dto : LoginDto) (user : User) (db : AuthDb)
    → (login_device env call dto user db).1.sessions ≡ db.sessions
unfolding login_device
device-sessions env call dto user db = elim (Option-cases user.organisation_id) [
  | inl e ↦
      rw e
        (if_both (λ (r : Answer (Option ℕ)). r.1.sessions ≡ db.sessions) _ (λ f. refl) (λ f. refl))
  | inr (o, e) ↦
      let input = device_input dto o user.id in
      let upserted = upsert_for_login env call input db in
      rw e (admit-sessions user upserted.0 upserted.1 ∙ upsert-sessions env call input db)
]

opened-Moves :
    (env : AuthEnvironment) (call : AuthCall) (dto : LoginDto) (ctx : RequestContext) (user : User)
    (device_id : Option ℕ) (db between : AuthDb)
    → IsUnused env call db
    → between.sessions ≡ db.sessions
    → Moves db.sessions (open_session env call dto ctx user device_id between).1.sessions
unfolding open_session new_session insert_session update_user record_event
opened-Moves env call dto ctx user device_id db between u e =
    let fingerprint = env.build_session_fingerprint ctx.user_agent (some dto.platform) in
    let new = new_session env call ctx user.id device_id fingerprint in
    rw (rehash-sessions env dto user between, e) (opened new u.id u.family u.token)

sign_in-Moves :
    (env : AuthEnvironment) (call : AuthCall) (dto : LoginDto) (ctx : RequestContext) (user : User)
    (db : AuthDb)
    → IsUnused env call db
    → Moves db.sessions (sign_in env call dto ctx user db).1.sessions
unfolding sign_in
sign_in-Moves env call dto ctx user db u =
    let required = require_new_password env call.now user db in
    let admitted = login_device env call dto user required in
    let e = device-sessions env call dto user required ∙ required-sessions env call.now user db in
    elim (Result-cases admitted.0) [
      | inl (device_id, f) ↦
          rw (f, sign_in) (opened-Moves env call dto ctx user device_id db admitted.1 u e)
      | inr (thrown, f) ↦ rw (f, sign_in) (same-Moves e)
    ]

pub login-Moves :
    (env : AuthEnvironment) (call : AuthCall) (dto : LoginDto) (ctx : RequestContext) (db : AuthDb)
    → IsUnused env call db
    → Moves db.sessions (login env call dto ctx db).1.sessions
unfolding login login_user
login-Moves env call dto ctx db u =
    elim (Option-cases (resolve_login_user env dto.organisation_code dto.employee_id db)) [
      | inl e ↦ rw (e, login) unchanged
      | inr (user, e) ↦
          elim (Result-cases
            (assert_account_can_authenticate user >> assert_not_locked call.now user)) [
              | inr (thrown, f) ↦ rw (e, f, login, login_user) unchanged
              | inl (checked, f) ↦
                  rw (e, f, login, login_user)
                    (if_both (λ (r : Answer AuthTokens). Moves db.sessions r.1.sessions) _
                      (λ g. sign_in-Moves env call dto ctx user db u)
                      (λ g. same-Moves (failed-sessions env call.now user db)))
            ]
    ]

shut-Moves :
    (now : ℕ) (current : Session) (event : AuthEvent) (db : AuthDb)
    → Moves db.sessions (shut_family now current event db).sessions
unfolding shut_family revoke_family revoke_where record_event
shut-Moves now current event db = revoked now (lives_in current.family_id)

module _ (env : AuthEnvironment) (call : AuthCall) (ctx : RequestContext) (db : AuthDb)
    (u : IsUnused env call db) (v : OneLive db.sessions) where
  rotate-Moves :
      (current : Session) (fingerprint : ℕ)
      → find_first (has_session_id current.id) db.sessions ≡ some current
      → is_unrevoked current ≡ true
      → Moves db.sessions (rotate env call ctx current fingerprint db).sessions
  unfolding rotate rotated_session
  rotate-Moves current fingerprint found live =
      rotated call.now current (rotated_session env call ctx current fingerprint) found live u.id
        refl u.token

  rotate_for-Moves :
      (current : Session) (fingerprint : ℕ)
      → find_first (has_session_id current.id) db.sessions ≡ some current
      → is_unrevoked current ≡ true
      → Moves db.sessions (rotate_for env call ctx current fingerprint db).1.sessions
  unfolding rotate_for
  rotate_for-Moves current fingerprint found live = elim (Result-cases (check_owner db current)) [
    | inl (user, e) ↦ rw (e, rotate_for) (rotate-Moves current fingerprint found live)
    | inr (thrown, e) ↦ rw (e, rotate_for) unchanged
  ]

  pub refresh_session-Moves :
      (current : Session)
      → find_first (has_session_id current.id) db.sessions ≡ some current
      → Moves db.sessions (refresh_session env call ctx current db).1.sessions
  unfolding refresh_session
  refresh_session-Moves current found =
      let fingerprint =
        env.build_session_fingerprint ctx.user_agent (platform_of db current.device_id) in
      elim (Bool-cases (is_some current.revoked_at)) [
        | inl e ↦
            rw (e, refresh_session)
              (shut-Moves call.now current AuthEvent.refresh_reuse_detected db)
        | inr e ↦ elim (Bool-cases (ltb current.expires_at call.now)) [
          | inl f ↦ rw (e, f, refresh_session) unchanged
          | inr f ↦
              elim (Bool-cases (
                get_or_else env.strict_fingerprint false
                && differs current.fingerprint fingerprint)) [
                  | inl g ↦
                      rw (e, f, g, refresh_session)
                        (shut-Moves call.now current AuthEvent.fingerprint_mismatch db)
                  | inr g ↦
                      rw (e, f, g, refresh_session)
                        (rotate_for-Moves current fingerprint found (rw e refl))
                ]
        ]
      ]

  pub refresh-Moves :
      (refresh_token : ℕ) → Moves db.sessions (refresh env call refresh_token ctx db).1.sessions
  unfolding refresh find_by_refresh_token
  refresh-Moves refresh_token =
      let h = env.hash_opaque_token refresh_token in
      elim (Option-cases (find_first (has_token h) db.sessions)) [
        | inl e ↦ rw (e, refresh, find_by_refresh_token) unchanged
        | inr (current, e) ↦
            rw (e, refresh, find_by_refresh_token)
              (refresh_session-Moves current (
                find_first-by_key (has_token h) (has_session_id current.id) db.sessions current
                  (v.distinct current.id) e (ground arith)))
      ]
