-- ===== src/Auth/Access.antt =====
-- What an access token needs to be accepted.
use guardtrak_api.Prelude.{
  ℕ, true, false, ◌≡◌, ap, arith, none, some, ◌==◌, is_some, find_first, Option-cases, Bool-cases,
  inl, inr, not, ◌||◌,
}
use guardtrak_api.Errors.{
  ok, throw, step_ok, check_ok, then_ok, ok_eq, unauthorized_401, forbidden_403, auth_token_invalid,
  auth_session_revoked, auth_account_inactive,
}
use guardtrak_api.Auth.Tables.{AuthDb, Session, User}
use guardtrak_api.Auth.Sessions.{is_unrevoked, has_session_id}
use guardtrak_api.Auth.Login.{is_inactive, assert_account_can_authenticate}
use guardtrak_api.Auth.Refresh.{check_device, check_session, validate_access_user}

-- The session that an access token names, and its user.
pub record Accepted (user_id session_id : ℕ) (db : AuthDb) (user : User) (session : Session)
    : Type 0 where
  pub same_user : find_first (λ u. u.id == user_id) db.users ≡ some user
  pub not_deleted : user.deleted_at ≡ none
  pub may_sign_in : is_inactive user.status ≡ false
  pub found : find_first (has_session_id session_id) db.sessions ≡ some session
  pub live : is_unrevoked session ≡ true
  pub own : session.user_id ≡ user.id
  pub on_device : check_device db session.device_id ≡ ok tt

session-found :
    (db : AuthDb) (user_id id : ℕ) (session : Session)
    → check_session db user_id id ≡ ok session
    → (find_first (has_session_id id) db.sessions ≡ some session)
      × (is_unrevoked session ≡ true)
      × (session.user_id ≡ user_id)
unfolding check_session
session-found db user_id id session h =
    elim (Option-cases (find_first (has_session_id id) db.sessions)) [
      | inl e ↦
          let c : throw unauthorized_401 auth_session_revoked ≡ ok session =
            rw (e, check_session) at h in
          cc
      | inr (s, e) ↦ elim (Bool-cases (is_some s.revoked_at || not (s.user_id == user_id))) [
        | inl f ↦
            let c : throw unauthorized_401 auth_session_revoked ≡ ok session =
              rw (e, f, check_session) at h in
            cc
        | inr f ↦
            let g : ok s ≡ ok session = rw (e, f, check_session) at h in
            rw (← ok_eq g) (e, ground arith, ground arith)
      ]
    ]

Accepted-rest :
    (user_id session_id : ℕ) (db : AuthDb) (found user : User) (session : Session)
    → find_first (λ u. u.id == user_id) db.users ≡ some found
    → validate_access_user user_id session_id db ≡ ok (user, session)
    → Accepted user_id session_id db user session
unfolding validate_access_user assert_account_can_authenticate
Accepted-rest user_id session_id db found user session e h =
    let h1 = rw (e, validate_access_user) at h in
    let (a, h2) =
      check_ok (not (is_some found.deleted_at)) unauthorized_401 auth_token_invalid _ h1 in
    let (b, h3) =
      check_ok (not (is_inactive found.status)) forbidden_403 auth_account_inactive _ h2 in
    let (s, c, h4) = step_ok (check_session db found.id session_id) _ h3 in
    let (d, h5) = then_ok (check_device db s.device_id) _ h4 in
    let p = ok_eq h5 in
    let same : found ≡ user = ap (λ q. q.0) p in
    let same' : s ≡ session = ap (λ q. q.1) p in
    let x = session-found db found.id session_id s c in
    rw (← same, ← same')
      (record {
        same_user = e;
        not_deleted = ground arith;
        may_sign_in = ground arith;
        found = x.0;
        live = x.1;
        own = x.2;
        on_device = d;
      })

-- An access token is accepted only for a user who is there, not deleted and not suspended, disabled
-- or archived, and for the session that it names, which is live and of that user, and whose device,
-- if any, passes the check of devices.
pub validate-Accepted :
    (user_id session_id : ℕ) (db : AuthDb) (user : User) (session : Session)
    → validate_access_user user_id session_id db ≡ ok (user, session)
    → Accepted user_id session_id db user session
unfolding validate_access_user
validate-Accepted user_id session_id db user session h =
    elim (Option-cases (find_first (λ u. u.id == user_id) db.users)) [
      | inl e ↦
          let c : throw {Answer = User × Session} unauthorized_401 auth_token_invalid
              ≡ ok (user, session) =
            rw (e, validate_access_user) at h in
          cc
      | inr (found, e) ↦ Accepted-rest user_id session_id db found user session e h
    ]
