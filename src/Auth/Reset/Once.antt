-- ===== src/Auth/Reset/Once.antt =====
-- A reset token works once, and its reset signs the user out.
use guardtrak_api.Prelude.{
  ℕ, true, false, ◌≡◌, refl, arith, some, List, [], ◌∷◌, ◌==◌, total, indicator, find_first,
  find_first-kept, update_where, Option-cases, Bool-cases, inl, inr,
}
use guardtrak_api.Errors.{
  ok, throw, bad_request_400, auth_reset_token_invalid, auth_password_policy_failed, ok_eq,
}
use guardtrak_api.Auth.Tables.{AuthDb, AuthEnvironment, Session, PasswordResetToken}
use guardtrak_api.Auth.Sessions.{lives_for, revoke_all_for_user, revoke_where}
use guardtrak_api.Auth.Login.{update_user}
use guardtrak_api.Auth.Families.{revoked_at_time}
use guardtrak_api.Auth.Reset.{is_token, is_usable, write_reset, reset_with_token}

user_none :
    (now user_id : ℕ) (sessions : List Session)
    → total
        (indicator (lives_for user_id))
        (update_where (lives_for user_id) (revoked_at_time now) sessions)
      ≡ 0
unfolding update_where total
user_none now user_id [] = refl
user_none now user_id (s ∷ sessions) = ground (arith, user_none now user_id sessions)

-- What a reset that succeeds has found and written.
record WasReset (env : AuthEnvironment) (now token password : ℕ) (db : AuthDb) (user_id : ℕ)
    : Type 0 where
  row : PasswordResetToken
  found : find_first (is_token (env.hash_opaque_token token)) db.reset_tokens ≡ some row
  same : row.user_id ≡ user_id
  allowed : env.is_allowed_password password ≡ true
  written : (reset_with_token env now token password db).1 ≡ write_reset env now row password db

reset-WasReset :
    (env : AuthEnvironment) (now token password : ℕ) (db : AuthDb) (user_id : ℕ)
    → (reset_with_token env now token password db).0 ≡ ok user_id
    → WasReset env now token password db user_id
unfolding reset_with_token
reset-WasReset env now token password db user_id h =
    elim (Bool-cases (env.is_allowed_password password)) [
      | inr a ↦
          let c : throw bad_request_400 auth_password_policy_failed ≡ ok user_id =
            rw (a, reset_with_token) at h in
          cc
      | inl a ↦
          elim (Option-cases
            (find_first (is_token (env.hash_opaque_token token)) db.reset_tokens)) [
              | inl e ↦
                  let c : throw bad_request_400 auth_reset_token_invalid ≡ ok user_id =
                    rw (a, e, reset_with_token) at h in
                  cc
              | inr (row, e) ↦ elim (Bool-cases (is_usable now row)) [
                | inr f ↦
                    let c : throw bad_request_400 auth_reset_token_invalid ≡ ok user_id =
                      rw (a, e, f, reset_with_token) at h in
                    cc
                | inl f ↦
                    let g : ok row.user_id ≡ ok user_id = rw (a, e, f, reset_with_token) at h in
                    record {
                      row = row;
                      found = e;
                      same = ok_eq g;
                      allowed = a;
                      written = rw (a, e, f, reset_with_token) refl;
                    }
              ]
            ]
    ]

used_refused :
    (env : AuthEnvironment) (now token password : ℕ) (db : AuthDb) (row : PasswordResetToken)
    → env.is_allowed_password password ≡ true
    → find_first (is_token (env.hash_opaque_token token)) db.reset_tokens ≡ some row
    → is_usable now row ≡ false
    → reset_with_token env now token password db
      ≡ (throw bad_request_400 auth_reset_token_invalid, db)
unfolding reset_with_token
used_refused env now token password db row a e f = rw (a, e, f, reset_with_token) refl

-- A password reset that succeeds leaves no session of the user live, and its token is refused from
-- then on: a second reset with it right after, at any time and to any allowed password, fails and
-- writes nothing.
pub reset_once :
    (env : AuthEnvironment) (now now' token password password' : ℕ) (db : AuthDb) (user_id : ℕ)
    → (reset_with_token env now token password db).0 ≡ ok user_id
    → env.is_allowed_password password' ≡ true
    → (total (indicator (lives_for user_id)) (reset_with_token env now token password db).1.sessions
        ≡ 0)
      × (reset_with_token env now' token password' (reset_with_token env now token password db).1
          ≡ (
            throw bad_request_400 auth_reset_token_invalid,
            (reset_with_token env now token password db).1,
          ))
unfolding write_reset revoke_all_for_user revoke_where update_user
reset_once env now now' token password password' db user_id h a' =
    let w = reset-WasReset env now token password db user_id h in
    let hash = env.hash_opaque_token token in
    let used : PasswordResetToken = record w.row { consumed_at = some now } in
    let hit : (w.row.id == w.row.id) ≡ true = ground arith in
    let k =
      find_first-kept (is_token hash) (λ t. t.id == w.row.id)
        (λ t. record t { consumed_at = some now }) (λ t. refl) db.reset_tokens w.row w.found in
    let k' = rw (hit) at k in
    let after = write_reset env now w.row password db in
    let gone : find_first (is_token hash) after.reset_tokens ≡ some used = k' in
    let spent : is_usable now' used ≡ false = ground arith in
    rw (w.written) (
      rw (w.same) (user_none now user_id db.sessions),
      used_refused env now' token password' after used a' gone spent,
    )
