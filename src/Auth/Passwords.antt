-- ===== src/Auth/Passwords.antt =====
-- `changePassword` of modules/auth/auth.service.ts, with the history of passwords.
use guardtrak_api.Prelude.{
  ℕ, zero, suc, Bool, false, ◌||◌, not, none, some, List, [], ◌∷◌, ◌==◌, find_first, get_or_else,
  if◌then◌else◌,
}
use guardtrak_api.Errors.{
  Result, ok, err, throw, ensure, ◌>>◌, bad_request_400, not_found_404, resource_not_found,
  auth_password_policy_failed, auth_password_reuse, auth_current_password_invalid,
}
use guardtrak_api.Auth.Tables.{AuthDb, AuthEnvironment, AuthEvent, User, PasswordHistory, Answer}
use guardtrak_api.Auth.Sessions.{revoke_all_for_user, record_event}
use guardtrak_api.Auth.Login.{update_user}
use guardtrak_api.Auth.Reset.{with_password}

-- Whether the password is one of the last of the user.
unfoldable pub is_recent : AuthEnvironment → ℕ → ℕ → ℕ → List PasswordHistory → Bool
is_recent env user_id password left [] = false
is_recent env user_id password zero (h ∷ rest) = false
is_recent env user_id password (suc left) (h ∷ rest) =
    let here = is_recent env user_id password left rest in
    let further = is_recent env user_id password (suc left) rest in
    if h.user_id == user_id then env.verify_password h.password_hash password || here else further

-- The rows of the user beyond the newest are deleted.
unfoldable pub keep_recent : ℕ → ℕ → List PasswordHistory → List PasswordHistory
keep_recent user_id left [] = []
keep_recent user_id zero (h ∷ rest) =
    let kept = keep_recent user_id zero rest in if h.user_id == user_id then kept else h ∷ kept
keep_recent user_id (suc left) (h ∷ rest) =
    let kept = keep_recent user_id left rest in
    let all_kept = keep_recent user_id (suc left) rest in
    h ∷ (if h.user_id == user_id then kept else all_kept)

unfoldable pub history_limit : AuthEnvironment → ℕ
history_limit env = get_or_else env.password_history_count 5

unfoldable pub write_change : AuthEnvironment → ℕ → User → ℕ → AuthDb → AuthDb
unfolding keep_recent history_limit update_user with_password revoke_all_for_user record_event
write_change env now user new_password db =
    record_event user.id user.id AuthEvent.password_changed (
      revoke_all_for_user now user.id (
        update_user user.id (with_password now (env.hash_password new_password)) (record db {
          histories =
              keep_recent user.id (history_limit env)
                (record { user_id = user.id; password_hash = user.password_hash } ∷ db.histories);
        })))

unfoldable pub check_change : AuthEnvironment → User → ℕ → ℕ → AuthDb → Result (Unit {0})
unfolding is_recent history_limit
check_change env user current_password new_password db = do
  ensure (env.verify_password user.password_hash current_password) bad_request_400
      auth_current_password_invalid
  ensure (not (current_password == new_password)) bad_request_400 auth_password_reuse
  ensure (env.is_allowed_password new_password) bad_request_400 auth_password_policy_failed
  ensure
      (not (
        env.verify_password user.password_hash new_password
        || is_recent env user.id new_password (history_limit env) db.histories))
      bad_request_400 auth_password_reuse

unfoldable pub change_password : AuthEnvironment → ℕ → ℕ → ℕ → ℕ → ℕ → AuthDb → Answer (Unit {0})
unfolding check_change write_change
change_password env now user_id current_password new_password confirm_password db =
    if new_password == confirm_password
    then elim (find_first (λ u. u.id == user_id) db.users) [
      | none ↦ (throw not_found_404 resource_not_found, db)
      | some user ↦ elim (check_change env user current_password new_password db) [
        | err thrown ↦ (err thrown, db)
        | ok checked ↦ (ok tt, write_change env now user new_password db)
      ]
    ]
    else (throw bad_request_400 auth_password_policy_failed, db)
