-- ===== src/Auth/Reset.antt =====
-- modules/auth/services/password-reset.service.ts, and `forgotPassword`, `verifyOtp`, `resetPassword` and
-- `changePassword` of modules/auth/auth.service.ts. A hash that is taken already breaks the unique index
-- of the reset tokens: its transaction writes nothing, and the answer is a conflict.
pub mod Moves
pub mod Once
pub mod Guesses
pub mod Refusals
use guardtrak_api.Prelude.{
  ℕ, zero, suc, ◌+◌, ◌*◌, Bool, true, false, ◌&&◌, ◌||◌, not, Option, none, some, List, [], ◌∷◌,
  ◌==◌, ltb, leb, is_some, find_first, update_where, get_or_else, if◌then◌else◌,
}
use guardtrak_api.Errors.{
  Result, ok, err, throw, ensure, ◌>>=◌, ◌>>◌, AppException, HttpStatus, bad_request_400,
  conflict_409, too_many_requests_429, not_found_404, resource_not_found, conflict,
  auth_reset_code_invalid, auth_reset_code_expired, auth_reset_code_attempts_exceeded,
  auth_reset_token_invalid, auth_password_policy_failed, auth_password_reuse,
  auth_current_password_invalid,
}
use guardtrak_api.Auth.Tables.{
  AuthDb, AuthCall, AuthEnvironment, AuthEvent, AccountStatus, User, PasswordResetPurpose,
  PasswordResetToken, PasswordHistory, Answer,
}
use guardtrak_api.Auth.Sessions.{revoke_all_for_user, record_event}
use guardtrak_api.Auth.Login.{resolve_login_user, update_user}

abbrev pub is_otp : PasswordResetPurpose → Bool
is_otp PasswordResetPurpose.otp = true
is_otp PasswordResetPurpose.reset_token = false

-- `where: { userId, purpose: OTP, consumedAt: null }`
abbrev pub is_open_otp : ℕ → PasswordResetToken → Bool
is_open_otp user_id t = t.user_id == user_id && (is_otp t.purpose && not (is_some t.consumed_at))

abbrev pub is_token : ℕ → PasswordResetToken → Bool
is_token token_hash t = t.token_hash == token_hash

unfoldable pub new_reset_token : ℕ → ℕ → PasswordResetPurpose → ℕ → ℕ → PasswordResetToken
new_reset_token id user_id purpose token_hash expires_at = record {
  id = id;
  user_id = user_id;
  purpose = purpose;
  token_hash = token_hash;
  expires_at = expires_at;
  consumed_at = none;
  attempts = 0;
}

-- The open codes of the user are used up, and the new one comes in.
unfoldable pub issue_otp : AuthEnvironment → AuthCall → User → AuthDb → Answer ℕ
unfolding new_reset_token
issue_otp env call user db =
    let token_hash = env.hash_opaque_token call.new_token in
    let expires_at = call.now + get_or_else env.password_reset_otp_expires_minutes 10 * 60000 in
    if is_some (find_first (is_token token_hash) db.reset_tokens)
    then (throw conflict_409 conflict, db)
    else (
      ok call.new_token,
      record db {
        reset_tokens =
            new_reset_token call.new_id user.id PasswordResetPurpose.otp token_hash expires_at
            ∷ update_where (is_open_otp user.id) (λ t. record t { consumed_at = some call.now })
                db.reset_tokens;
      },
    )

abbrev pub is_archived : AccountStatus → Bool
is_archived AccountStatus.archived = true
is_archived _ = false

-- The answer is the same whether the account is there or not: the code, where one is issued, goes out
-- by mail.
unfoldable pub forgot_password : AuthEnvironment → AuthCall → ℕ → ℕ → AuthDb → Answer (Unit {0})
unfolding issue_otp record_event resolve_login_user
forgot_password env call organisation_code employee_id db =
    elim (resolve_login_user env organisation_code employee_id db) [
      | none ↦ (ok tt, db)
      | some user ↦
          let issued = issue_otp env call user db in
          if is_archived user.status then (ok tt, db) else elim issued.0 [
            | err thrown ↦ (err thrown, issued.1)
            | ok code ↦
                (ok tt, record_event user.id user.id AuthEvent.password_reset_requested issued.1)
          ]
    ]

-- A code of the user with this hash.
abbrev pub is_code : ℕ → ℕ → PasswordResetToken → Bool
is_code user_id token_hash t =
    t.user_id == user_id && (is_otp t.purpose && t.token_hash == token_hash)

unfoldable pub max_attempts : AuthEnvironment → ℕ
max_attempts env = get_or_else env.password_reset_max_attempts 5

unfoldable pub check_code : AuthEnvironment → ℕ → User → ℕ → AuthDb → Result PasswordResetToken
unfolding max_attempts
check_code env now user otp db =
    elim (find_first (is_code user.id (env.hash_opaque_token otp)) db.reset_tokens) [
      | none ↦ throw bad_request_400 auth_reset_code_invalid
      | some row ↦ do
        ensure (not (is_some row.consumed_at)) bad_request_400 auth_reset_code_invalid
        ensure (leb now row.expires_at) bad_request_400 auth_reset_code_expired
        ensure (not (leb (max_attempts env) row.attempts)) too_many_requests_429
            auth_reset_code_attempts_exceeded
        ok row
    ]

-- The code is used up, and a reset token takes its place.
unfoldable pub exchange : AuthEnvironment → AuthCall → User → PasswordResetToken → AuthDb → Answer ℕ
unfolding new_reset_token
exchange env call user row db =
    let token_hash = env.hash_opaque_token call.new_token in
    let expires_at = call.now + get_or_else env.reset_token_expires_minutes 15 * 60000 in
    if is_some (find_first (is_token token_hash) db.reset_tokens)
    then (throw conflict_409 conflict, db)
    else (
      ok call.new_token,
      record db {
        reset_tokens =
            new_reset_token call.new_id user.id PasswordResetPurpose.reset_token token_hash
              expires_at
            ∷ update_where (λ t. t.id == row.id) (λ t. record t { consumed_at = some call.now })
                db.reset_tokens;
      },
    )

unfoldable pub exchange_code : AuthEnvironment → AuthCall → User → ℕ → AuthDb → Answer ℕ
unfolding check_code exchange
exchange_code env call user otp db = elim (check_code env call.now user otp db) [
  | err thrown ↦ (err thrown, db)
  | ok row ↦ exchange env call user row db
]

-- One more wrong attempt at the newest open code, which is used up by the last that is allowed.
unfoldable pub count_attempt : AuthEnvironment → ℕ → PasswordResetToken → PasswordResetToken
unfolding max_attempts
count_attempt env now t = record t {
  attempts = suc t.attempts;
  consumed_at = if leb (max_attempts env) (suc t.attempts) then some now else t.consumed_at;
}

unfoldable pub register_invalid_otp_attempt : AuthEnvironment → ℕ → ℕ → AuthDb → Answer (Unit {0})
unfolding count_attempt max_attempts
register_invalid_otp_attempt env now user_id db =
    elim (find_first (is_open_otp user_id) db.reset_tokens) [
      | none ↦ (ok tt, db)
      | some latest ↦ (
        ensure (not (leb (max_attempts env) (suc latest.attempts))) too_many_requests_429
            auth_reset_code_attempts_exceeded,
        record db {
          reset_tokens =
              update_where (λ t. t.id == latest.id) (λ t. count_attempt env now latest)
                db.reset_tokens;
        },
      )
    ]

abbrev pub is_429 : HttpStatus → Bool
is_429 too_many_requests_429 = true
is_429 _ = false

-- The `catch` of `verifyOtp`.
unfoldable pub refuse_code : AuthEnvironment → ℕ → User → AppException → AuthDb → Answer ℕ
unfolding register_invalid_otp_attempt
refuse_code env now user thrown db =
    let registered = register_invalid_otp_attempt env now user.id db in
    if is_429 thrown.status
    then (err thrown, db)
    else (registered.0 >> throw bad_request_400 auth_reset_code_invalid, registered.1)

unfoldable pub verify_otp : AuthEnvironment → AuthCall → ℕ → ℕ → ℕ → AuthDb → Answer ℕ
unfolding resolve_login_user exchange_code refuse_code
verify_otp env call organisation_code employee_id otp db =
    elim (resolve_login_user env organisation_code employee_id db) [
      | none ↦ (throw bad_request_400 auth_reset_code_invalid, db)
      | some user ↦
          let exchanged = exchange_code env call user otp db in
          elim exchanged.0 [
            | err thrown ↦ refuse_code env call.now user thrown exchanged.1
            | ok token ↦ exchanged
          ]
    ]

-- The password changed, and what locked the account taken back.
unfoldable pub with_password : ℕ → ℕ → User → User
with_password now password_hash u = record u {
  password_hash = password_hash;
  password_changed_at = some now;
  must_change_password = false;
  failed_login_attempts = 0;
  locked_until = none;
}

-- A reset token that is still good.
abbrev pub is_usable : ℕ → PasswordResetToken → Bool
is_usable now t = not (is_otp t.purpose) && (not (is_some t.consumed_at) && leb now t.expires_at)

-- The token used up, the password written, and every session of the user revoked.
unfoldable pub write_reset : AuthEnvironment → ℕ → PasswordResetToken → ℕ → AuthDb → AuthDb
unfolding update_user with_password revoke_all_for_user
write_reset env now row new_password db = revoke_all_for_user now row.user_id (
    update_user row.user_id (with_password now (env.hash_password new_password)) (record db {
      reset_tokens =
          update_where (λ t. t.id == row.id) (λ t. record t { consumed_at = some now })
            db.reset_tokens;
    }))

-- The user whose password is reset.
unfoldable pub reset_with_token : AuthEnvironment → ℕ → ℕ → ℕ → AuthDb → Answer ℕ
unfolding write_reset
reset_with_token env now reset_token new_password db =
    if env.is_allowed_password new_password
    then elim (find_first (is_token (env.hash_opaque_token reset_token)) db.reset_tokens) [
      | none ↦ (throw bad_request_400 auth_reset_token_invalid, db)
      | some row ↦
          if is_usable now row
          then (ok row.user_id, write_reset env now row new_password db)
          else (throw bad_request_400 auth_reset_token_invalid, db)
    ]
    else (throw bad_request_400 auth_password_policy_failed, db)

unfoldable pub reset_password : AuthEnvironment → ℕ → ℕ → ℕ → ℕ → AuthDb → Answer (Unit {0})
unfolding reset_with_token record_event
reset_password env now reset_token new_password confirm_password db =
    let reset = reset_with_token env now reset_token new_password db in
    if new_password == confirm_password
    then elim reset.0 [
      | err thrown ↦ (err thrown, reset.1)
      | ok user_id ↦
          (ok tt, record_event user_id user_id AuthEvent.password_reset_completed reset.1)
    ]
    else (throw bad_request_400 auth_password_policy_failed, db)
