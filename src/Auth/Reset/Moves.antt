-- ===== src/Auth/Reset/Moves.antt =====
-- The requests that reset or change a password as moves of the table of sessions.
use guardtrak_api.Prelude.{
  ℕ, ◌≡◌, refl, arith, ◌==◌, find_first, Option-cases, Bool-cases, inl, inr, ◌∙◌,
}
use guardtrak_api.Errors.{Result-cases, AppException}
use guardtrak_api.Auth.Tables.{AuthDb, AuthCall, AuthEnvironment, User}
use guardtrak_api.Auth.Sessions.{revoke_where, lives_for, revoke_all_for_user, record_event}
use guardtrak_api.Auth.Login.{resolve_login_user, update_user}
use guardtrak_api.Auth.Reset.{
  issue_otp, forgot_password, is_archived, exchange, exchange_code, register_invalid_otp_attempt,
  refuse_code, verify_otp, is_token, is_usable, write_reset, reset_with_token, reset_password,
}
use guardtrak_api.Auth.Passwords.{check_change, write_change, change_password}
use guardtrak_api.Auth.Families.{Moves, unchanged, revoked}

issue-sessions :
    (env : AuthEnvironment) (call : AuthCall) (user : User) (db : AuthDb)
    → (issue_otp env call user db).1.sessions ≡ db.sessions
unfolding issue_otp
issue-sessions env call user db = ground arith

pub forgot-sessions :
    (env : AuthEnvironment) (call : AuthCall) (organisation_code employee_id : ℕ) (db : AuthDb)
    → (forgot_password env call organisation_code employee_id db).1.sessions ≡ db.sessions
unfolding forgot_password record_event
forgot-sessions env call organisation_code employee_id db =
    elim (Option-cases (resolve_login_user env organisation_code employee_id db)) [
      | inl e ↦ rw (e, forgot_password) refl
      | inr (user, e) ↦
          let i = issue-sessions env call user db in
          elim (Bool-cases (is_archived user.status)) [
            | inl a ↦ rw (e, a, forgot_password) refl
            | inr a ↦ elim (Result-cases (issue_otp env call user db).0) [
              | inl (code, f) ↦ rw (e, a, f, forgot_password) i
              | inr (thrown, f) ↦ rw (e, a, f, forgot_password) i
            ]
          ]
    ]

invalid-sessions :
    (env : AuthEnvironment) (now user_id : ℕ) (db : AuthDb)
    → (register_invalid_otp_attempt env now user_id db).1.sessions ≡ db.sessions
unfolding register_invalid_otp_attempt
invalid-sessions env now user_id db = ground arith

refuse-sessions :
    (env : AuthEnvironment) (now : ℕ) (user : User) (thrown : AppException) (db : AuthDb)
    → (refuse_code env now user thrown db).1.sessions ≡ db.sessions
unfolding refuse_code
refuse-sessions env now user thrown db = let i = invalid-sessions env now user.id db in ground arith

exchange-sessions :
    (env : AuthEnvironment) (call : AuthCall) (user : User) (otp : ℕ) (db : AuthDb)
    → (exchange_code env call user otp db).1.sessions ≡ db.sessions
unfolding exchange_code exchange
exchange-sessions env call user otp db = ground arith

pub verify-sessions :
    (env : AuthEnvironment) (call : AuthCall) (organisation_code employee_id otp : ℕ) (db : AuthDb)
    → (verify_otp env call organisation_code employee_id otp db).1.sessions ≡ db.sessions
unfolding verify_otp
verify-sessions env call organisation_code employee_id otp db =
    elim (Option-cases (resolve_login_user env organisation_code employee_id db)) [
      | inl e ↦ rw (e, verify_otp) refl
      | inr (user, e) ↦
          let exchanged = exchange_code env call user otp db in
          let x = exchange-sessions env call user otp db in
          elim (Result-cases exchanged.0) [
            | inl (token, f) ↦ rw (e, f, verify_otp) x
            | inr (thrown, f) ↦
                rw (e, f, verify_otp) (refuse-sessions env call.now user thrown exchanged.1 ∙ x)
          ]
    ]

reset-Moves :
    (env : AuthEnvironment) (now reset_token new_password : ℕ) (db : AuthDb)
    → Moves db.sessions (reset_with_token env now reset_token new_password db).1.sessions
unfolding reset_with_token write_reset revoke_all_for_user revoke_where update_user
reset-Moves env now reset_token new_password db =
    elim (Bool-cases (env.is_allowed_password new_password)) [
      | inr a ↦ rw (a, reset_with_token) unchanged
      | inl a ↦
          elim (Option-cases
            (find_first (is_token (env.hash_opaque_token reset_token)) db.reset_tokens)) [
              | inl e ↦ rw (a, e, reset_with_token) unchanged
              | inr (row, e) ↦ elim (Bool-cases (is_usable now row)) [
                | inl f ↦ rw (a, e, f, reset_with_token) (revoked now (lives_for row.user_id))
                | inr f ↦ rw (a, e, f, reset_with_token) unchanged
              ]
            ]
    ]

pub reset_password-Moves :
    (env : AuthEnvironment) (now reset_token new_password confirm : ℕ) (db : AuthDb)
    → Moves db.sessions (reset_password env now reset_token new_password confirm db).1.sessions
unfolding reset_password record_event
reset_password-Moves env now reset_token new_password confirm db =
    let m = reset-Moves env now reset_token new_password db in
    elim (Bool-cases (new_password == confirm)) [
      | inr a ↦ rw (a, reset_password) unchanged
      | inl a ↦ elim (Result-cases (reset_with_token env now reset_token new_password db).0) [
        | inl (user_id, f) ↦ rw (a, f, reset_password) m
        | inr (thrown, f) ↦ rw (a, f, reset_password) m
      ]
    ]

pub change-Moves :
    (env : AuthEnvironment) (now user_id current_password new_password confirm : ℕ) (db : AuthDb)
    → Moves db.sessions
        (change_password env now user_id current_password new_password confirm db).1.sessions
unfolding change_password write_change record_event revoke_all_for_user revoke_where update_user
change-Moves env now user_id current_password new_password confirm db =
    elim (Bool-cases (new_password == confirm)) [
      | inr a ↦ rw (a, change_password) unchanged
      | inl a ↦ elim (Option-cases (find_first (λ u. u.id == user_id) db.users)) [
        | inl e ↦ rw (a, e, change_password) unchanged
        | inr (user, e) ↦
            elim (Result-cases (check_change env user current_password new_password db)) [
              | inl (checked, f) ↦ rw (a, e, f, change_password) (revoked now (lives_for user.id))
              | inr (thrown, f) ↦ rw (a, e, f, change_password) unchanged
            ]
      ]
    ]
