-- ===== src/Auth/Histories.antt =====
-- Sequences of requests of modules/auth, one after the other, those that fail included.
use guardtrak_api.Prelude.{ℕ}
use guardtrak_api.Auth.Tables.{AuthDb, AuthCall, AuthEnvironment, RequestContext}
use guardtrak_api.Auth.Sessions.{
  revoke_where, revoke_session, revoke_all_for_user, revoke_all_for_device, record_event,
}
use guardtrak_api.Auth.Login.{LoginDto}
use guardtrak_api.Auth.SignIn.{login}
use guardtrak_api.Auth.Refresh.{refresh, logout, logout_all}
use guardtrak_api.Auth.Reset.{forgot_password, verify_otp, reset_password}
use guardtrak_api.Auth.Passwords.{change_password}
use guardtrak_api.Auth.Reset.Moves.{
  forgot-sessions, verify-sessions, reset_password-Moves, change-Moves,
}
use guardtrak_api.Auth.Requests.{IsUnused, login-Moves, refresh-Moves, same-Moves}
use guardtrak_api.Auth.Families.{Moves, revoked, OneLive, IsDead, Moves-OneLive, Moves-IsDead}
use guardtrak_api.Auth.Families.Spent.{IsSpent, Moves-IsSpent}

-- One request, whatever it answers.
pub data Request (env : AuthEnvironment) (db : AuthDb) : AuthDb → Type 0 where
  signs_in :
      (call : AuthCall) (dto : LoginDto) (ctx : RequestContext)
      → IsUnused env call db
      → Request env db (login env call dto ctx db).1
  refreshes :
      (call : AuthCall) (refresh_token : ℕ) (ctx : RequestContext)
      → IsUnused env call db
      → Request env db (refresh env call refresh_token ctx db).1
  logs_out : (now user_id session_id : ℕ) → Request env db (logout now user_id session_id db)
  logs_out_all : (now user_id : ℕ) → Request env db (logout_all now user_id db)
  device_signed_out : (now device_id : ℕ) → Request env db (revoke_all_for_device now device_id db)
  forgets :
      (call : AuthCall) (organisation_code employee_id : ℕ)
      → Request env db (forgot_password env call organisation_code employee_id db).1
  verifies :
      (call : AuthCall) (organisation_code employee_id otp : ℕ)
      → Request env db (verify_otp env call organisation_code employee_id otp db).1
  resets :
      (now reset_token new_password confirm : ℕ)
      → Request env db (reset_password env now reset_token new_password confirm db).1
  changes :
      (now user_id current_password new_password confirm : ℕ)
      → Request env db (change_password env now user_id current_password new_password confirm db).1

Request-Moves :
    {env : AuthEnvironment} {db db' : AuthDb}
    → Request env db db'
    → OneLive db.sessions
    → Moves db.sessions db'.sessions
unfolding logout logout_all record_event revoke_session revoke_all_for_user revoke_all_for_device
    revoke_where
Request-Moves {env} {db} (signs_in call dto ctx u) v = login-Moves env call dto ctx db u
Request-Moves {env} {db} (refreshes call refresh_token ctx u) v =
    refresh-Moves env call ctx db u v refresh_token
Request-Moves {env} {db} (logs_out now user_id session_id) v = revoked now _
Request-Moves {env} {db} (logs_out_all now user_id) v = revoked now _
Request-Moves {env} {db} (device_signed_out now device_id) v = revoked now _
Request-Moves {env} {db} (forgets call organisation_code employee_id) v =
    same-Moves (forgot-sessions env call organisation_code employee_id db)
Request-Moves {env} {db} (verifies call organisation_code employee_id otp) v =
    same-Moves (verify-sessions env call organisation_code employee_id otp db)
Request-Moves {env} {db} (resets now reset_token new_password confirm) v =
    reset_password-Moves env now reset_token new_password confirm db
Request-Moves {env} {db} (changes now user_id current_password new_password confirm) v =
    change-Moves env now user_id current_password new_password confirm db

pub data Requests (env : AuthEnvironment) (db : AuthDb) : AuthDb → Type 0 where
  here : Requests env db db
  next : {db' db'' : AuthDb} → Requests env db db' → Request env db' db'' → Requests env db db''

-- Any sequence of requests, one after the other and those that fail included, that sign in,
-- refresh, sign out, and reset or change passwords, where new identifiers and tokens are not in
-- use, keeps it true that sessions have distinct identifiers and that a family has at most one live
-- session.
pub Requests-OneLive :
    {env : AuthEnvironment} {db db' : AuthDb}
    → Requests env db db'
    → OneLive db.sessions
    → OneLive db'.sessions
Requests-OneLive here v = v
Requests-OneLive (next r q) v = let w = Requests-OneLive r v in Moves-OneLive (Request-Moves q w) w

pub Requests-IsDead :
    (f : ℕ) {env : AuthEnvironment} {db db' : AuthDb}
    → Requests env db db'
    → OneLive db.sessions
    → IsDead f db.sessions
    → IsDead f db'.sessions
Requests-IsDead f here v d = d
Requests-IsDead f (next r q) v d =
    let w = Requests-OneLive r v in Moves-IsDead f (Request-Moves q w) w (Requests-IsDead f r v d)

pub Requests-IsSpent :
    (h f : ℕ) {env : AuthEnvironment} {db db' : AuthDb}
    → Requests env db db'
    → OneLive db.sessions
    → IsSpent h f db.sessions
    → IsSpent h f db'.sessions
Requests-IsSpent h f here v d = d
Requests-IsSpent h f (next r q) v d =
    Moves-IsSpent h f (Request-Moves q (Requests-OneLive r v)) (Requests-IsSpent h f r v d)
