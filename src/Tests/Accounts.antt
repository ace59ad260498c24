-- ===== src/Tests/Accounts.antt =====
-- One account with its sessions: signing in, a refresh, its replay, wrong passwords and a reset.
use guardtrak_api.Prelude.{
  ℕ, ◌+◌, true, false, ◌≡◌, ◌≢◌, refl, arith, none, some, [], ◌∷◌, ◌==◌, total, indicator,
  find_first, update_where,
}
use guardtrak_api.Errors.{
  ok, throw, unauthorized_401, locked_423, bad_request_400, auth_refresh_reused,
  auth_account_locked, auth_reset_token_invalid, AppException, too_many_requests_429,
  auth_reset_code_invalid, auth_reset_code_attempts_exceeded,
}
use guardtrak_api.Common.Tenant.{UserRole}
use guardtrak_api.Transitions.DeviceStatus.{DeviceStatus}
use guardtrak_api.Auth.Tables.{
  AuthDb, AuthCall, AuthEnvironment, AccountStatus, OrganisationStatus, DevicePlatform,
  PasswordResetPurpose, PasswordResetToken, RequestContext, Session, User, LoginDevice,
}
use guardtrak_api.Auth.Sessions.{lives_in, lives_for, find_by_refresh_token}
use guardtrak_api.Auth.Login.{LoginDto, AuthTokens, resolve_login_user}
use guardtrak_api.Auth.SignIn.{login}
use guardtrak_api.Auth.Refresh.{
  refresh, refresh_session, validate_access_user, check_session, check_device,
}
use guardtrak_api.Auth.Reset.{verify_otp, max_attempts, reset_with_token}
use guardtrak_api.Auth.Requests.{IsUnused}
use guardtrak_api.Auth.Families.{OneLive}
use guardtrak_api.Auth.Histories.{here, next, refreshes, Requests-OneLive}
use guardtrak_api.Auth.Replay.{replay_kills_family}
use guardtrak_api.Auth.Access.{Accepted, validate-Accepted}
use guardtrak_api.Auth.Lockout.{IsWrong, locked_out}
use guardtrak_api.Auth.Reset.Once.{reset_once}
use guardtrak_api.Auth.Reset.Guesses.{OneCode}
use guardtrak_api.Auth.Reset.Refusals.{Refusals, guesses_bounded}

-- A hash is the text itself, here.
abbrev auth_env : AuthEnvironment
auth_env = record {
  normalise_code = λ c. c;
  trim_id = λ n. n;
  platform_code = 0;
  verify_password = λ hash password. hash == password;
  hash_password = λ password. password;
  needs_rehash = λ hash. false;
  is_allowed_password = λ password. true;
  hash_opaque_token = λ token. token;
  build_session_fingerprint = λ agent platform. 1;
  refresh_lifetime_ms = 1000000;
  max_failed_attempts = some 1;
  password_history_count = none;
  lockout_minutes = none;
  password_max_age_days = none;
  strict_fingerprint = none;
  web_device_auto_approve = none;
  new_device_auto_approve = none;
  enforce_device_ownership = none;
  is_development = false;
  is_deployed = true;
  bypass_installation_ids = [];
  password_reset_otp_expires_minutes = none;
  password_reset_max_attempts = some 2;
  reset_token_expires_minutes = none;
}

abbrev auth_call : ℕ → ℕ → AuthCall
auth_call now n = record {
  now = now;
  new_id = n;
  new_family_id = n + 100;
  new_device_id = n + 200;
  new_token = n + 300;
}

abbrev browser : RequestContext
browser = record { ip_address = none; user_agent = some 9 }

abbrev ama : User
ama = record {
  id = 1;
  organisation_id = some 10;
  employee_id = some 77;
  password_hash = 5555;
  role = UserRole.security_officer;
  status = AccountStatus.active;
  must_change_password = false;
  last_login_at = none;
  password_changed_at = none;
  failed_login_attempts = 0;
  locked_until = none;
  created_at = 0;
  deleted_at = none;
}

abbrev phone : LoginDevice
phone = record {
  id = 5;
  organisation_id = 10;
  user_id = 1;
  installation_id = 6;
  platform = DevicePlatform.android;
  device_name = none;
  manufacturer = none;
  model = none;
  operating_system = none;
  operating_system_version = none;
  app_version = none;
  status = DeviceStatus.active;
  trusted_at = none;
  trust_score = 60;
  last_seen_at = none;
}

abbrev first_session : Session
first_session = record {
  id = 1;
  user_id = 1;
  device_id = some 5;
  token_hash = 301;
  family_id = 101;
  expires_at = 1000000;
  revoked_at = none;
  replaced_by_session_id = none;
  last_used_at = none;
  ip_address = none;
  user_agent = some 9;
  fingerprint = some 1;
}

abbrev code_row : PasswordResetToken
code_row = record {
  id = 1;
  user_id = 1;
  purpose = PasswordResetPurpose.otp;
  token_hash = 123456;
  expires_at = 600000;
  consumed_at = none;
  attempts = 0;
}

abbrev token_row : PasswordResetToken
token_row = record code_row { id = 2; purpose = PasswordResetPurpose.reset_token; token_hash = 700 }

abbrev auth_db : AuthDb
auth_db = record {
  organisations =
      record { id = 10; code = 42; status = OrganisationStatus.active; deleted_at = none } ∷ [];
  users = ama ∷ [];
  sessions = first_session ∷ [];
  devices = phone ∷ [];
  reset_tokens = token_row ∷ code_row ∷ [];
  histories = [];
  audits = [];
}

auth-OneLive : OneLive auth_db.sessions
unfolding total
auth-OneLive = record { distinct = λ i. ground arith; one_live = λ f. ground arith }

auth-IsUnused : IsUnused auth_env (auth_call 1000 2) auth_db
unfolding find_first
auth-IsUnused = record { id = refl; family = refl; token = refl }

abbrev after_refresh : AuthDb
after_refresh = (refresh auth_env (auth_call 1000 2) 301 browser auth_db).1

abbrev refreshed_tokens : AuthTokens
refreshed_tokens = record {
  sub = 1;
  session_id = 2;
  device_id = some 5;
  refresh_token = 302;
  refresh_token_expires_at = 1001000;
}

refresh_works : (refresh auth_env (auth_call 1000 2) 301 browser auth_db).0 ≡ ok refreshed_tokens
unfolding refresh find_first refresh_session
refresh_works = refl

again-IsUnused : IsUnused auth_env (auth_call 2000 3) after_refresh
unfolding refresh find_first refresh_session update_where
again-IsUnused = record { id = refl; family = refl; token = refl }

holder_found : find_by_refresh_token auth_env 301 auth_db ≡ some first_session
unfolding find_by_refresh_token find_first
holder_found = refl

Requests-OneLive_example : OneLive after_refresh.sessions
Requests-OneLive_example =
    Requests-OneLive (next here (refreshes (auth_call 1000 2) 301 browser auth-IsUnused))
      auth-OneLive

replay_kills_family_example :
    ((refresh auth_env (auth_call 2000 3) 301 browser after_refresh).0
      ≡ throw unauthorized_401 auth_refresh_reused)
    × (total
          (indicator (lives_in 101))
          (refresh auth_env (auth_call 2000 3) 301 browser after_refresh).1.sessions
        ≡ 0)
replay_kills_family_example =
    replay_kills_family auth_env (auth_call 1000 2) 301 browser auth_db refreshed_tokens
      first_session after_refresh (auth_call 2000 3) browser
      (refresh auth_env (auth_call 2000 3) 301 browser after_refresh).1 auth-OneLive auth-IsUnused
      holder_found refresh_works here again-IsUnused here

access_works : validate_access_user 1 1 auth_db ≡ ok (ama, first_session)
unfolding validate_access_user find_first check_session check_device
access_works = refl

validate-Accepted_example : Accepted 1 1 auth_db ama first_session
validate-Accepted_example = validate-Accepted 1 1 auth_db ama first_session access_works

abbrev login_dto : ℕ → LoginDto
login_dto password = record {
  organisation_code = 42;
  employee_id = 77;
  password = password;
  installation_id = 6;
  platform = DevicePlatform.android;
  device_name = none;
  manufacturer = none;
  model = none;
  operating_system = none;
  operating_system_version = none;
  app_version = none;
}

ama_resolved : resolve_login_user auth_env 42 77 auth_db ≡ some ama
unfolding resolve_login_user find_first
ama_resolved = refl

ama-IsWrong : IsWrong auth_env 1000 (login_dto 4444) auth_db ama
ama-IsWrong = record { resolved = ama_resolved; may = refl; open_ = refl; wrong = refl }

locked_out_example :
    login auth_env
      (auth_call 2000 3)
      (login_dto 5555)
      browser
      (login auth_env (auth_call 1000 2) (login_dto 4444) browser auth_db).1
    ≡ (
      throw locked_423 auth_account_locked,
      (login auth_env (auth_call 1000 2) (login_dto 4444) browser auth_db).1,
    )
locked_out_example =
    locked_out auth_env (auth_call 1000 2) (login_dto 4444) browser auth_db ama (auth_call 2000 3)
      (login_dto 5555) browser ama-IsWrong (omega arith) refl refl (omega arith)

reset_works : (reset_with_token auth_env 1000 700 6666 auth_db).0 ≡ ok 1
unfolding reset_with_token find_first
reset_works = refl

reset_once_example :
    (total (indicator (lives_for 1)) (reset_with_token auth_env 1000 700 6666 auth_db).1.sessions
      ≡ 0)
    × (reset_with_token auth_env 2000 700 7777 (reset_with_token auth_env 1000 700 6666 auth_db).1
        ≡ (
          throw bad_request_400 auth_reset_token_invalid,
          (reset_with_token auth_env 1000 700 6666 auth_db).1,
        ))
reset_once_example = reset_once auth_env 1000 2000 700 6666 7777 auth_db 1 reset_works refl

ama-OneCode : OneCode 1 auth_db.reset_tokens
unfolding total
ama-OneCode = record { distinct = λ i. ground arith; one_open = omega arith }

abbrev wrong : AppException
wrong = record { status = bad_request_400; error_code = auth_reset_code_invalid }

abbrev exceeded : AppException
exceeded = record { status = too_many_requests_429; error_code = auth_reset_code_attempts_exceeded }

abbrev wrong_once : AuthDb
wrong_once = (verify_otp auth_env (auth_call 1000 7) 42 77 111111 auth_db).1

abbrev wrong_twice : AuthDb
wrong_twice = (verify_otp auth_env (auth_call 1100 8) 42 77 222222 wrong_once).1

two_wrong-Refusals : Refusals auth_env 42 77 auth_db 2 wrong_twice
unfolding verify_otp find_first update_where
two_wrong-Refusals =
    Refusals.one_more (auth_call 1100 8) 222222 exceeded
      (Refusals.one_more (auth_call 1000 7) 111111 wrong Refusals.none_yet refl) refl

guesses_bounded_example :
    (verify_otp auth_env (auth_call 2000 9) 42 77 123456 wrong_twice).0 ≢ ok 309
unfolding max_attempts
guesses_bounded_example =
    guesses_bounded auth_env 42 77 2 auth_db wrong_twice ama (auth_call 2000 9) 123456 309
      ama_resolved ama-OneCode two_wrong-Refusals (omega arith)
