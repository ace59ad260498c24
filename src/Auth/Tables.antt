-- ===== src/Auth/Tables.antt =====
-- The tables of modules/auth (prisma/schema.prisma), and what its services take from outside: settings,
-- password hashing (argon2), SHA-256, random tokens and identifiers. Texts that are only compared are
-- numbers, as UUIDs are: passwords, tokens, hashes, organisation codes, employee numbers, user agents.
use guardtrak_api.Prelude.{ℕ, Bool, Option, List}
use guardtrak_api.Errors.{Result}
use guardtrak_api.Common.Tenant.{UserRole}
use guardtrak_api.Transitions.DeviceStatus.{DeviceStatus}

pub data AccountStatus : Type 0 where
  invited active suspended disabled archived : AccountStatus

pub data OrganisationStatus : Type 0 where
  active suspended archived : OrganisationStatus

pub data DevicePlatform : Type 0 where
  ios android web other : DevicePlatform

pub record Organisation : Type 0 where
  pub id : ℕ
  pub code : ℕ
  pub status : OrganisationStatus
  pub deleted_at : Option ℕ

pub record User : Type 0 where
  pub id : ℕ
  pub organisation_id : Option ℕ
  pub employee_id : Option ℕ
  pub password_hash : ℕ
  pub role : UserRole
  pub status : AccountStatus
  pub must_change_password : Bool
  pub last_login_at : Option ℕ
  pub password_changed_at : Option ℕ
  pub failed_login_attempts : ℕ
  pub locked_until : Option ℕ
  pub created_at : ℕ
  pub deleted_at : Option ℕ

-- A refresh session.
pub record Session : Type 0 where
  pub id : ℕ
  pub user_id : ℕ
  pub device_id : Option ℕ
  pub token_hash : ℕ
  pub family_id : ℕ
  pub expires_at : ℕ
  pub revoked_at : Option ℕ
  pub replaced_by_session_id : Option ℕ
  pub last_used_at : Option ℕ
  pub ip_address : Option ℕ
  pub user_agent : Option ℕ
  pub fingerprint : Option ℕ

pub data PasswordResetPurpose : Type 0 where
  otp reset_token : PasswordResetPurpose

pub record PasswordResetToken : Type 0 where
  pub id : ℕ
  pub user_id : ℕ
  pub purpose : PasswordResetPurpose
  pub token_hash : ℕ
  pub expires_at : ℕ
  pub consumed_at : Option ℕ
  pub attempts : ℕ

-- A password that was replaced.
pub record PasswordHistory : Type 0 where
  pub user_id : ℕ
  pub password_hash : ℕ

-- A device, with what signing in reads and writes of it.
pub record LoginDevice : Type 0 where
  pub id : ℕ
  pub organisation_id : ℕ
  pub user_id : ℕ
  pub installation_id : ℕ
  pub platform : DevicePlatform
  pub device_name : Option ℕ
  pub manufacturer : Option ℕ
  pub model : Option ℕ
  pub operating_system : Option ℕ
  pub operating_system_version : Option ℕ
  pub app_version : Option ℕ
  pub status : DeviceStatus
  pub trusted_at : Option ℕ
  pub trust_score : ℕ
  pub last_seen_at : Option ℕ

-- What an entry of the audit log says happened.
pub data AuthEvent : Type 0 where
  password_expired login_blocked_device_pending login_succeeded : AuthEvent
  refresh_reuse_detected fingerprint_mismatch logged_out all_sessions_revoked : AuthEvent
  account_locked : ℕ → AuthEvent
  password_reset_requested password_reset_completed password_changed : AuthEvent

pub record AuthAudit : Type 0 where
  pub actor_user_id : ℕ
  pub entity_id : ℕ
  pub event : AuthEvent

-- A new row is the first of its table, so `orderBy: { createdAt: 'desc' }` is the order of the rows.
pub record AuthDb : Type 0 where
  pub organisations : List Organisation
  pub users : List User
  pub sessions : List Session
  pub devices : List LoginDevice
  pub reset_tokens : List PasswordResetToken
  pub histories : List PasswordHistory
  pub audits : List AuthAudit

pub record AuthEnvironment : Type 0 where
  pub normalise_code : ℕ → ℕ  -- `trim().toUpperCase()`
  pub trim_id : ℕ → ℕ  -- `trim()`
  pub platform_code : ℕ  -- PLATFORM_ORGANISATION_CODE
  pub verify_password : ℕ → ℕ → Bool  -- argon2, the hash first
  pub hash_password : ℕ → ℕ  -- argon2
  pub needs_rehash : ℕ → Bool
  pub is_allowed_password : ℕ → Bool  -- the rules of `validatePolicy`
  pub hash_opaque_token : ℕ → ℕ  -- SHA-256
  pub build_session_fingerprint : Option ℕ → Option DevicePlatform → ℕ  -- SHA-256
  pub refresh_lifetime_ms : ℕ  -- jwt.refreshExpiresIn
  pub max_failed_attempts : Option ℕ
  pub password_history_count : Option ℕ
  pub lockout_minutes : Option ℕ
  pub password_max_age_days : Option ℕ
  pub strict_fingerprint : Option Bool
  pub web_device_auto_approve : Option Bool
  pub new_device_auto_approve : Option Bool
  pub enforce_device_ownership : Option Bool
  pub is_development : Bool  -- app.nodeEnv is development or test
  pub is_deployed : Bool  -- app.nodeEnv is production or staging
  pub bypass_installation_ids : List ℕ
  pub password_reset_otp_expires_minutes : Option ℕ
  pub password_reset_max_attempts : Option ℕ
  pub reset_token_expires_minutes : Option ℕ

-- The clock at the call, and what is drawn at random: the token, and the identifiers of new rows.
pub record AuthCall : Type 0 where
  pub now : ℕ
  pub new_id : ℕ
  pub new_family_id : ℕ
  pub new_device_id : ℕ
  pub new_token : ℕ

-- `RequestContext`
pub record RequestContext : Type 0 where
  pub ip_address : Option ℕ
  pub user_agent : Option ℕ

abbrev pub Answer : Type 0 → Type 0
Answer A = Result A × AuthDb
