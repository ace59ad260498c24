-- ===== src/Environment.antt =====
-- What the services take from outside the repository's code: the settings of the configuration, the
-- text functions of JavaScript, time zones, distances, and the message of an error. It has no laws: a
-- theorem that relies on what one of these functions returns says so.
use guardtrak_api.Prelude.{ℕ, Bool, Option, String, List, none, some, get_or_else}
use guardtrak_api.Errors.{AppException}
use guardtrak_api.Common.Tenant.{RequestUser}
use guardtrak_api.Prelude.Int.{JsNumber}
use guardtrak_api.Timezone.{Intl}
use guardtrak_api.Idempotency.Types.{IdempotencyBeginInput}

pub record Environment : Type 0 where
  pub trim : String → String  -- `String.prototype.trim`
  pub error_message : AppException → ℕ  -- `error.message`
  pub hash_request_payload : List (Option ℕ) → ℕ  -- SHA-256 of the payload as JSON
  pub text_value : String → ℕ  -- a text as it stands in a payload
  pub number_value : JsNumber → ℕ  -- a number as it stands in a payload
  pub id_text : ℕ → String  -- a UUID as text
  pub device_time_tolerance_minutes : Option ℕ
  pub idempotency_ttl_seconds : Option ℕ
  pub geofence_enabled : Option Bool
  pub intl : Intl
  -- `distanceMeters` of geofence.service.ts: trigonometry on floating-point numbers
  pub distance_meters : JsNumber → JsNumber → JsNumber → JsNumber → ℕ

-- The clock at the call and at a second attempt, and the identifier of a new row.
pub record Call : Type 0 where
  pub now : ℕ
  pub retry_at : ℕ
  pub new_id : ℕ

-- A text that may be missing, as it stands in a payload.
abbrev pub text_of : Environment → Option String → Option ℕ
text_of env none = none
text_of env (some text) = some (env.text_value text)

-- The argument of `idempotencyService.begin`.
unfoldable pub begin_input : Environment → RequestUser → ℕ → ℕ → ℕ → ℕ → IdempotencyBeginInput
begin_input env user organisation_id key operation request_hash = record {
  key = key;
  organisation_id = some organisation_id;
  user_id = user.id;
  operation = operation;
  request_hash = request_hash;
  ttl_seconds = get_or_else env.idempotency_ttl_seconds 86400;
}
