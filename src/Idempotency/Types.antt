-- ===== src/Idempotency/Types.antt =====
-- common/idempotency/idempotency.types.ts and the row behind it. Texts that the code only compares
-- (the key, the operation, the request's hash) and UUIDs are numbers; a `Date` is its milliseconds.
use guardtrak_api.Prelude.{ℕ, Bool, true, false, Option}

pub data SyncOperationStatus : Type 0 where
  received processing completed failed conflict expired : SyncOperationStatus

pub data IdempotencyStatus : Type 0 where
  started completed failed conflict expired : IdempotencyStatus

-- `SYNC_TO_LOGICAL_STATUS[status]`
unfoldable pub to_logical_idempotency_status : SyncOperationStatus → IdempotencyStatus
to_logical_idempotency_status SyncOperationStatus.received = IdempotencyStatus.started
to_logical_idempotency_status SyncOperationStatus.processing = IdempotencyStatus.started
to_logical_idempotency_status SyncOperationStatus.completed = IdempotencyStatus.completed
to_logical_idempotency_status SyncOperationStatus.failed = IdempotencyStatus.failed
to_logical_idempotency_status SyncOperationStatus.conflict = IdempotencyStatus.conflict
to_logical_idempotency_status SyncOperationStatus.expired = IdempotencyStatus.expired

unfoldable pub is_terminal_idempotency_status : IdempotencyStatus → Bool
is_terminal_idempotency_status IdempotencyStatus.completed = true
is_terminal_idempotency_status IdempotencyStatus.failed = true
is_terminal_idempotency_status IdempotencyStatus.conflict = true
is_terminal_idempotency_status IdempotencyStatus.expired = true
is_terminal_idempotency_status IdempotencyStatus.started = false

-- What `responseBody` holds: the response of an operation, or `{ error: message }`.
pub data StoredBody (B : Type 0) : Type 0 where
  response : B → StoredBody B
  error_message : ℕ → StoredBody B

-- A row of the table, and what `mapRow` hands out of it. The fields that the store never sets or
-- reads (`resourceType`, `resourceId`, `createdAt`, `updatedAt`, `id`) are left out.
pub record IdempotencyRow (B : Type 0) : Type 0 where
  pub user_id : ℕ
  pub key : ℕ
  pub organisation_id : Option ℕ
  pub operation : ℕ
  pub request_hash : ℕ
  pub status : SyncOperationStatus
  pub http_status : Option ℕ
  pub response_body : Option (StoredBody B)
  pub locked_until : Option ℕ
  pub expires_at : ℕ

pub record IdempotencyRecord (B : Type 0) : Type 0 where
  pub user_id : ℕ
  pub key : ℕ
  pub organisation_id : Option ℕ
  pub operation : ℕ
  pub request_hash : ℕ
  pub status : IdempotencyStatus
  pub http_status : Option ℕ
  pub response_body : Option (StoredBody B)
  pub locked_until : Option ℕ
  pub expires_at : ℕ

pub record IdempotencyLookupResult (B : Type 0) : Type 0 where
  pub found : Bool
  pub record_found : Option (IdempotencyRecord B)
  pub replay : Bool

pub record IdempotencyBeginInput : Type 0 where
  pub key : ℕ
  pub organisation_id : Option ℕ
  pub user_id : ℕ
  pub operation : ℕ
  pub request_hash : ℕ
  pub ttl_seconds : ℕ
