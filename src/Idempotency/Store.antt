-- ===== src/Idempotency/Store.antt =====
-- common/idempotency/prisma-idempotency.store.ts. The table is the list of its rows; the unique index
-- on (userId, key) is the lookup by both, and a second insert under it is the error P2002.
use guardtrak_api.Prelude.{
  ℕ, ◌+◌, ◌*◌, Bool, true, false, ◌&&◌, not, Option, none, some, List, [], ◌∷◌, ◌++◌, ltb, ◌==◌,
  if◌then◌else◌,
}
use guardtrak_api.Idempotency.Types.{
  SyncOperationStatus, IdempotencyRow, IdempotencyRecord, IdempotencyLookupResult,
  IdempotencyBeginInput, response, error_message, to_logical_idempotency_status,
}

abbrev pub processing_lock_ms : ℕ
processing_lock_ms = 30000

abbrev pub is_processing : SyncOperationStatus → Bool
is_processing SyncOperationStatus.processing = true
is_processing _ = false

abbrev pub is_completed : SyncOperationStatus → Bool
is_completed SyncOperationStatus.completed = true
is_completed _ = false

abbrev pub is_failed_or_conflict : SyncOperationStatus → Bool
is_failed_or_conflict SyncOperationStatus.failed = true
is_failed_or_conflict SyncOperationStatus.conflict = true
is_failed_or_conflict _ = false

-- `lockedUntil !== null && lockedUntil > now`
abbrev pub is_locked : Option ℕ → ℕ → Bool
is_locked none now = false
is_locked (some until) now = ltb now until

module _ {B : Type 0} where
  -- The row is that of (userId, key).
  abbrev pub has_key : ℕ → ℕ → IdempotencyRow B → Bool
  has_key user key row = row.user_id == user && row.key == key

  -- `findUnique({ where: { userId_key: { userId, key } } })`
  unfoldable pub find_unique : ℕ → ℕ → List (IdempotencyRow B) → Option (IdempotencyRow B)
  find_unique user key [] = none
  find_unique user key (row ∷ rows) =
      if has_key user key row then some row else find_unique user key rows

  -- `update({ where: { userId_key: … }, data })`
  unfoldable pub update_unique :
      ℕ
      → ℕ
      → (IdempotencyRow B → IdempotencyRow B)
      → List (IdempotencyRow B)
      → List (IdempotencyRow B)
  update_unique user key change [] = []
  update_unique user key change (row ∷ rows) =
      (if has_key user key row then change row else row) ∷ update_unique user key change rows

  unfoldable pub map_row : IdempotencyRow B → IdempotencyRecord B
  unfolding to_logical_idempotency_status
  map_row row = record {
    user_id = row.user_id;
    key = row.key;
    organisation_id = row.organisation_id;
    operation = row.operation;
    request_hash = row.request_hash;
    status = to_logical_idempotency_status row.status;
    http_status = row.http_status;
    response_body = row.response_body;
    locked_until = row.locked_until;
    expires_at = row.expires_at;
  }

  unfoldable pub build_processing_data :
      IdempotencyBeginInput → ℕ → IdempotencyRow B → IdempotencyRow B
  build_processing_data input now row = record row {
    operation = input.operation;
    request_hash = input.request_hash;
    status = SyncOperationStatus.processing;
    locked_until = some (now + processing_lock_ms);
    expires_at = now + input.ttl_seconds * 1000;
    http_status = none;
    response_body = none;
  }

  unfoldable pub new_row : IdempotencyBeginInput → ℕ → IdempotencyRow B
  new_row input now = record {
    user_id = input.user_id;
    key = input.key;
    organisation_id = input.organisation_id;
    operation = input.operation;
    request_hash = input.request_hash;
    status = SyncOperationStatus.processing;
    http_status = none;
    response_body = none;
    locked_until = some (now + processing_lock_ms);
    expires_at = now + input.ttl_seconds * 1000;
  }

  abbrev pub seen : Bool → IdempotencyRow B → IdempotencyLookupResult B
  unfolding map_row
  seen replay row = record { found = true; record_found = some (map_row row); replay = replay }

  abbrev pub claimed : IdempotencyRow B → IdempotencyLookupResult B
  unfolding map_row
  claimed row = record { found = false; record_found = some (map_row row); replay = false }

  -- The body of `if (existing)`.
  unfoldable pub begin_existing :
      IdempotencyBeginInput
      → ℕ
      → IdempotencyRow B
      → List (IdempotencyRow B)
      → IdempotencyLookupResult B × List (IdempotencyRow B)
  unfolding build_processing_data update_unique map_row
  begin_existing input now existing rows =
      let same_hash = existing.request_hash == input.request_hash in
      let change = build_processing_data input now in
      if is_processing existing.status && is_locked existing.locked_until now
      then (seen false existing, rows)
      else if is_completed existing.status
      then (seen same_hash existing, rows)
      else if is_failed_or_conflict existing.status && not same_hash
      then (seen false existing, rows)
      else (claimed (change existing), update_unique input.user_id input.key change rows)

  -- The row is inserted by others between the lookup and the `create`: those rows are `racing`. Where
  -- one of them takes the key, `create` fails with P2002 and `begin` starts again, at `retry_at`.
  unfoldable pub begin :
      IdempotencyBeginInput
      → ℕ
      → List (IdempotencyRow B)
      → ℕ
      → List (IdempotencyRow B)
      → IdempotencyLookupResult B × List (IdempotencyRow B)
  unfolding find_unique begin_existing new_row map_row
  begin input now racing retry_at rows = elim (find_unique input.user_id input.key rows) [
    | some existing ↦ begin_existing input now existing rows
    | none ↦ elim (find_unique input.user_id input.key (racing ++ rows)) [
      | some winner ↦ begin_existing input retry_at winner (racing ++ rows)
      | none ↦ (claimed (new_row input now), new_row input now ∷ racing ++ rows)
    ]
  ]

  unfoldable pub complete : ℕ → ℕ → ℕ → B → List (IdempotencyRow B) → List (IdempotencyRow B)
  unfolding update_unique
  complete user key response_status_code response_body = update_unique user key λ row. record row {
    status = SyncOperationStatus.completed;
    http_status = some response_status_code;
    response_body = some (response response_body);
    locked_until = none;
  }

  unfoldable pub fail : ℕ → ℕ → ℕ → List (IdempotencyRow B) → List (IdempotencyRow B)
  unfolding update_unique
  fail user key message = update_unique user key λ row. record row {
    status = SyncOperationStatus.failed;
    locked_until = none;
    response_body = some (error_message message);
  }
