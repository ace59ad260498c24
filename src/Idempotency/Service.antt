-- ===== src/Idempotency/Service.antt =====
-- common/idempotency/idempotency.service.ts, and the shape in which the services use it. Without a
-- registered store (`none`) an operation goes on with nothing recorded.
use guardtrak_api.Prelude.{
  ℕ, Bool, true, false, ◌&&◌, not, Option, none, some, List, ◌==◌, if◌then◌else◌,
}
use guardtrak_api.Errors.{
  Result, ok, err, throw, conflict_409, AppException, idempotency_operation_in_progress,
  idempotency_key_reused_with_different_payload,
}
use guardtrak_api.Idempotency.Types.{
  IdempotencyStatus, IdempotencyRow, IdempotencyLookupResult, IdempotencyBeginInput, StoredBody,
  response, is_terminal_idempotency_status,
}
use guardtrak_api.Idempotency.Store

abbrev is_started : IdempotencyStatus → Bool
is_started IdempotencyStatus.started = true
is_started _ = false

module _ {B : Type 0} where
  -- The checks of `begin` on what the store found.
  unfoldable pub check_found :
      IdempotencyBeginInput → IdempotencyLookupResult B → Result (IdempotencyLookupResult B)
  unfolding is_terminal_idempotency_status
  check_found input result = if result.replay then ok result else elim result.record_found [
    | none ↦ ok result
    | some record_found ↦
        if result.found && is_started record_found.status
        then throw conflict_409 idempotency_operation_in_progress
        else if result.found
            && (is_terminal_idempotency_status record_found.status
                && not (record_found.request_hash == input.request_hash))
        then throw conflict_409 idempotency_key_reused_with_different_payload
        else ok result
  ]

  unfoldable pub begin :
      IdempotencyBeginInput
      → ℕ
      → List (IdempotencyRow B)
      → ℕ
      → Option (List (IdempotencyRow B))
      → Result (IdempotencyLookupResult B) × Option (List (IdempotencyRow B))
  unfolding check_found Store.begin
  begin input now racing retry_at none =
      (ok (record { found = false; record_found = none; replay = false }), none)
  begin input now racing retry_at (some rows) =
      let (result, rows') = Store.begin input now racing retry_at rows in
      (check_found input result, some rows')

  unfoldable pub complete :
      ℕ → ℕ → ℕ → B → Option (List (IdempotencyRow B)) → Option (List (IdempotencyRow B))
  unfolding Store.complete
  complete user key code body none = none
  complete user key code body (some rows) = some (Store.complete user key code body rows)

  unfoldable pub fail :
      ℕ → ℕ → ℕ → Option (List (IdempotencyRow B)) → Option (List (IdempotencyRow B))
  unfolding Store.fail
  fail user key message none = none
  fail user key message (some rows) = some (Store.fail user key message rows)

  -- `begin.replay && begin.record?.responseBody`: the body to answer with, when there is one.
  abbrev pub replayed : IdempotencyLookupResult B → Option (StoredBody B)
  replayed result =
      if result.replay
      then (elim result.record_found [
        | none ↦ none
        | some record_found ↦ record_found.response_body
      ])
      else none

  -- What follows a `begin` that has not thrown: answer a replay, else perform the operation and
  -- `complete`, or `fail` and throw the error again. A failed operation leaves `state` as it was, since
  -- its writes are its last step.
  unfoldable pub after_begin :
      {S : Type 0}
      → (AppException → ℕ)
      → ℕ
      → (S → Result (B × S))
      → IdempotencyBeginInput
      → IdempotencyLookupResult B
      → Option (List (IdempotencyRow B))
      → S
      → Result (StoredBody B) × Option (List (IdempotencyRow B)) × S
  unfolding complete fail
  after_begin message code perform input result rows state = elim (replayed result) [
    | some body ↦ (ok body, rows, state)
    | none ↦ elim (perform state) [
      | ok (body, state') ↦
          (ok (response body), complete input.user_id input.key code body rows, state')
      | err e ↦ (err e, fail input.user_id input.key (message e) rows, state)
    ]
  ]

  -- How the services wrap an operation.
  unfoldable pub idempotently :
      {S : Type 0}
      → (AppException → ℕ)
      → ℕ
      → (S → Result (B × S))
      → IdempotencyBeginInput
      → ℕ
      → List (IdempotencyRow B)
      → ℕ
      → Option (List (IdempotencyRow B))
      → S
      → Result (StoredBody B) × Option (List (IdempotencyRow B)) × S
  unfolding after_begin
  idempotently message code perform input now racing retry_at rows state =
      let (begun, rows') = begin input now racing retry_at rows in
      elim begun [
        | err e ↦ (err e, rows', state)
        | ok result ↦ after_begin message code perform input result rows' state
      ]
