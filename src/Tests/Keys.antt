-- ===== src/Tests/Keys.antt =====
-- Two requests with one idempotency key.
use guardtrak_api.Prelude.{ℕ, ◌+◌, ◌≡◌, ◌≢◌, refl, false, none, some, List, [], ◌∷◌, arith}
use guardtrak_api.Errors.{
  Result, ok, throw, conflict_409, AppException, idempotency_operation_in_progress,
  idempotency_key_reused_with_different_payload,
}
use guardtrak_api.Idempotency.Types.{
  SyncOperationStatus, IdempotencyRow, IdempotencyBeginInput, response,
}
use guardtrak_api.Idempotency.Store
use guardtrak_api.Idempotency.Service
use guardtrak_api.Idempotency.Claims.{begin_excludes}
use guardtrak_api.Idempotency.Replay.{success_is_replayed, success_refuses_other}

-- A request with the payload `hash`, of user 1 under the key 7.
abbrev request : ℕ → IdempotencyBeginInput
request hash = record {
  key = 7;
  organisation_id = none;
  user_id = 1;
  operation = 3;
  request_hash = hash;
  ttl_seconds = 60;
}

abbrev no_rows : List (IdempotencyRow ℕ)
no_rows = []

first_claims : (Store.begin (request 11) 100 no_rows 100 no_rows).0.found ≡ false
unfolding Store.begin Store.find_unique
first_claims = refl

-- Another user has claimed the same key since.
abbrev others_too : List (IdempotencyRow ℕ)
others_too =
    (Store.begin (record (request 5) { user_id = 2 }) 150 no_rows 150
      (Store.begin (request 11) 100 no_rows 100 no_rows).1).1

row_stands :
    Store.find_unique 1 7 others_too
    ≡ Store.find_unique 1 7 (Store.begin (request 11) 100 no_rows 100 no_rows).1
unfolding Store.begin Store.find_unique Store.new_row
row_stands = refl

begin_excludes_example :
    Service.begin (request 12) 200 no_rows 200 (some others_too)
    ≡ (throw conflict_409 idempotency_operation_in_progress, some others_too)
begin_excludes_example =
    begin_excludes (request 11) (request 12) 100 100 no_rows no_rows others_too 200 200 no_rows
      (omega arith) first_claims row_stands refl refl (omega arith)

-- An operation that counts how often it is performed.
abbrev count : ℕ → Result (ℕ × ℕ)
count state = ok (state + 40, state + 1)

abbrev no_message : AppException → ℕ
no_message e = 0

abbrev answered : List (IdempotencyRow ℕ)
answered =
    record {
      user_id = 1;
      key = 7;
      organisation_id = none;
      operation = 3;
      request_hash = 11;
      status = SyncOperationStatus.completed;
      http_status = some 201;
      response_body = some (response 42);
      locked_until = none;
      expires_at = 60100;
    }
    ∷ []

counted :
    Service.idempotently no_message 201 count (request 11) 100 no_rows 100 (some no_rows) 2
    ≡ (ok (response 42), some answered, 3)
unfolding Service.idempotently Service.begin Service.check_found Service.after_begin
    Service.complete Store.begin Store.begin_existing Store.find_unique Store.new_row Store.complete
    Store.map_row Store.update_unique
counted = refl

success_is_replayed_example :
    Service.idempotently no_message 201 count (request 11) 500 no_rows 500 (some answered) 9
    ≡ (ok (response 42), some answered, 9)
success_is_replayed_example =
    success_is_replayed no_message 201 count (request 11) 100 100 500 500 no_rows no_rows no_rows
      answered 2 3 9 (response 42) count (omega arith) counted

other_hash : (request 12).request_hash ≢ (request 11).request_hash
other_hash e = omega arith

success_refuses_other_example :
    Service.idempotently no_message 201 count (request 12) 500 no_rows 500 (some answered) 9
    ≡ (throw conflict_409 idempotency_key_reused_with_different_payload, some answered, 9)
success_refuses_other_example =
    success_refuses_other no_message 201 count (request 11) 100 100 500 500 no_rows no_rows no_rows
      answered 2 3 9 (response 42) (request 12) (omega arith) counted refl refl other_hash
