-- ===== src/Idempotency/Replay.antt =====
-- A key under which an operation has succeeded, and the requests that come with it again.
use guardtrak_api.Prelude.{
  ℕ, ◌≤◌, true, false, ◌≡◌, ◌≢◌, refl, sym, ◌∙◌, inl, inr, arith, none, some, List, ◌++◌,
  Option-cases, Bool-cases,
}
use guardtrak_api.Errors.{
  Result, Result-cases, ok, throw, conflict_409, AppException,
  idempotency_key_reused_with_different_payload,
}
use guardtrak_api.Idempotency.Types.{
  SyncOperationStatus, IdempotencyRow, IdempotencyBeginInput, IdempotencyLookupResult, StoredBody,
  response,
}
use guardtrak_api.Idempotency.Store.{find_unique, begin, begin_existing, map_row, complete}
use guardtrak_api.Idempotency.Service
use guardtrak_api.Idempotency.Service.{check_found, replayed, after_begin, idempotently}
use guardtrak_api.Idempotency.Claims.{IsClaimed, begin-IsClaimed, begin_of_found}
use guardtrak_api.Idempotency.Table.{find_unique-update_unique}

-- The row under a key is that of a completed request with this hash and body.
pub record IsCompleted {B : Type 0} (user key hash : ℕ) (body : StoredBody B)
    (rows : List (IdempotencyRow B)) : Type 0 where
  pub row : IdempotencyRow B
  pub listed : find_unique user key rows ≡ some row
  pub completed : row.status ≡ SyncOperationStatus.completed
  pub for_request : row.request_hash ≡ hash
  pub answered : row.response_body ≡ some body

module _ {B : Type 0} (other : IdempotencyBeginInput) (hash : ℕ) (body : StoredBody B)
    (rows : List (IdempotencyRow B)) (c : IsCompleted other.user_id other.key hash body rows)
    (now retry_at : ℕ) (racing : List (IdempotencyRow B)) where
  -- The same payload is answered with the stored body, and the table stays as it is.
  completed_replays :
      other.request_hash ≡ hash
      → (result : IdempotencyLookupResult B) × (Service.begin other now racing retry_at (some rows)
          ≡ (ok result, some rows))
        × (replayed result ≡ some body)
  unfolding Service.begin begin_existing map_row
  completed_replays h = (
    record { found = true; record_found = some (map_row c.row); replay = true },
    rw (begin_of_found other now retry_at racing rows c.row c.listed) (ground arith),
    ground arith,
  )

  -- Another payload is refused, and the table stays as it is.
  pub completed_refuses :
      other.request_hash ≢ hash
      → Service.begin other now racing retry_at (some rows)
        ≡ (throw conflict_409 idempotency_key_reused_with_different_payload, some rows)
  unfolding Service.begin begin_existing map_row
  completed_refuses h =
      rw (begin_of_found other now retry_at racing rows c.row c.listed) (ground arith)

pub complete-IsCompleted :
    {B : Type 0} (user key code : ℕ) (body : B) (rows : List (IdempotencyRow B))
    (row : IdempotencyRow B)
    → find_unique user key rows ≡ some row
    → IsCompleted user key row.request_hash (response body) (complete user key code body rows)
unfolding complete
complete-IsCompleted user key code body rows row e = record {
  row = record row {
    status = SyncOperationStatus.completed;
    http_status = some code;
    response_body = some (response body);
    locked_until = none;
  };
  listed = find_unique-update_unique user key _ (λ r. (refl, refl)) rows row e;
  completed = refl;
  for_request = refl;
  answered = refl;
}

-- What a `begin` that does not throw leaves behind: the row of the key is that of this payload, and a
-- replay takes its body from a completed row.
record IsHeld {B : Type 0} (input : IdempotencyBeginInput) (result : IdempotencyLookupResult B)
    (rows : List (IdempotencyRow B)) : Type 0 where
  row : IdempotencyRow B
  listed : find_unique input.user_id input.key rows ≡ some row
  for_request : row.request_hash ≡ input.request_hash
  from_completed :
      (body : StoredBody B)
      → replayed result ≡ some body
      → (row.status ≡ SyncOperationStatus.completed) × (row.response_body ≡ some body)

module _ {B : Type 0} (input : IdempotencyBeginInput) where
  check_found-eq-ok :
      (r : IdempotencyLookupResult B) (result : IdempotencyLookupResult B)
      → check_found input r ≡ ok result
      → r ≡ result
  unfolding check_found
  check_found-eq-ok r result h = ground arith

  existing_found :
      (now : ℕ) (existing : IdempotencyRow B) (rows : List (IdempotencyRow B))
      (result : IdempotencyLookupResult B)
      → check_found input (begin_existing input now existing rows).0 ≡ ok result
      → (begin_existing input now existing rows).0.found ≡ true
      → ((begin_existing input now existing rows).1 ≡ rows)
        × (existing.request_hash ≡ input.request_hash)
        × (existing.status ≡ SyncOperationStatus.completed)
        × (replayed result ≡ existing.response_body)
  unfolding check_found begin_existing map_row
  existing_found now existing rows result h f = ground arith

  unclaimed :
      (now : ℕ) (racing : List (IdempotencyRow B)) (retry_at : ℕ) (rows : List (IdempotencyRow B))
      → (begin input now racing retry_at rows).0.found ≡ false
      → (begin input now racing retry_at rows).0.replay ≡ false
  unfolding begin begin_existing map_row
  unclaimed now racing retry_at rows f = ground arith

  existing-IsHeld :
      (now : ℕ) (existing : IdempotencyRow B) (rows : List (IdempotencyRow B))
      (result : IdempotencyLookupResult B)
      → find_unique input.user_id input.key rows ≡ some existing
      → check_found input (begin_existing input now existing rows).0 ≡ ok result
      → (begin_existing input now existing rows).0.found ≡ true
      → IsHeld input result (begin_existing input now existing rows).1
  existing-IsHeld now existing rows result e h f =
      let (same_rows, hash, status, body) = existing_found now existing rows result h f in
      rw same_rows (record {
        row = existing;
        listed = e;
        for_request = hash;
        from_completed = λ b p. (status, sym body ∙ p);
      })

  claimed-IsHeld :
      (result : IdempotencyLookupResult B) (from : ℕ) (rows : List (IdempotencyRow B))
      → result.replay ≡ false
      → IsClaimed input from rows
      → IsHeld input result rows
  claimed-IsHeld result from rows e c = record {
    row = c.row;
    listed = c.listed;
    for_request = c.for_request;
    from_completed = λ b p. ground arith;
  }

  begin-IsHeld :
      (now : ℕ) (racing : List (IdempotencyRow B)) (retry_at : ℕ) (rows : List (IdempotencyRow B))
      (result : IdempotencyLookupResult B)
      → now ≤ retry_at
      → check_found input (begin input now racing retry_at rows).0 ≡ ok result
      → IsHeld input result (begin input now racing retry_at rows).1
  unfolding begin
  begin-IsHeld now racing retry_at rows result l h =
      elim (Bool-cases (begin input now racing retry_at rows).0.found) [
        | inr f ↦
            claimed-IsHeld result now _
              (rw (← check_found-eq-ok _ result h) (unclaimed now racing retry_at rows f))
              (begin-IsClaimed input now racing retry_at rows l f)
        | inl f ↦ elim (Option-cases (find_unique input.user_id input.key rows)) [
          | inr (existing, e) ↦
              rw (e, begin)
                (existing-IsHeld now existing rows result e (rw (e, begin) at h)
                  (rw (e, begin) at f))
          | inl free ↦ elim (Option-cases (find_unique input.user_id input.key (racing ++ rows))) [
            | inr (winner, w) ↦
                rw (free, w, begin)
                  (existing-IsHeld retry_at winner (racing ++ rows) result w
                    (rw (free, w, begin) at h) (rw (free, w, begin) at f))
            | inl none_won ↦ let q = rw (free, none_won, begin) at f in cc
          ]
        ]
      ]

module _ {B S : Type 0} (message : AppException → ℕ) (code : ℕ) (perform : S → Result (B × S))
    (input : IdempotencyBeginInput) where
  after_begin-IsCompleted :
      (result : IdempotencyLookupResult B) (rows : List (IdempotencyRow B)) (state state' : S)
      (body : StoredBody B) (rows' : List (IdempotencyRow B))
      → IsHeld input result rows
      → after_begin message code perform input result (some rows) state
        ≡ (ok body, some rows', state')
      → IsCompleted input.user_id input.key input.request_hash body rows'
  unfolding after_begin Service.complete
  after_begin-IsCompleted result rows state state' body rows' held h =
      elim (Option-cases (replayed result)) [
        | inr (stored, e) ↦
            let (status, answered) = held.from_completed stored e in
            let q = rw (e, after_begin) at h in
            let same_rows : rows ≡ rows' = ground arith in
            rw (← same_rows) (record {
              row = held.row;
              listed = held.listed;
              completed = status;
              for_request = held.for_request;
              answered = ground arith;
            })
        | inl e ↦ elim (Result-cases (perform state)) [
          | inl (done, p) ↦
              let q = rw (e, p, after_begin) at h in
              let same_body : response done.0 ≡ body = ground arith in
              let same_rows : complete input.user_id input.key code done.0 rows ≡ rows' =
                ground arith in
              rw (← same_body, ← same_rows, ← held.for_request)
                (complete-IsCompleted input.user_id input.key code done.0 rows held.row held.listed)
          | inr (error, p) ↦ let q = rw (e, p, after_begin) at h in cc
        ]
      ]

  success-IsCompleted :
      (now retry_at : ℕ) (racing rows rows' : List (IdempotencyRow B)) (state state' : S)
      (body : StoredBody B)
      → now ≤ retry_at
      → idempotently message code perform input now racing retry_at (some rows) state
        ≡ (ok body, some rows', state')
      → IsCompleted input.user_id input.key input.request_hash body rows'
  unfolding idempotently Service.begin
  success-IsCompleted now retry_at racing rows rows' state state' body l h =
      elim (Result-cases (check_found input (begin input now racing retry_at rows).0)) [
        | inl (result, e) ↦
            after_begin-IsCompleted result _ state state' body rows'
              (begin-IsHeld input now racing retry_at rows result l e) (rw (e, idempotently) at h)
        | inr (error, e) ↦ let q = rw (e, idempotently) at h in cc
      ]

  -- Once an operation has succeeded under a key, the same request sent again, at any time and
  -- whatever has been done to the rest of the state, is answered with the same body and performs
  -- nothing.
  pub success_is_replayed :
      (now retry_at now' retry_at' : ℕ) (racing racing' rows rows' : List (IdempotencyRow B))
      (state state' later : S) (body : StoredBody B) (again : S → Result (B × S))
      → now ≤ retry_at
      → idempotently message code perform input now racing retry_at (some rows) state
        ≡ (ok body, some rows', state')
      → idempotently message code again input now' racing' retry_at' (some rows') later
        ≡ (ok body, some rows', later)
  unfolding idempotently after_begin
  success_is_replayed now retry_at now' retry_at' racing racing' rows rows' state state' later body
        again l h =
      let c = success-IsCompleted now retry_at racing rows rows' state state' body l h in
      let (result, begun, answered) =
        completed_replays input input.request_hash body rows' c now' retry_at' racing' refl in
      rw (begun, answered, idempotently, after_begin) (rw begun)

  -- Once an operation has succeeded under a key, a request of the same user with that key and
  -- another payload is refused with 409, and nothing is performed or written.
  pub success_refuses_other :
      (now retry_at now' retry_at' : ℕ) (racing racing' rows rows' : List (IdempotencyRow B))
      (state state' later : S) (body : StoredBody B) (other : IdempotencyBeginInput)
      → now ≤ retry_at
      → idempotently message code perform input now racing retry_at (some rows) state
        ≡ (ok body, some rows', state')
      → other.user_id ≡ input.user_id
      → other.key ≡ input.key
      → other.request_hash ≢ input.request_hash
      → idempotently message code perform other now' racing' retry_at' (some rows') later
        ≡ (throw conflict_409 idempotency_key_reused_with_different_payload, some rows', later)
  unfolding idempotently
  success_refuses_other now retry_at now' retry_at' racing racing' rows rows' state state' later
        body other l h u k n =
      let c = success-IsCompleted now retry_at racing rows rows' state state' body l h in
      let c' = rw (← u, ← k) at c in
      let refused =
        completed_refuses other input.request_hash body rows' c' now' retry_at' racing' n in
      rw (refused, idempotently) (rw refused)
