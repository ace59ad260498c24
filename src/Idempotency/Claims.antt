-- ===== src/Idempotency/Claims.antt =====
-- A key that is claimed by a running request, and the requests that come while its lock lasts.
use guardtrak_api.Prelude.{
  ℕ, ◌+◌, ◌≤◌, ◌<◌, false, ◌≡◌, ◌∙◌, refl, inl, inr, arith, some, List, ◌∷◌, ◌++◌, Option-cases,
}
use guardtrak_api.Errors.{throw, conflict_409, idempotency_operation_in_progress}
use guardtrak_api.Idempotency.Types.{SyncOperationStatus, IdempotencyRow, IdempotencyBeginInput}
use guardtrak_api.Idempotency.Store.{
  find_unique, begin, begin_existing, new_row, build_processing_data, processing_lock_ms, map_row,
}
use guardtrak_api.Idempotency.Service
use guardtrak_api.Idempotency.Table.{find_unique-update_unique}

-- The key of `input` is claimed for its request from `from` on: its row is being processed, and is
-- locked for 30 seconds at least.
pub record IsClaimed {B : Type 0} (input : IdempotencyBeginInput) (from : ℕ)
    (rows : List (IdempotencyRow B)) : Type 0 where
  pub row : IdempotencyRow B
  pub listed : find_unique input.user_id input.key rows ≡ some row
  pub processed : row.status ≡ SyncOperationStatus.processing
  pub for_request : row.request_hash ≡ input.request_hash
  pub until : ℕ
  pub locked : row.locked_until ≡ some until
  pub lasts : from + processing_lock_ms ≤ until

module _ {B : Type 0} (input : IdempotencyBeginInput) where
  new_row-IsClaimed :
      (now : ℕ) (rows : List (IdempotencyRow B)) → IsClaimed input now (new_row input now ∷ rows)
  unfolding find_unique new_row
  new_row-IsClaimed now rows = record {
    row = new_row input now;
    listed = ground arith;
    processed = refl;
    for_request = refl;
    until = now + processing_lock_ms;
    locked = refl;
    lasts = omega arith;
  }

  begin_existing-IsClaimed :
      (now : ℕ) (existing : IdempotencyRow B) (rows : List (IdempotencyRow B))
      → find_unique input.user_id input.key rows ≡ some existing
      → (begin_existing input now existing rows).0.found ≡ false
      → IsClaimed input now (begin_existing input now existing rows).1
  unfolding begin_existing
  begin_existing-IsClaimed now existing rows e f = record {
    row = build_processing_data input now existing;
    listed =
        let change = build_processing_data {B = B} input now in
        let l =
          find_unique-update_unique input.user_id input.key change (λ r. (refl, refl)) rows existing
            e in
        ground arith;
    processed = refl;
    for_request = refl;
    until = now + processing_lock_ms;
    locked = refl;
    lasts = omega arith;
  }

  earlier-IsClaimed :
      (now later : ℕ) (rows : List (IdempotencyRow B))
      → now ≤ later
      → IsClaimed input later rows
      → IsClaimed input now rows
  earlier-IsClaimed now later rows h c = record {
    row = c.row;
    listed = c.listed;
    processed = c.processed;
    for_request = c.for_request;
    until = c.until;
    locked = c.locked;
    lasts = omega arith;
  }

  -- Whether the key was free, taken by a racing insert, or left by an earlier request.
  pub begin-IsClaimed :
      (now : ℕ) (racing : List (IdempotencyRow B)) (retry_at : ℕ) (rows : List (IdempotencyRow B))
      → now ≤ retry_at
      → (begin input now racing retry_at rows).0.found ≡ false
      → IsClaimed input now (begin input now racing retry_at rows).1
  unfolding begin
  begin-IsClaimed now racing retry_at rows h f =
      elim (Option-cases (find_unique input.user_id input.key rows)) [
        | inr (existing, e) ↦
            rw (e, begin) (begin_existing-IsClaimed now existing rows e (rw (e, begin) at f))
        | inl free ↦ elim (Option-cases (find_unique input.user_id input.key (racing ++ rows))) [
          | inr (winner, w) ↦
              rw (free, w, begin)
                (earlier-IsClaimed now retry_at _ h (
                  begin_existing-IsClaimed retry_at winner (racing ++ rows) w
                    (rw (free, w, begin) at f)))
          | inl none_won ↦ rw (free, none_won, begin) (new_row-IsClaimed now (racing ++ rows))
        ]
      ]

pub begin_of_found :
    {B : Type 0} (input : IdempotencyBeginInput) (now retry_at : ℕ)
    (racing rows : List (IdempotencyRow B)) (row : IdempotencyRow B)
    → find_unique input.user_id input.key rows ≡ some row
    → begin input now racing retry_at rows ≡ begin_existing input now row rows
unfolding begin
begin_of_found input now retry_at racing rows row e = rw (e, begin)

-- While a claim lasts, a request with the same key is answered 409 in progress, whatever its payload
-- and whatever others insert, and the table stays as it is.
pub claim_excludes :
    {B : Type 0} (input other : IdempotencyBeginInput) (from now retry_at : ℕ)
    (racing rows : List (IdempotencyRow B))
    → IsClaimed input from rows
    → other.user_id ≡ input.user_id
    → other.key ≡ input.key
    → now < from + processing_lock_ms
    → Service.begin other now racing retry_at (some rows)
      ≡ (throw conflict_409 idempotency_operation_in_progress, some rows)
unfolding Service.begin begin_existing map_row
claim_excludes input other from now retry_at racing rows c u k h =
    let e = rw (← u, ← k) at c.listed in
    rw (begin_of_found other now retry_at racing rows c.row e) (ground arith)

unmoved-IsClaimed :
    {B : Type 0} (input : IdempotencyBeginInput) (from : ℕ) (rows later : List (IdempotencyRow B))
    → find_unique input.user_id input.key later ≡ find_unique input.user_id input.key rows
    → IsClaimed input from rows
    → IsClaimed input from later
unmoved-IsClaimed input from rows later e c = record {
  row = c.row;
  listed = e ∙ c.listed;
  processed = c.processed;
  for_request = c.for_request;
  until = c.until;
  locked = c.locked;
  lasts = c.lasts;
}

-- Once a request has claimed its key, and while the row of the key stands as the claim has left it,
-- whatever happens to the rows of other keys, every request of the same user with that key in the
-- next 30 seconds is answered 409 in progress and changes nothing, whatever its payload, and
-- whether the key was new, retried or won after a racing insert.
pub begin_excludes :
    {B : Type 0} (input other : IdempotencyBeginInput) (now retry_at : ℕ)
    (racing rows later : List (IdempotencyRow B)) (now' retry_at' : ℕ)
    (racing' : List (IdempotencyRow B))
    → now ≤ retry_at
    → (begin input now racing retry_at rows).0.found ≡ false
    → find_unique input.user_id input.key later
      ≡ find_unique input.user_id input.key (begin input now racing retry_at rows).1
    → other.user_id ≡ input.user_id
    → other.key ≡ input.key
    → now' < now + processing_lock_ms
    → Service.begin other now' racing' retry_at' (some later)
      ≡ (throw conflict_409 idempotency_operation_in_progress, some later)
begin_excludes input other now retry_at racing rows later now' retry_at' racing' h f same u k l =
    claim_excludes input other now now' retry_at' racing' later
      (unmoved-IsClaimed input now _ later same
        (begin-IsClaimed input now racing retry_at rows h f))
      u k l
