-- ===== src/Idempotency/Table.antt =====
-- The table of idempotency records: lookups after an update, and the unique index.
use guardtrak_api.Prelude.{ℕ, ◌≡◌, ◌≢◌, refl, ◌⊎◌, arith, some, List, [], ◌∷◌}
use guardtrak_api.Idempotency.Types.{IdempotencyRow}
use guardtrak_api.Idempotency.Store.{find_unique, update_unique}

module _ {B : Type 0} where
  pub find_unique-has_key :
      (user key : ℕ) (rows : List (IdempotencyRow B)) (row : IdempotencyRow B)
      → find_unique user key rows ≡ some row
      → (row.user_id ≡ user) × (row.key ≡ key)
  unfolding find_unique
  find_unique-has_key user key [] row h = cc
  find_unique-has_key user key (r ∷ rows) row h =
      ground (arith, find_unique-has_key user key rows row)

  -- The changed row is found under its key, if the change keeps the key.
  pub find_unique-update_unique :
      (user key : ℕ) (change : IdempotencyRow B → IdempotencyRow B)
      (keeps : (r : IdempotencyRow B) → ((change r).user_id ≡ r.user_id) × ((change r).key ≡ r.key))
      (rows : List (IdempotencyRow B)) (row : IdempotencyRow B)
      → find_unique user key rows ≡ some row
      → find_unique user key (update_unique user key change rows) ≡ some (change row)
  unfolding find_unique update_unique
  find_unique-update_unique user key change keeps [] row h = cc
  find_unique-update_unique user key change keeps (r ∷ rows) row h =
      ground (arith, keeps r, find_unique-update_unique user key change keeps rows row)

  -- The rows of other keys are found as before.
  pub find_unique-update_unique_ne :
      (user key user' key' : ℕ) (change : IdempotencyRow B → IdempotencyRow B)
      (keeps : (r : IdempotencyRow B) → ((change r).user_id ≡ r.user_id) × ((change r).key ≡ r.key))
      (rows : List (IdempotencyRow B))
      → (user ≢ user') ⊎ (key ≢ key')
      → find_unique user' key' (update_unique user key change rows) ≡ find_unique user' key' rows
  unfolding find_unique update_unique
  find_unique-update_unique_ne user key user' key' change keeps [] h = refl
  find_unique-update_unique_ne user key user' key' change keeps (r ∷ rows) h =
      ground (arith, keeps r, find_unique-update_unique_ne user key user' key' change keeps rows)
