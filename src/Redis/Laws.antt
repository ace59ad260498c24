-- ===== src/Redis/Laws.antt =====
-- The map behind the store, and the time to live of a value.
use guardtrak_api.Prelude.{
  ℕ, ◌+◌, ◌*◌, ◌<◌, ◌≡◌, refl, arith, none, some, [], ◌∷◌, ◌==◌, if◌then◌else◌, leb,
}
use guardtrak_api.Redis.{Value, MemoryEntry, Store, map_get, map_delete, map_set, get, set}

pub map_get-map_set :
    (key other : ℕ) (new : MemoryEntry) (store : Store)
    → map_get other (map_set key new store)
      ≡ (if key == other then some new else map_get other store)
unfolding map_get map_set
map_get-map_set key other new [] = refl
map_get-map_set key other new ((k, entry) ∷ store) =
    ground (arith, map_get-map_set key other new store)

pub map_get-map_delete :
    (key other : ℕ) (store : Store)
    → map_get other (map_delete key store) ≡ (if key == other then none else map_get other store)
unfolding map_get map_delete
map_get-map_delete key other [] = ground arith
map_get-map_delete key other ((k, entry) ∷ store) =
    ground (arith, map_get-map_delete key other store)

-- A value that is stored without a time to live is read at any later time.
pub get-set_forever :
    (now later key : ℕ) (value : Value) (store : Store)
    → (get later key (set now key value none store)).0 ≡ some value
unfolding get set
get-set_forever now later key value store =
    ground (arith, map_get-map_set key key (record { value = value; expires_at = none }) store)

-- A value stored with a positive time to live is read as long as that time lasts, and is gone when
-- it is over.
pub get-set :
    (now later key ttl : ℕ) (value : Value) (store : Store)
    → 0 < ttl
    → (get later key (set now key value (some ttl) store)).0
      ≡ (if leb (now + ttl * 1000) later then none else some value)
unfolding get set
get-set now later key ttl value store positive = ground (
  arith,
  map_get-map_set key key (record { value = value; expires_at = some (now + ttl * 1000) }) store,
)
