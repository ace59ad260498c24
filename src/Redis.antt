-- ===== src/Redis.antt =====
-- infrastructure/redis/memory-redis.fallback.ts. Keys are numbers (they are only compared), times are
-- milliseconds. A stored text is kept with the number that `parseInt` reads of it.
pub mod Laws
use guardtrak_api.Prelude.{
  ℕ, suc, ◌+◌, ◌*◌, Bool, true, false, not, Option, none, some, List, [], ◌∷◌, ◌==◌, ltb, leb,
  if◌then◌else◌,
}

-- A stored text: what `parseInt(text, 10) || 0` reads of it, and the text itself.
pub record Value : Type 0 where
  pub text : ℕ
  pub parsed : ℕ

pub record MemoryEntry : Type 0 where
  pub value : Value
  pub expires_at : Option ℕ

abbrev pub Store : Type 0
Store = List (ℕ × MemoryEntry)

-- `Map.get`, `Map.delete` and `Map.set`.
unfoldable pub map_get : ℕ → Store → Option MemoryEntry
map_get key [] = none
map_get key ((k, entry) ∷ store) = if k == key then some entry else map_get key store

unfoldable pub map_delete : ℕ → Store → Store
map_delete key [] = []
map_delete key ((k, entry) ∷ store) =
    let rest = map_delete key store in if k == key then rest else (k, entry) ∷ rest

unfoldable pub map_set : ℕ → MemoryEntry → Store → Store
map_set key new [] = (key, new) ∷ []
map_set key new ((k, entry) ∷ store) =
    if k == key then (k, new) ∷ store else (k, entry) ∷ map_set key new store

-- `expiresAt !== null && expiresAt <= Date.now()`
abbrev pub is_expired : Option ℕ → ℕ → Bool
is_expired none now = false
is_expired (some at) now = leb at now

unfoldable pub get : ℕ → ℕ → Store → Option Value × Store
get now key store = elim (map_get key store) [
  | none ↦ (none, store)
  | some entry ↦
      if is_expired entry.expires_at now
      then (none, map_delete key store)
      else (some entry.value, store)
]

-- `ttlSeconds !== undefined && ttlSeconds > 0 ? now + ttlSeconds * 1000 : null`
abbrev pub expiry : ℕ → Option ℕ → Option ℕ
expiry now none = none
expiry now (some ttl) = if ltb 0 ttl then some (now + ttl * 1000) else none

unfoldable pub set : ℕ → ℕ → Value → Option ℕ → Store → Store
set now key value ttl store =
    map_set key (record { value = value; expires_at = expiry now ttl }) store

unfoldable pub del : ℕ → Store → ℕ × Store
del key store = elim (map_get key store) [
  | none ↦ (0, store)
  | some entry ↦ (1, map_delete key store)
]

abbrev expiry_of : Option MemoryEntry → Option ℕ
expiry_of none = none
expiry_of (some entry) = entry.expires_at

abbrev count_of : Option Value → ℕ
count_of none = 0
count_of (some value) = value.parsed

-- `show` is `String(n)`.
unfoldable pub incr : (ℕ → ℕ) → ℕ → ℕ → Store → ℕ × Store
incr show now key store =
    let (current, store') = get now key store in
    let next = count_of current + 1 in
    (
      next,
      map_set key
          (record {
            value = record { text = show next; parsed = next };
            expires_at = expiry_of (map_get key store');
          })
          store',
    )

unfoldable pub expire : ℕ → ℕ → ℕ → Store → ℕ × Store
expire now key ttl store = elim (map_get key store) [
  | none ↦ (0, store)
  | some entry ↦
      if is_expired entry.expires_at now
      then (0, map_delete key store)
      else (1, map_set key (record entry { expires_at = some (now + ttl * 1000) }) store)
]
