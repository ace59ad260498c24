-- ===== src/Auth/Sessions.antt =====
-- modules/auth/services/session.service.ts, and auth-audit.service.ts as the list of its entries.
use guardtrak_api.Prelude.{
  ℕ, ◌+◌, Bool, false, ◌&&◌, not, Option, none, some, ◌∷◌, ◌==◌, is_some, find_first, update_where,
}
use guardtrak_api.Auth.Tables.{
  AuthDb, AuthCall, AuthEnvironment, AuthEvent, RequestContext, Session,
}

-- `revokedAt: null`
abbrev pub is_unrevoked : Session → Bool
is_unrevoked s = not (is_some s.revoked_at)

abbrev pub has_session_id : ℕ → Session → Bool
has_session_id id s = s.id == id

abbrev pub lives_in : ℕ → Session → Bool
lives_in family_id s = s.family_id == family_id && is_unrevoked s

abbrev pub lives_for : ℕ → Session → Bool
lives_for user_id s = s.user_id == user_id && is_unrevoked s

abbrev pub is_on_device : ℕ → Option ℕ → Bool
is_on_device device_id none = false
is_on_device device_id (some d) = d == device_id

abbrev pub lives_on : ℕ → Session → Bool
lives_on device_id s = is_on_device device_id s.device_id && is_unrevoked s

-- `updateMany` of the sessions that fit, with the time of the revocation.
unfoldable pub revoke_where : ℕ → (Session → Bool) → AuthDb → AuthDb
revoke_where now where_ db = record db {
  sessions = update_where where_ (λ s. record s { revoked_at = some now }) db.sessions;
}

unfoldable pub revoke_session : ℕ → ℕ → AuthDb → AuthDb
revoke_session now id db = revoke_where now (λ s. has_session_id id s && is_unrevoked s) db

unfoldable pub revoke_family : ℕ → ℕ → AuthDb → AuthDb
revoke_family now family_id db = revoke_where now (lives_in family_id) db

unfoldable pub revoke_all_for_user : ℕ → ℕ → AuthDb → AuthDb
revoke_all_for_user now user_id db = revoke_where now (lives_for user_id) db

unfoldable pub revoke_all_for_device : ℕ → ℕ → AuthDb → AuthDb
revoke_all_for_device now device_id db = revoke_where now (lives_on device_id) db

-- `findUnique({ where: { tokenHash } })`
abbrev pub has_token : ℕ → Session → Bool
has_token token_hash s = s.token_hash == token_hash

unfoldable pub find_by_refresh_token : AuthEnvironment → ℕ → AuthDb → Option Session
find_by_refresh_token env refresh_token db =
    find_first (has_token (env.hash_opaque_token refresh_token)) db.sessions

-- The session that signing in creates: the first of a new family.
unfoldable pub new_session :
    AuthEnvironment → AuthCall → RequestContext → ℕ → Option ℕ → ℕ → Session
new_session env call ctx user_id device_id fingerprint = record {
  id = call.new_id;
  user_id = user_id;
  device_id = device_id;
  token_hash = env.hash_opaque_token call.new_token;
  family_id = call.new_family_id;
  expires_at = call.now + env.refresh_lifetime_ms;
  revoked_at = none;
  replaced_by_session_id = none;
  last_used_at = some call.now;
  ip_address = ctx.ip_address;
  user_agent = ctx.user_agent;
  fingerprint = some fingerprint;
}

unfoldable pub insert_session : Session → AuthDb → AuthDb
insert_session session db = record db { sessions = session ∷ db.sessions }

-- `a ?? b`
abbrev pub or_else : Option ℕ → Option ℕ → Option ℕ
or_else none b = b
or_else (some a) b = some a

-- The session that replaces another, in its family.
unfoldable pub rotated_session : AuthEnvironment → AuthCall → RequestContext → Session → ℕ → Session
rotated_session env call ctx current fingerprint = record {
  id = call.new_id;
  user_id = current.user_id;
  device_id = current.device_id;
  token_hash = env.hash_opaque_token call.new_token;
  family_id = current.family_id;
  expires_at = call.now + env.refresh_lifetime_ms;
  revoked_at = none;
  replaced_by_session_id = none;
  last_used_at = some call.now;
  ip_address = or_else ctx.ip_address current.ip_address;
  user_agent = or_else ctx.user_agent current.user_agent;
  fingerprint = some fingerprint;
}

-- The transaction: the new session, and the old one revoked and marked as replaced.
unfoldable pub rotate : AuthEnvironment → AuthCall → RequestContext → Session → ℕ → AuthDb → AuthDb
unfolding rotated_session
rotate env call ctx current fingerprint db = record db {
  sessions =
      update_where (has_session_id current.id)
        (λ s. record s { revoked_at = some call.now; replaced_by_session_id = some call.new_id })
        (rotated_session env call ctx current fingerprint ∷ db.sessions);
}

-- `authAuditService.record`
unfoldable pub record_event : ℕ → ℕ → AuthEvent → AuthDb → AuthDb
record_event actor_user_id entity_id event db = record db {
  audits =
      record { actor_user_id = actor_user_id; entity_id = entity_id; event = event } ∷ db.audits;
}
