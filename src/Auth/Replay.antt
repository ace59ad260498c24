-- ===== src/Auth/Replay.antt =====
-- A refresh token that comes twice, and the sessions that an access token may name.
use guardtrak_api.Prelude.{
  ℕ, ◌≤◌, true, false, ◌≡◌, refl, arith, none, some, List, [], ◌∷◌, ◌==◌, is_some, ltb, total,
  indicator, find_first, find_first-kept, found_counts_as, total-update_same, update_where,
  Option-cases, Bool-cases, inl, inr, get_or_else, ◌&&◌,
}
use guardtrak_api.Errors.{
  ok, err, throw, unauthorized_401, auth_refresh_reused, auth_token_invalid, auth_token_expired,
  auth_fingerprint_mismatch, Result-cases,
}
use guardtrak_api.Auth.Tables.{AuthDb, AuthCall, AuthEnvironment, RequestContext, Session}
use guardtrak_api.Auth.Sessions.{
  is_unrevoked, has_session_id, has_token, lives_in, find_by_refresh_token, revoke_where,
  revoke_family, rotate, rotated_session, record_event,
}
use guardtrak_api.Auth.Login.{AuthTokens}
use guardtrak_api.Auth.Refresh.{
  refresh, refresh_session, rotate_for, check_owner, shut_family, platform_of, differs,
}
use guardtrak_api.Auth.Requests.{IsUnused}
use guardtrak_api.Auth.Families.{OneLive, IsDead, in_family, replaced_by, revoked_at_time}
use guardtrak_api.Auth.Families.Spent.{IsSpent}
use guardtrak_api.Auth.Histories.{
  Requests, here, next, refreshes, Requests-IsDead, Requests-IsSpent, Requests-OneLive,
}

-- A session that is refreshed is live, and is replaced.
session-rotates :
    (env : AuthEnvironment) (call : AuthCall) (ctx : RequestContext) (current : Session)
    (db : AuthDb) (tokens : AuthTokens)
    → (refresh_session env call ctx current db).0 ≡ ok tokens
    → (is_unrevoked current ≡ true)
      × ((refresh_session env call ctx current db).1
          ≡ rotate env call ctx current
              (env.build_session_fingerprint ctx.user_agent (platform_of db current.device_id))
              db)
unfolding refresh_session rotate_for
session-rotates env call ctx current db tokens h =
    let fingerprint =
      env.build_session_fingerprint ctx.user_agent (platform_of db current.device_id) in
    let strict =
      get_or_else env.strict_fingerprint false && differs current.fingerprint fingerprint in
    elim (Bool-cases (is_some current.revoked_at)) [
      | inl e ↦
          let c : throw unauthorized_401 auth_refresh_reused ≡ ok tokens =
            rw (e, refresh_session) at h in
          cc
      | inr e ↦ elim (Bool-cases (ltb current.expires_at call.now)) [
        | inl f ↦
            let c : throw unauthorized_401 auth_token_expired ≡ ok tokens =
              rw (e, f, refresh_session) at h in
            cc
        | inr f ↦ elim (Bool-cases strict) [
          | inl g ↦
              let c : throw unauthorized_401 auth_fingerprint_mismatch ≡ ok tokens =
                rw (e, f, g, refresh_session) at h in
              cc
          | inr g ↦ elim (Result-cases (check_owner db current)) [
            | inr (thrown, o) ↦
                let c : err thrown ≡ ok tokens =
                  rw (e, f, g, o, refresh_session, rotate_for) at h in
                cc
            | inl (user, o) ↦ (rw e refl, rw (e, f, g, o, refresh_session, rotate_for) refl)
          ]
        ]
      ]
    ]

-- What a refresh that succeeds has found and written.
record Rotated (env : AuthEnvironment) (call : AuthCall) (token : ℕ) (ctx : RequestContext)
    (db : AuthDb) (tokens : AuthTokens) : Type 0 where
  current : Session
  found : find_first (has_token (env.hash_opaque_token token)) db.sessions ≡ some current
  live : is_unrevoked current ≡ true
  fingerprint : ℕ
  written : (refresh env call token ctx db).1 ≡ rotate env call ctx current fingerprint db

refresh-Rotated :
    (env : AuthEnvironment) (call : AuthCall) (token : ℕ) (ctx : RequestContext) (db : AuthDb)
    (tokens : AuthTokens)
    → (refresh env call token ctx db).0 ≡ ok tokens
    → Rotated env call token ctx db tokens
unfolding refresh find_by_refresh_token refresh_session rotate_for
refresh-Rotated env call token ctx db tokens h =
    elim (Option-cases (find_first (has_token (env.hash_opaque_token token)) db.sessions)) [
      | inl e ↦
          let c : throw unauthorized_401 auth_token_invalid ≡ ok tokens =
            rw (e, refresh, find_by_refresh_token) at h in
          cc
      | inr (current, e) ↦
          let g : (refresh_session env call ctx current db).0 ≡ ok tokens =
            rw (e, refresh, find_by_refresh_token) at h in
          let r = session-rotates env call ctx current db tokens g in
          record {
            current = current;
            found = e;
            live = r.0;
            fingerprint =
                env.build_session_fingerprint ctx.user_agent (platform_of db current.device_id);
            written = rw (e, refresh, find_by_refresh_token) r.1;
          }
    ]

rotated-IsSpent :
    (env : AuthEnvironment) (call : AuthCall) (ctx : RequestContext) (h : ℕ) (current : Session)
    (fingerprint : ℕ) (db : AuthDb)
    → IsUnused env call db
    → find_first (has_token h) db.sessions ≡ some current
    → IsSpent h current.family_id (rotate env call ctx current fingerprint db).sessions
unfolding rotate rotated_session find_first
rotated-IsSpent env call ctx h current fingerprint db u found =
    let new = rotated_session env call ctx current fingerprint in
    let other : (env.hash_opaque_token call.new_token == h) ≡ false =
      (elim (Bool-cases (env.hash_opaque_token call.new_token == h)) [
        | inl e ↦
            let same : env.hash_opaque_token call.new_token ≡ h = ground arith in
            let n : find_first (has_token h) db.sessions ≡ none = rw (← same) u.token in
            let c : none ≡ some current = rw (n) at found in cc
        | inr e ↦ e
      ]) in
    let behind : find_first (has_token h) (new ∷ db.sessions) ≡ some current = rw other found in
    let hit : has_session_id current.id current ≡ true = ground arith in
    let k =
      find_first-kept (has_token h) (has_session_id current.id) (replaced_by call.now call.new_id)
        (λ s. refl) (new ∷ db.sessions) current behind in
    record {
      session = replaced_by call.now call.new_id current;
      found = rw (hit) at k;
      dead = refl;
      of_family = refl;
    }

family_none :
    (now f : ℕ) (sessions : List Session)
    → total (indicator (lives_in f)) (update_where (lives_in f) (revoked_at_time now) sessions) ≡ 0
unfolding update_where total
family_none now f [] = refl
family_none now f (s ∷ sessions) = ground (arith, family_none now f sessions)

-- A spent token that comes again is refused, and its family is dead.
pub spent-refused :
    (env : AuthEnvironment) (call : AuthCall) (token : ℕ) (ctx : RequestContext) (f : ℕ)
    (db : AuthDb)
    → IsSpent (env.hash_opaque_token token) f db.sessions
    → ((refresh env call token ctx db).0 ≡ throw unauthorized_401 auth_refresh_reused)
      × IsDead f (refresh env call token ctx db).1.sessions
unfolding refresh find_by_refresh_token refresh_session shut_family revoke_family revoke_where
    record_event
spent-refused env call token ctx f db v =
    let s = v.session in
    let e = v.found in
    let gone : is_some s.revoked_at ≡ true = (let d = v.dead in ground arith) in
    let same = v.of_family in
    let counted : 1 ≤ total (indicator (in_family f)) db.sessions =
      found_counts_as _ (in_family f) db.sessions s e (ground arith) in
    let kept =
      total-update_same (indicator (in_family f)) (lives_in f) (revoked_at_time call.now)
        (λ r. refl) db.sessions in
    (
      rw (e, gone, refresh, find_by_refresh_token, refresh_session) refl,
      rw (e, gone, refresh, find_by_refresh_token, refresh_session)
          (rw (same) (rw kept counted, family_none call.now f db.sessions)),
    )

-- Once a refresh token has been exchanged, and after any later requests, one after the other, the
-- same token is refused as reused, and from then on, whatever requests follow, no session of its
-- family is live. New identifiers and tokens are taken not to be in use, sessions to have distinct
-- identifiers, and families to have at most one live session at the beginning.
pub replay_kills_family :
    (env : AuthEnvironment) (call : AuthCall) (token : ℕ) (ctx : RequestContext) (db : AuthDb)
    (tokens : AuthTokens) (current : Session) (db' : AuthDb) (call' : AuthCall)
    (ctx' : RequestContext) (db'' : AuthDb)
    → OneLive db.sessions
    → IsUnused env call db
    → find_by_refresh_token env token db ≡ some current
    → (refresh env call token ctx db).0 ≡ ok tokens
    → Requests env (refresh env call token ctx db).1 db'
    → IsUnused env call' db'
    → Requests env (refresh env call' token ctx' db').1 db''
    → ((refresh env call' token ctx' db').0 ≡ throw unauthorized_401 auth_refresh_reused)
      × (total (indicator (lives_in current.family_id)) db''.sessions ≡ 0)
unfolding find_by_refresh_token
replay_kills_family env call token ctx db tokens current db' call' ctx' db'' v u found h r u' r' =
    let h0 = env.hash_opaque_token token in
    let first = next here (refreshes call token ctx u) in
    let v1 = Requests-OneLive first v in
    let v2 = Requests-OneLive r v1 in
    let v3 = Requests-OneLive (next here (refreshes call' token ctx' u')) v2 in
    let t = refresh-Rotated env call token ctx db tokens h in
    let same : t.current ≡ current = (let e = t.found in cc) in
    let spent : IsSpent h0 current.family_id (refresh env call token ctx db).1.sessions =
      rw (t.written, ← same)
        (rotated-IsSpent env call ctx h0 t.current t.fingerprint db u t.found) in
    let again =
      spent-refused env call' token ctx' current.family_id db'
        (Requests-IsSpent h0 current.family_id r v1 spent) in
    (again.0, (Requests-IsDead current.family_id r' v3 again.1).1)
