-- ===== src/Auth/Families/Spent.antt =====
-- Refresh tokens whose session is revoked.
use guardtrak_api.Prelude.{
  ℕ, Bool, false, ◌≡◌, refl, arith, none, some, List, ◌∷◌, ◌==◌, find_first, update_where,
  Bool-cases, inl, inr, if_both, if◌then◌else◌, find_first-kept,
}
use guardtrak_api.Auth.Tables.{Session}
use guardtrak_api.Auth.Sessions.{is_unrevoked, has_session_id, has_token}
use guardtrak_api.Auth.Families.{
  Moves, unchanged, revoked, opened, rotated, revoked_at_time, replaced_by,
}

-- The session of a token is there, and revoked.
pub record IsSpent (token_hash family_id : ℕ) (sessions : List Session) : Type 0 where
  pub session : Session
  pub found : find_first (has_token token_hash) sessions ≡ some session
  pub dead : is_unrevoked session ≡ false
  pub of_family : session.family_id ≡ family_id

changed-IsSpent :
    (h f : ℕ) (where_ : Session → Bool) (change : Session → Session) (sessions : List Session)
    → ((s : Session) → has_token h (change s) ≡ has_token h s)
    → ((s : Session) → is_unrevoked (change s) ≡ false)
    → ((s : Session) → (change s).family_id ≡ s.family_id)
    → IsSpent h f sessions
    → IsSpent h f (update_where where_ change sessions)
changed-IsSpent h f where_ change sessions keep ends stays v =
    let s = v.session in
    record {
      session = if where_ s then change s else s;
      found = find_first-kept (has_token h) where_ change keep sessions s v.found;
      dead =
          if_both (λ (r : Session). is_unrevoked r ≡ false) (where_ s) (λ e. ends s) (λ e. v.dead);
      of_family =
          if_both (λ (r : Session). r.family_id ≡ f) (where_ s) (λ e. rw (stays s) v.of_family)
            (λ e. v.of_family);
    }

behind-IsSpent :
    (h f : ℕ) (new : Session) (sessions : List Session)
    → find_first (has_token new.token_hash) sessions ≡ none
    → IsSpent h f sessions
    → IsSpent h f (new ∷ sessions)
unfolding find_first
behind-IsSpent h f new sessions unused v =
    let other : (new.token_hash == h) ≡ false = (elim (Bool-cases (new.token_hash == h)) [
      | inl e ↦
          let same : new.token_hash ≡ h = ground arith in
          let n : find_first (has_token h) sessions ≡ none = rw (← same) unused in
          let c : none ≡ some v.session = rw (n) at v.found in cc
      | inr e ↦ e
    ]) in
    record {
      session = v.session;
      found = rw (other) v.found;
      dead = v.dead;
      of_family = v.of_family;
    }

-- A token that is spent stays spent.
pub Moves-IsSpent :
    (h f : ℕ) {before after : List Session}
    → Moves before after
    → IsSpent h f before
    → IsSpent h f after
Moves-IsSpent h f unchanged v = v
Moves-IsSpent h f {before} (revoked now where_) v =
    changed-IsSpent h f where_ (revoked_at_time now) before (λ s. refl) (λ s. refl) (λ s. refl) v
Moves-IsSpent h f {before} (opened new fresh first_of unused) v =
    behind-IsSpent h f new before unused v
Moves-IsSpent h f {before} (rotated now current new found live fresh family unused) v =
    changed-IsSpent h f (has_session_id current.id) (replaced_by now new.id) (new ∷ before)
      (λ s. refl) (λ s. refl) (λ s. refl) (behind-IsSpent h f new before unused v)
