-- ===== src/Auth/Families.antt =====
-- What a request may do to the table of sessions, and the families of sessions under it.
pub mod Spent
use guardtrak_api.Prelude.{
  ℕ, suc, ◌+◌, ◌≤◌, Bool, true, false, ◌&&◌, not, ◌≡◌, refl, sym, arith, Option, none, some, List,
  [], ◌∷◌, ◌==◌, is_some, total, indicator, find_first, update_where, find_first-none,
  total-update_where, total-update_same, total-update_less, found_counts_as, insert_once,
  Bool-cases, inl, inr,
}
use guardtrak_api.Auth.Tables.{Session}
use guardtrak_api.Auth.Sessions.{is_unrevoked, has_session_id, has_token, lives_in}

abbrev pub in_family : ℕ → Session → Bool
in_family family_id s = s.family_id == family_id

abbrev pub revoked_at_time : ℕ → Session → Session
revoked_at_time now s = record s { revoked_at = some now }

abbrev pub replaced_by : ℕ → ℕ → Session → Session
replaced_by now id s = record s { revoked_at = some now; replaced_by_session_id = some id }

-- The sessions stay, some are revoked, a new family begins, or a live session is replaced by a new one
-- of its family.
pub data Moves (before : List Session) : List Session → Type 0 where
  unchanged : Moves before before
  revoked :
      (now : ℕ) (where_ : Session → Bool)
      → Moves before (update_where where_ (revoked_at_time now) before)
  opened :
      (new : Session)
      → find_first (has_session_id new.id) before ≡ none
      → find_first (in_family new.family_id) before ≡ none
      → find_first (has_token new.token_hash) before ≡ none
      → Moves before (new ∷ before)
  rotated :
      (now : ℕ) (current new : Session)
      → find_first (has_session_id current.id) before ≡ some current
      → is_unrevoked current ≡ true
      → find_first (has_session_id new.id) before ≡ none
      → new.family_id ≡ current.family_id
      → find_first (has_token new.token_hash) before ≡ none
      → Moves before
          (update_where (has_session_id current.id) (replaced_by now new.id) (new ∷ before))

-- Sessions have distinct identifiers, and a family has at most one live session.
pub record OneLive (sessions : List Session) : Type 0 where
  pub distinct : (i : ℕ) → total (indicator (has_session_id i)) sessions ≤ 1
  pub one_live : (f : ℕ) → total (indicator (lives_in f)) sessions ≤ 1

-- A family that has sessions, and no live one.
abbrev pub IsDead : ℕ → List Session → Type 0
IsDead f sessions =
    (1 ≤ total (indicator (in_family f)) sessions) × (total (indicator (lives_in f)) sessions ≡ 0)

revoked-less :
    (now f : ℕ) (where_ : Session → Bool) (sessions : List Session)
    → total (indicator (lives_in f)) (update_where where_ (revoked_at_time now) sessions)
      ≤ total (indicator (lives_in f)) sessions
revoked-less now f where_ sessions =
    total-update_less (indicator (lives_in f)) where_ (revoked_at_time now) (λ s. ground arith)
      sessions

-- A session that is replaced counts no longer, the one that replaces it counts in its place.
module _ (now : ℕ) (current new : Session) (before : List Session)
    (found : find_first (has_session_id current.id) before ≡ some current)
    (live : is_unrevoked current ≡ true) (fresh : find_first (has_session_id new.id) before ≡ none)
    (family : new.family_id ≡ current.family_id)
    (once : total (indicator (has_session_id current.id)) before ≤ 1) where
  other_id : (new.id == current.id) ≡ false
  other_id =
      let n = find_first-none (has_session_id new.id) before fresh in
      let c =
        found_counts_as (has_session_id current.id) (has_session_id new.id) before current found in
      ground arith

  rotated_ids :
      (i : ℕ)
      → total
          (indicator (has_session_id i))
          (update_where (has_session_id current.id) (replaced_by now new.id) (new ∷ before))
        ≡ total (indicator (has_session_id i)) (new ∷ before)
  rotated_ids i =
      total-update_same (indicator (has_session_id i)) (has_session_id current.id)
        (replaced_by now new.id) (λ s. refl) (new ∷ before)

  rotated_live :
      (f : ℕ)
      → total
          (indicator (lives_in f))
          (update_where (has_session_id current.id) (replaced_by now new.id) (new ∷ before))
        ≤ total (indicator (lives_in f)) before
  unfolding total update_where
  rotated_live f =
      let t =
        total-update_where (indicator (lives_in f)) (has_session_id current.id)
          (replaced_by now new.id) before current once found in
      let o = other_id in ground arith

live_below :
    (f : ℕ) (sessions : List Session)
    → total (indicator (lives_in f)) sessions ≤ total (indicator (in_family f)) sessions
unfolding total
live_below f [] = omega arith
live_below f (s ∷ sessions) = ground (arith, live_below f sessions)

pub Moves-OneLive :
    {before after : List Session} → Moves before after → OneLive before → OneLive after
Moves-OneLive unchanged v = v
Moves-OneLive {before} (revoked now where_) v = record {
  distinct = λ i.
      rw
        (total-update_same (indicator (has_session_id i)) where_ (revoked_at_time now) (λ s. refl)
          before)
        (v.distinct i);
  one_live = λ f. let l = revoked-less now f where_ before in let u = v.one_live f in omega arith;
}
Moves-OneLive {before} (opened new fresh first_of unused) v = record {
  distinct = λ i. insert_once (has_session_id i) before new (v.distinct i) (λ e.
      let same : new.id ≡ i = ground arith in
      rw (← same) (find_first-none (has_session_id new.id) before fresh));
  one_live = λ f. insert_once (lives_in f) before new (v.one_live f) (λ e.
      let same : new.family_id ≡ f = ground arith in
      let n : total (indicator (in_family f)) before ≡ 0 =
        rw (← same) (find_first-none (in_family new.family_id) before first_of) in
      let b = live_below f before in omega arith);
}
Moves-OneLive {before} (rotated now current new found live fresh family unused) v = record {
  distinct = λ i.
      rw (rotated_ids now current new before found live fresh family (v.distinct current.id) i) (
        insert_once (has_session_id i) before new (v.distinct i) (λ e.
          let same : new.id ≡ i = ground arith in
          rw (← same) (find_first-none (has_session_id new.id) before fresh)));
  one_live = λ f.
      let l =
        rotated_live now current new before found live fresh family (v.distinct current.id) f in
      let u = v.one_live f in omega arith;
}

-- A dead family stays dead: a new family is another one, and only a live session is replaced.
pub Moves-IsDead :
    (f : ℕ) {before after : List Session}
    → Moves before after
    → OneLive before
    → IsDead f before
    → IsDead f after
unfolding total
Moves-IsDead f unchanged v d = d
Moves-IsDead f {before} (revoked now where_) v d =
    let e =
      total-update_same (indicator (in_family f)) where_ (revoked_at_time now) (λ s. refl) before in
    let l = revoked-less now f where_ before in
    let d0 = d.0 in let d1 = d.1 in (omega arith, omega arith)
Moves-IsDead f {before} (opened new fresh first_of unused) v d =
    let n = find_first-none (in_family new.family_id) before first_of in
    let d0 = d.0 in
    let d1 = d.1 in
    let other : (new.family_id == f) ≡ false = (elim (Bool-cases (new.family_id == f)) [
      | inl e ↦
          let same : new.family_id ≡ f = ground arith in
          let z : total (indicator (in_family f)) before ≡ 0 = rw (← same) n in absurd (omega arith)
      | inr e ↦ e
    ]) in
    (ground arith, ground arith)
Moves-IsDead f {before} (rotated now current new found live fresh family unused) v d =
    let e =
      total-update_same (indicator (in_family f)) (has_session_id current.id)
        (replaced_by now new.id) (λ s. refl) (new ∷ before) in
    let l = rotated_live now current new before found live fresh family (v.distinct current.id) f in
    let d0 = d.0 in let d1 = d.1 in (ground arith, omega arith)
