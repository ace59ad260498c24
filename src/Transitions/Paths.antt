-- ===== src/Transitions/Paths.antt =====
-- Histories of status changes: a sequence of steps, each allowed by a table.
use guardtrak_api.Prelude.{ℕ, suc, ◌+◌, ◌≤◌, ◌<◌, Bool, true, ◌≡◌, arith}

-- `History allowed s n t`: `n` changes of status, each accepted by the table, lead from `s` to `t`.
pub data History {S : Type 0} (allowed : S → S → Bool) (s : S) : ℕ → S → Type 0 where
  here : {n : ℕ} → n ≡ 0 → History allowed s n s
  next :
      {n m : ℕ} {t u : S}
      → History allowed s n t
      → allowed t u ≡ true
      → m ≡ suc n
      → History allowed s m u

module _ {S : Type 0} (allowed : S → S → Bool) where
  -- A measure that every accepted change raises bounds the length of a history.
  pub History-rank :
      (rank : S → ℕ)
      → ((t u : S) → allowed t u ≡ true → rank t < rank u)
      → {s t : S} {n : ℕ} → History allowed s n t
      → rank s + n ≤ rank t
  History-rank rank up (here e) = omega arith
  History-rank rank up (next {t} {u} r h e) = omega (arith, History-rank rank up r, up t u h)

  -- A predicate that every accepted change keeps holds along a history.
  pub History-keeps {ℓ} :
      (P : S → Type ℓ)
      → ((t u : S) → allowed t u ≡ true → P t → P u)
      → {s t : S} {n : ℕ} → History allowed s n t
      → P s
      → P t
  History-keeps P keep (here e) p = p
  History-keeps P keep (next {t} {u} r h e) p = keep t u h (History-keeps P keep r p)
