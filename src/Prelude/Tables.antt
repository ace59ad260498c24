-- ===== src/Prelude/Tables.antt =====
-- A table of the database as the list of its rows: `findFirst`, `update` and sums over the rows.
use guardtrak_api.Prelude.Tests.{if◌then◌else◌, Bool-cases}
use Prim.Native.Nat.{ℕ, ◌+◌, ◌≤◌}
use mathlib.Core.Path.{◌≡◌, refl}
use mathlib.Core.Logic.{inl, inr}
use mathlib.Core.Bool.{Bool, true, false}
use mathlib.Core.Option.{Option, none, some}
use mathlib.Core.List.{List, [], ◌∷◌}
use native.Mathlib.Omega.{arith}

module _ {A : Type 0} where
  unfoldable pub find_first : (A → Bool) → List A → Option A
  find_first where_ [] = none
  find_first where_ (row ∷ rows) = if where_ row then some row else find_first where_ rows

  unfoldable pub update_where : (A → Bool) → (A → A) → List A → List A
  update_where where_ change [] = []
  update_where where_ change (row ∷ rows) =
      (if where_ row then change row else row) ∷ update_where where_ change rows

  unfoldable pub total : (A → ℕ) → List A → ℕ
  total weight [] = 0
  total weight (row ∷ rows) = weight row + total weight rows

  abbrev pub indicator : (A → Bool) → A → ℕ
  indicator where_ row = if where_ row then 1 else 0

  pub find_first-holds :
      (where_ : A → Bool) (rows : List A) (row : A)
      → find_first where_ rows ≡ some row
      → where_ row ≡ true
  unfolding find_first
  find_first-holds where_ [] row h = cc
  find_first-holds where_ (r ∷ rows) row h = ground (arith, find_first-holds where_ rows row)

  -- Where no row fits, an update changes nothing.
  update_none :
      (where_ : A → Bool) (change : A → A) (rows : List A)
      → total (indicator where_) rows ≡ 0
      → update_where where_ change rows ≡ rows
  unfolding update_where total
  update_none where_ change [] h = refl
  update_none where_ change (r ∷ rows) h = ground (arith, update_none where_ change rows)

  -- Where one row fits at most, an update moves a sum by what it does to that row.
  pub total-update_where :
      (weight : A → ℕ) (where_ : A → Bool) (change : A → A) (rows : List A) (row : A)
      → total (indicator where_) rows ≤ 1
      → find_first where_ rows ≡ some row
      → total weight (update_where where_ change rows) + weight row
        ≡ total weight rows + weight (change row)
  unfolding update_where total find_first
  total-update_where weight where_ change [] row u h = cc
  total-update_where weight where_ change (r ∷ rows) row u h =
      ground
        (arith, update_none where_ change rows, total-update_where weight where_ change rows row)

  pub find_first-none :
      (where_ : A → Bool) (rows : List A)
      → find_first where_ rows ≡ none
      → total (indicator where_) rows ≡ 0
  unfolding find_first total
  find_first-none where_ [] h = refl
  find_first-none where_ (r ∷ rows) h = ground (arith, find_first-none where_ rows)

  found_counts :
      (p q : A → Bool) (imp : (r : A) → p r ≡ true → q r ≡ true) (rows : List A) (row : A)
      → find_first p rows ≡ some row
      → 1 ≤ total (indicator q) rows
  unfolding find_first total
  found_counts p q imp [] row h = cc
  found_counts p q imp (r ∷ rows) row h = ground (arith, imp r, found_counts p q imp rows row)

  -- A wider query that fits one row at most finds the same row.
  pub find_first-widen :
      (p q : A → Bool) (imp : (r : A) → p r ≡ true → q r ≡ true) (rows : List A) (row : A)
      → total (indicator q) rows ≤ 1
      → find_first p rows ≡ some row
      → find_first q rows ≡ some row
  unfolding find_first total
  find_first-widen p q imp [] row u h = cc
  find_first-widen p q imp (r ∷ rows) row u h =
      ground (arith, imp r, found_counts p q imp rows row, find_first-widen p q imp rows row)

  -- A property of every row.
  abbrev pub All : (A → Type 0) → List A → Type 0
  All P [] = Unit
  All P (row ∷ rows) = P row × All P rows

  pub All-weaken :
      (P Q : A → Type 0) → ((r : A) → P r → Q r) → (rows : List A) → All P rows → All Q rows
  All-weaken P Q f [] h = tt
  All-weaken P Q f (r ∷ rows) h = (f r h.0, All-weaken P Q f rows h.1)

  pub All-update_where :
      (P Q : A → Type 0) (where_ : A → Bool) (change : A → A)
      → ((r : A) → P r → where_ r ≡ true → Q (change r))
      → ((r : A) → P r → where_ r ≡ false → Q r)
      → (rows : List A) → All P rows
      → All Q (update_where where_ change rows)
  unfolding update_where
  All-update_where P Q where_ change hit miss [] h = tt
  All-update_where P Q where_ change hit miss (r ∷ rows) h = elim (Bool-cases (where_ r)) [
    | inl e ↦ rw e (hit r h.0 e, All-update_where P Q where_ change hit miss rows h.1)
    | inr e ↦ rw e (miss r h.0 e, All-update_where P Q where_ change hit miss rows h.1)
  ]

  pub find_first-All :
      (P : A → Type 0) (where_ : A → Bool) (rows : List A) (row : A)
      → All P rows
      → find_first where_ rows ≡ some row
      → P row
  unfolding find_first
  find_first-All P where_ [] row h e = cc
  find_first-All P where_ (r ∷ rows) row h e = elim (Bool-cases (where_ r)) [
    | inl fits ↦ let same : r ≡ row = ground arith in rw (← same) h.0
    | inr other ↦ find_first-All P where_ rows row h.1 (rw (other) at e)
  ]

  -- A row that replaces the one found is found in its place.
  pub find_first-update_where :
      (p q : A → Bool) (imp : (r : A) → p r ≡ true → q r ≡ true) (new : A) (rows : List A) (row : A)
      → p new ≡ true
      → find_first p rows ≡ some row
      → find_first p (update_where q (λ r. new) rows) ≡ some new
  unfolding find_first update_where
  find_first-update_where p q imp new [] row fits h = cc
  find_first-update_where p q imp new (r ∷ rows) row fits h =
      ground (arith, imp r, find_first-update_where p q imp new rows row)

  -- An update that changes the weight of no row keeps the sum.
  pub total-update_same :
      (weight : A → ℕ) (where_ : A → Bool) (change : A → A)
      → ((r : A) → weight (change r) ≡ weight r)
      → (rows : List A) → total weight (update_where where_ change rows) ≡ total weight rows
  unfolding update_where total
  total-update_same weight where_ change same [] = refl
  total-update_same weight where_ change same (r ∷ rows) =
      ground (arith, same r, total-update_same weight where_ change same rows)
