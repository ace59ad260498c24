-- ===== src/Prelude/Pairs.antt =====
-- Tables whose rows stand in a relation pair by pair, and the rows that a query by a key finds.
use Prim.Native.Nat.{ℕ, ◌≤◌}
use guardtrak_api.Prelude.Tests.{if◌then◌else◌, Bool-cases}
use guardtrak_api.Prelude.Tables.{find_first, update_where, total, indicator, All, All-weaken}
use mathlib.Core.Path.{◌≡◌, refl}
use mathlib.Core.Logic.{inl, inr}
use mathlib.Core.Bool.{Bool, true, false}
use mathlib.Core.Option.{none, some}
use mathlib.Core.List.{List, [], ◌∷◌}
use native.Mathlib.Omega.{arith}

module _ {A : Type 0} where
  -- Every row to those that stand behind it.
  abbrev pub Pairwise : (A → A → Type 0) → List A → Type 0
  Pairwise R [] = Unit
  Pairwise R (row ∷ rows) = All (R row) rows × Pairwise R rows

  pub Pairwise-weaken :
      (R S : A → A → Type 0)
      → ((a b : A) → R a b → S a b)
      → (rows : List A) → Pairwise R rows
      → Pairwise S rows
  Pairwise-weaken R S f [] h = tt
  Pairwise-weaken R S f (r ∷ rows) h =
      (All-weaken (R r) (S r) (f r) rows h.0, Pairwise-weaken R S f rows h.1)

  pub find_first-none-All :
      (where_ : A → Bool) (rows : List A)
      → find_first where_ rows ≡ none
      → All (λ r. where_ r ≡ false) rows
  unfolding find_first
  find_first-none-All where_ [] h = tt
  find_first-none-All where_ (r ∷ rows) h = elim (Bool-cases (where_ r)) [
    | inl e ↦ let f : some r ≡ none = rw (e) at h in cc
    | inr e ↦ (e, find_first-none-All where_ rows (rw (e) at h))
  ]

  pub All-find_first-none :
      (where_ : A → Bool) (rows : List A)
      → All (λ r. where_ r ≡ false) rows
      → find_first where_ rows ≡ none
  unfolding find_first
  All-find_first-none where_ [] h = refl
  All-find_first-none where_ (r ∷ rows) h =
      let miss = h.0 in rw miss (All-find_first-none where_ rows h.1)

  total_zero :
      (where_ : A → Bool) (rows : List A)
      → total (indicator where_) rows ≡ 0
      → All (λ r. where_ r ≡ false) rows
  unfolding total
  total_zero where_ [] h = tt
  total_zero where_ (r ∷ rows) h =
      let hit : where_ r ≡ false = ground arith in (hit, total_zero where_ rows (ground arith))

  -- Where one row fits at most, every row that fits is the one found.
  pub only_row :
      (where_ : A → Bool) (rows : List A) (row : A)
      → total (indicator where_) rows ≤ 1
      → find_first where_ rows ≡ some row
      → All (λ r. where_ r ≡ true → r ≡ row) rows
  unfolding find_first total
  only_row where_ [] row u h = tt
  only_row where_ (r ∷ rows) row u h = elim (Bool-cases (where_ r)) [
    | inl e ↦
        let same : r ≡ row = ground arith in
        let none_left : total (indicator where_) rows ≡ 0 = ground arith in
        (
          (λ f. same),
          All-weaken (λ x. where_ x ≡ false) (λ x. where_ x ≡ true → x ≡ row) (λ x m f. cc) rows
              (total_zero where_ rows none_left),
        )
    | inr e ↦ ((λ f. cc), only_row where_ rows row (ground arith) (rw (e) at h))
  ]

  -- What a change keeps of a relation, on either side.
  abbrev pub Keeps : (A → A → Type 0) → (A → A) → A → Type 0
  Keeps R change r = ((b : A) → R r b → R (change r) b) × ((b : A) → R b r → R b (change r))

  All-changed :
      (R : A → A → Type 0) (where_ : A → Bool) (change : A → A) (a : A) (rows : List A)
      → All (λ r. where_ r ≡ true → Keeps R change r) rows
      → All (R a) rows
      → All (R a) (update_where where_ change rows)
  unfolding update_where
  All-changed R where_ change a [] k h = tt
  All-changed R where_ change a (r ∷ rows) k h = elim (Bool-cases (where_ r)) [
    | inl e ↦ rw e ((k.0 e).1 a h.0, All-changed R where_ change a rows k.1 h.1)
    | inr e ↦ rw e (h.0, All-changed R where_ change a rows k.1 h.1)
  ]

  pub Pairwise-update_where :
      (R : A → A → Type 0) (where_ : A → Bool) (change : A → A) (rows : List A)
      → All (λ r. where_ r ≡ true → Keeps R change r) rows
      → Pairwise R rows
      → Pairwise R (update_where where_ change rows)
  unfolding update_where
  Pairwise-update_where R where_ change [] k h = tt
  Pairwise-update_where R where_ change (r ∷ rows) k h =
      let behind = All-changed R where_ change r rows k.1 h.0 in
      let rest = Pairwise-update_where R where_ change rows k.1 h.1 in
      elim (Bool-cases (where_ r)) [
        | inl e ↦ rw e (
          All-weaken (R r) (R (change r)) (k.0 e).0 (update_where where_ change rows) behind,
          rest,
        )
        | inr e ↦ rw e (behind, rest)
      ]

  -- An update by which no row weighs more.
  pub total-update_less :
      (weight : A → ℕ) (where_ : A → Bool) (change : A → A)
      → ((r : A) → weight (change r) ≤ weight r)
      → (rows : List A) → total weight (update_where where_ change rows) ≤ total weight rows
  unfolding update_where total
  total-update_less weight where_ change less [] = omega arith
  total-update_less weight where_ change less (r ∷ rows) =
      ground (arith, less r, total-update_less weight where_ change less rows)

  pub found_counts_as :
      (p q : A → Bool) (rows : List A) (row : A)
      → find_first p rows ≡ some row
      → q row ≡ true
      → 1 ≤ total (indicator q) rows
  unfolding find_first total
  found_counts_as p q [] row h e = cc
  found_counts_as p q (r ∷ rows) row h e = elim (Bool-cases (p r)) [
    | inl f ↦ let same : r ≡ row = ground arith in rw same (ground arith)
    | inr f ↦ let c = found_counts_as p q rows row (rw (f) at h) e in ground arith
  ]

  -- A row that one query finds is found by its key.
  pub find_first-by_key :
      (p q : A → Bool) (rows : List A) (row : A)
      → total (indicator q) rows ≤ 1
      → find_first p rows ≡ some row
      → q row ≡ true
      → find_first q rows ≡ some row
  unfolding find_first total
  find_first-by_key p q [] row u h e = cc
  find_first-by_key p q (r ∷ rows) row u h e = elim (Bool-cases (p r)) [
    | inl f ↦ let same : r ≡ row = ground arith in rw (same, e) refl
    | inr f ↦
        let c = found_counts_as p q rows row (rw (f) at h) e in
        let miss : q r ≡ false = ground arith in
        rw miss (find_first-by_key p q rows row (ground arith) (rw (f) at h) e)
  ]

  -- A query that does not see the change finds the same row, changed where the update hits it.
  pub find_first-kept :
      (p q : A → Bool) (change : A → A)
      → ((r : A) → p (change r) ≡ p r)
      → (rows : List A) (row : A) → find_first p rows ≡ some row
      → find_first p (update_where q change rows) ≡ some (if q row then change row else row)
  unfolding find_first update_where
  find_first-kept p q change keep [] row h = cc
  find_first-kept p q change keep (r ∷ rows) row h = elim (Bool-cases (p r)) [
    | inl f ↦
        let same : r ≡ row = ground arith in
        let k = keep row in let g : p row ≡ true = rw (← same) f in rw (same) (ground arith)
    | inr f ↦
        let k = keep r in
        let rest = find_first-kept p q change keep rows row (rw (f) at h) in ground arith
  ]

  -- At most one row fits, if a new one fits only where no other does.
  pub insert_once :
      (p : A → Bool) (rows : List A) (created : A)
      → total (indicator p) rows ≤ 1
      → (p created ≡ true → total (indicator p) rows ≡ 0)
      → total (indicator p) (created ∷ rows) ≤ 1
  unfolding total
  insert_once p rows created u z = ground arith
