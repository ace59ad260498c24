-- ===== src/Breaks/Invariant.antt =====
-- What holds of the breaks and the attendances between two requests.
use guardtrak_api.Prelude.{
  ℕ, ◌+◌, ◌≤◌, Bool, true, ◌&&◌, ◌≡◌, arith, some, List, ◌==◌, total, indicator, find_first,
  update_where, find_first-holds, find_first-widen, total-update_where, All,
}
use guardtrak_api.Database.{Db, ShiftBreak}
use guardtrak_api.Breaks.Guards.{completed_minutes}
use guardtrak_api.Breaks.Start.{is_active_of}

abbrev pub has_id : ℕ → ShiftBreak → Bool
has_id i b = b.id == i

-- Breaks have distinct identifiers, an attendance has at most one active break, and the break minutes
-- of every attendance are those of its completed breaks.
pub record Inv (db : Db) : Type 0 where
  pub distinct : (i : ℕ) → total (indicator (has_id i)) db.breaks ≤ 1
  pub one_active : (i : ℕ) → total (indicator (is_active_of i)) db.breaks ≤ 1
  pub totals : All (λ a. a.total_break_minutes ≡ completed_minutes a.id db.breaks) db.attendances

-- A change of one break, found by its identifier in an organisation, and what it does to a sum.
module _ (breaks : List ShiftBreak) (distinct : (i : ℕ) → total (indicator (has_id i)) breaks ≤ 1)
    (organisation_id id : ℕ) (row : ShiftBreak)
    (found : find_first (λ b. b.id == id && b.organisation_id == organisation_id) breaks
      ≡ some row) where
  in_organisation :
      (r : ShiftBreak)
      → (r.id == id && r.organisation_id == organisation_id) ≡ true
      → has_id id r ≡ true
  in_organisation r h = ground arith

  pub row-id : (row.id ≡ id) × (row.organisation_id ≡ organisation_id)
  row-id =
      let h =
        find_first-holds (λ b. b.id == id && b.organisation_id == organisation_id) breaks row
          found in
      ground arith

  found_by_id : find_first (has_id row.id) breaks ≡ some row
  found_by_id = simp (row-id.0) (
      find_first-widen (λ b. b.id == id && b.organisation_id == organisation_id) (has_id id)
        in_organisation breaks row (distinct id) found)

  pub change_sum :
      (weight : ShiftBreak → ℕ) (new : ShiftBreak)
      → total weight (update_where (has_id row.id) (λ b. new) breaks) + weight row
        ≡ total weight breaks + weight new
  change_sum weight new =
      total-update_where weight (has_id row.id) (λ b. new) breaks row (distinct row.id) found_by_id
