-- ===== src/Breaks/Preserve.antt =====
-- The handlers of a break and the invariant of Breaks/Invariant.
use guardtrak_api.Prelude.{
  ℕ, ◌+◌, ◌≡◌, refl, arith, Option, none, some, ◌∷◌, ◌==◌, total, indicator, find_first,
  update_where, find_first-none, All-weaken, All-update_where, String,
}
use guardtrak_api.Errors.{ok}
use guardtrak_api.Common.Tenant.{RequestUser}
use guardtrak_api.Database.{Db, ShiftBreak}
use guardtrak_api.Environment.{Environment, Call}
use guardtrak_api.Transitions.BreakStatus.{BreakStatus}
use guardtrak_api.Breaks.Guards.{completed_part, completed_minutes}
use guardtrak_api.Breaks.Start.{StartBreakDto, is_active_of, insert_break, new_break, perform_start}
use guardtrak_api.Breaks.End.{EndBreakDto, find_break, ended, write_end, perform_end}
use guardtrak_api.Breaks.Cancel.{cancelled, write_cancel, cancel}
use guardtrak_api.Breaks.Invariant.{Inv, has_id, change_sum}
use guardtrak_api.Breaks.Outcomes.{perform_start-Started, perform_end-Ended, cancel-Cancelled}

insert_break-Inv :
    (db : Db) (user : RequestUser) (organisation_id : ℕ) (created : ShiftBreak)
    → created.status ≡ BreakStatus.active
    → ((i : ℕ) → created.id ≡ i → total (indicator (has_id i)) db.breaks ≡ 0)
    → ((i : ℕ) → created.attendance_id ≡ i → total (indicator (is_active_of i)) db.breaks ≡ 0)
    → Inv db
    → Inv (insert_break db user organisation_id created)
unfolding insert_break total completed_minutes
insert_break-Inv db user organisation_id created active fresh free v = record {
  distinct = λ i. ground (arith, fresh i, v.distinct i);
  one_active = λ i. ground (arith, free i, v.one_active i);
  totals =
      All-weaken (λ a. a.total_break_minutes ≡ completed_minutes a.id db.breaks)
        (λ a. a.total_break_minutes ≡ completed_minutes a.id (created ∷ db.breaks))
        (λ a h. ground arith) db.attendances v.totals;
}

module _ (env : Environment) (call : Call) (user : RequestUser) where
  -- Starting a break keeps the invariant, if the new identifier is not in use.
  pub perform_start-Inv :
      (organisation_id officer_id : ℕ) (dto : StartBreakDto) (db : Db) (created : ShiftBreak)
      (db' : Db)
      → find_first (has_id call.new_id) db.breaks ≡ none
      → perform_start env call user organisation_id officer_id dto db ≡ ok (created, db')
      → Inv db
      → Inv db'
  unfolding new_break
  perform_start-Inv organisation_id officer_id dto db created db' fresh h v =
      let s = perform_start-Started env call user organisation_id officer_id dto db created db' h in
      let b = new_break env call organisation_id officer_id dto s.attendance in
      let unused = find_first-none (has_id call.new_id) db.breaks fresh in
      let free = find_first-none (is_active_of s.attendance.id) db.breaks s.no_break in
      rw (s.written, s.row)
        (insert_break-Inv db user organisation_id b refl (λ i e. simp (← e) unused)
          (λ i e. simp (← e) free) v)

  module _ (organisation_id id : ℕ) (db : Db) (row : ShiftBreak)
      (found : find_break db organisation_id id ≡ some row) (v : Inv db)
      (active : row.status ≡ BreakStatus.active) where
    sum_after :
        (weight : ShiftBreak → ℕ) (new : ShiftBreak)
        → total weight (update_where (has_id row.id) (λ b. new) db.breaks) + weight row
          ≡ total weight db.breaks + weight new
    unfolding find_break
    sum_after = change_sum db.breaks v.distinct organisation_id id row found

    write_end-Inv : (dto : EndBreakDto) → Inv (write_end env call user organisation_id dto row db)
    unfolding write_end ended completed_minutes
    write_end-Inv dto = record {
      distinct = λ i.
          ground (arith, v.distinct i, sum_after (indicator (has_id i)) (ended env call dto row));
      one_active = λ i.
          ground (
            arith,
            v.one_active i,
            sum_after (indicator (is_active_of i)) (ended env call dto row),
          );
      totals =
          let breaks' = update_where (has_id row.id) (λ b. ended env call dto row) db.breaks in
          All-update_where (λ a. a.total_break_minutes ≡ completed_minutes a.id db.breaks)
            (λ a. a.total_break_minutes ≡ completed_minutes a.id breaks')
            (λ a. a.id == row.attendance_id)
            (λ a. record a { total_break_minutes = completed_minutes row.attendance_id breaks' })
            (λ a h e. let same : row.attendance_id ≡ a.id = ground arith in rw same)
            (λ a h e. ground (arith, sum_after (completed_part a.id) (ended env call dto row)))
            db.attendances v.totals;
    }

    write_cancel-Inv :
        (reason : Option String) → Inv (write_cancel env user organisation_id reason row db)
    unfolding write_cancel cancelled completed_minutes
    write_cancel-Inv reason = record {
      distinct = λ i.
          ground
            (arith, v.distinct i, sum_after (indicator (has_id i)) (cancelled env user reason row));
      one_active = λ i. ground (
        arith,
        v.one_active i,
        sum_after (indicator (is_active_of i)) (cancelled env user reason row),
      );
      totals =
          let breaks' =
            update_where (has_id row.id) (λ b. cancelled env user reason row) db.breaks in
          All-weaken (λ a. a.total_break_minutes ≡ completed_minutes a.id db.breaks)
            (λ a. a.total_break_minutes ≡ completed_minutes a.id breaks')
            (λ a h. ground (arith, sum_after (completed_part a.id) (cancelled env user reason row)))
            db.attendances v.totals;
    }

  -- Ending a break keeps the invariant: the attendance's total is that of its completed breaks again.
  pub perform_end-Inv :
      (organisation_id officer_id id : ℕ) (dto : EndBreakDto) (db : Db) (result : ShiftBreak)
      (db' : Db)
      → perform_end env call user organisation_id officer_id id dto db ≡ ok (result, db')
      → Inv db
      → Inv db'
  perform_end-Inv organisation_id officer_id id dto db result db' h v =
      let s = perform_end-Ended env call user organisation_id officer_id id dto db result db' h in
      rw s.written (write_end-Inv organisation_id id db s.row s.found v s.was_active dto)

  -- Cancelling a break keeps the invariant, and so changes the break minutes of no attendance.
  pub cancel-Inv :
      (id : ℕ) (reason : Option String) (db : Db) (result : ShiftBreak) (db' : Db)
      → cancel env call user id reason db ≡ ok (result, db')
      → Inv db
      → Inv db'
  cancel-Inv id reason db result db' h v =
      let s = cancel-Cancelled env call user id reason db result db' h in
      rw s.written (write_cancel-Inv s.organisation_id id db s.row s.found v s.was_active reason)
