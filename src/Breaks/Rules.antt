-- ===== src/Breaks/Rules.antt =====
-- The rules of a break: one at a time, its duration, who may cancel it, and retries.
use guardtrak_api.Prelude.{
  ℕ, ◌+◌, ◌≤◌, true, ◌&&◌, not, ◌≡◌, ◌≢◌, refl, ◌∙◌, ◌⊎◌, inl, inr, arith, Option, none, some, List,
  ◌==◌, find_first, find_first-holds, Option-cases, String, is_some,
}
use guardtrak_api.Errors.{ok, Result-cases}
use guardtrak_api.Common.Tenant.{
  RequestUser, tenant_not_found, user_has_permission, break_start_self,
}
use guardtrak_api.Database.{Db, Attendance, ShiftBreak}
use guardtrak_api.Environment.{Environment, Call, begin_input}
use guardtrak_api.Transitions.BreakStatus.{BreakStatus, assert_break_transition}
use guardtrak_api.Idempotency.Types.{IdempotencyRow, StoredBody}
use guardtrak_api.Idempotency.Replay.{success_is_replayed}
use guardtrak_api.Breaks.Guards.{
  officer_of, assert_device_time_tolerance, assert_active_device, resolve_officer_profile_id,
}
use guardtrak_api.Breaks.Start.{
  StartBreakDto, own_attendance, insert_break, new_break, perform_start, start, start_hash,
  break_start,
}
use guardtrak_api.Breaks.End.{
  EndBreakDto, find_break, own_break, ended, write_end, perform_end, minutes_since, started_at,
}
use guardtrak_api.Breaks.Cancel.{is_reviewer, check_cancel, cancel}
use guardtrak_api.Breaks.Outcomes.{perform_start-Started, cancel-Cancelled}

-- The attendance that a break starts on is the one asked for, of the organisation and of the
-- officer, and has not been deleted.
pub own_attendance-holds :
    (db : Db) (organisation_id officer_id id : ℕ) (a : Attendance)
    → own_attendance db organisation_id officer_id id ≡ ok a
    → (a.id ≡ id)
      × (a.organisation_id ≡ organisation_id)
      × (a.officer_id ≡ officer_id)
      × (a.deleted_at ≡ none)
unfolding own_attendance tenant_not_found
own_attendance-holds db organisation_id officer_id id a h =
    let p = λ (r : Attendance).
      r.id == id && r.organisation_id == organisation_id && not (is_some r.deleted_at) in
    elim (Option-cases (find_first p db.attendances)) [
      | inr (b, e) ↦ let q = find_first-holds p db.attendances b e in ground arith
      | inl e ↦ absurd (ground arith)
    ]

module _ (env : Environment) where
  -- Right after a break has started on an attendance no other break starts on it, whoever asks and
  -- when.
  pub second_start_refused :
      (call call' : Call) (user user' : RequestUser) (o f o' f' : ℕ) (dto dto' : StartBreakDto)
      (db db' db'' : Db) (created created' : ShiftBreak)
      → perform_start env call user o f dto db ≡ ok (created, db')
      → dto'.attendance_id ≡ dto.attendance_id
      → perform_start env call' user' o' f' dto' db' ≢ ok (created', db'')
  unfolding new_break insert_break find_first
  second_start_refused call call' user user' o f o' f' dto dto' db db' db'' created created' h same
        h' =
      let s = perform_start-Started env call user o f dto db created db' h in
      let s' = perform_start-Started env call' user' o' f' dto' db' created' db'' h' in
      let a = own_attendance-holds db o f dto.attendance_id s.attendance s.own in
      let a' = own_attendance-holds db' o' f' dto'.attendance_id s'.attendance s'.own in
      let q = rw (s.written, s.row) at s'.no_break in ground arith

  module _ (call call' : Call) (user user' : RequestUser) (o f : ℕ) (dto : StartBreakDto)
      (dto' : EndBreakDto) (db db' : Db) (created : ShiftBreak)
      (started : perform_start env call user o f dto db ≡ ok (created, db')) where
    started_found : own_break db' o f created.id ≡ ok created
    unfolding own_break find_break new_break insert_break find_first
    started_found =
        let s = perform_start-Started env call user o f dto db created db' started in
        rw (s.written, s.row) (ground arith)

    -- The officer who started a break can end it right after, from an active device whose clock is
    -- right. The break is then completed, with the whole minutes since its start as its duration.
    pub start_then_end :
        assert_device_time_tolerance env.device_time_tolerance_minutes dto'.device_timestamp
            call'.now
          ≡ ok tt
        → assert_active_device db' user' ≡ ok tt
        → (perform_end env call' user' o f created.id dto' db'
            ≡ ok (ended env call' dto' created, write_end env call' user' o dto' created db'))
          × ((ended env call' dto' created).status ≡ BreakStatus.completed)
          × ((ended env call' dto' created).duration_minutes
              ≡ some (minutes_since call.now call'.now))
    unfolding perform_end ended new_break assert_break_transition
    start_then_end on_time on_device =
        let s = perform_start-Started env call user o f dto db created db' started in
        let active : created.status ≡ BreakStatus.active = rw s.row refl in
        let since : created.started_at_server ≡ some call.now = rw s.row refl in
        (ground (arith, started_found), refl, ground arith)

  -- A break that is cancelled was active and belongs to the organisation of the user, who is a
  -- reviewer, or is its officer, may start breaks, and cancels within five minutes of its start.
  pub cancel_allowed :
      (call : Call) (user : RequestUser) (id : ℕ) (reason : Option String) (db db' : Db)
      (result : ShiftBreak)
      → cancel env call user id reason db ≡ ok (result, db')
      → (o : ℕ) × (row : ShiftBreak) × (user.organisation_id ≡ some o)
        × (find_break db o id ≡ some row)
        × (row.status ≡ BreakStatus.active)
        × ((is_reviewer user ≡ true)
            ⊎ ((resolve_officer_profile_id db user o ≡ ok row.officer_id)
                × (user_has_permission user break_start_self ≡ true)
                × (call.now ≤ started_at row + 300000)))
  unfolding check_cancel
  cancel_allowed call user id reason db db' result h =
      let s = cancel-Cancelled env call user id reason db result db' h in
      (s.organisation_id, s.row, s.tenant, s.found, s.was_active, ground arith)

  -- A client that sends the request to start a break again, after it has been answered and while
  -- the user is the same officer, gets the same answer, and no second break is started: the tables
  -- stay as they are then.
  pub start_is_idempotent :
      (call call' : Call) (user : RequestUser) (dto : StartBreakDto) (db db' later : Db)
      (racing racing' rows rows' : List (IdempotencyRow ShiftBreak)) (body : StoredBody ShiftBreak)
      → call.now ≤ call.retry_at
      → officer_of later user ≡ officer_of db user
      → start env call user dto racing (some rows) db ≡ (ok body, some rows', db')
      → start env call' user dto racing' (some rows') later ≡ (ok body, some rows', later)
  unfolding start
  start_is_idempotent call call' user dto db db' later racing racing' rows rows' body l same h =
      elim (Result-cases (officer_of db user)) [
        | inl (who, e) ↦
            rw (same ∙ e, start)
              (success_is_replayed env.error_message 201
                (perform_start env call user who.0 who.1 dto)
                (begin_input env user who.0 dto.idempotency_key break_start (start_hash env dto))
                call.now call.retry_at call'.now call'.retry_at racing racing' rows rows' db db'
                later body (perform_start env call' user who.0 who.1 dto) l (rw (e, start) at h))
        | inr (x, e) ↦ let q = rw (e, start) at h in cc
      ]
