-- ===== src/Attendance/ClockIn/Retry.antt =====
-- A clock-in that is sent again.
use guardtrak_api.Prelude.{◌≤◌, ◌≡◌, ◌∙◌, inl, inr, some, List}
use guardtrak_api.Errors.{ok, Result-cases}
use guardtrak_api.Common.Tenant.{RequestUser}
use guardtrak_api.Environment.{Environment, Call, begin_input}
use guardtrak_api.Database.{Db, Attendance}
use guardtrak_api.Idempotency.Types.{IdempotencyRow, StoredBody}
use guardtrak_api.Idempotency.Replay.{success_is_replayed}
use guardtrak_api.Breaks.Guards.{officer_of}
use guardtrak_api.Attendance.ClockIn.{ClockInDto}
use guardtrak_api.Attendance.ClockIn.Perform.{
  perform_clock_in, clock_in, clock_in_hash, clock_in_operation,
}

-- An officer who sends the request to clock in again, after it has been answered and while the user
-- is the same officer, gets the same answer, and nothing is written: the tables stay as they are
-- then.
pub clock_in_is_idempotent :
    (env : Environment) (call call' : Call) (user : RequestUser) (dto : ClockInDto)
    (db db' later : Db) (racing racing' rows rows' : List (IdempotencyRow Attendance))
    (body : StoredBody Attendance)
    → call.now ≤ call.retry_at
    → officer_of later user ≡ officer_of db user
    → clock_in env call user dto racing (some rows) db ≡ (ok body, some rows', db')
    → clock_in env call' user dto racing' (some rows') later ≡ (ok body, some rows', later)
unfolding clock_in
clock_in_is_idempotent env call call' user dto db db' later racing racing' rows rows' body l same
      h =
    elim (Result-cases (officer_of db user)) [
      | inl (who, e) ↦
          rw (same ∙ e, clock_in)
            (success_is_replayed env.error_message 201
              (perform_clock_in env call user who.0 who.1 dto)
              (begin_input env user who.0 dto.idempotency_key clock_in_operation
                (clock_in_hash env dto))
              call.now call.retry_at call'.now call'.retry_at racing racing' rows rows' db db' later
              body (perform_clock_in env call' user who.0 who.1 dto) l (rw (e, clock_in) at h))
      | inr (x, e) ↦ let q = rw (e, clock_in) at h in cc
    ]
