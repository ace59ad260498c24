-- ===== src/Breaks/Cancel.antt =====
-- `cancel`. It takes no idempotency key.
use guardtrak_api.Prelude.{
  ℕ, ◌-◌, ◌*◌, Bool, ◌&&◌, ◌||◌, Option, none, some, ◌∷◌, ◌==◌, leb, get_or_else, String,
  update_where, if◌then◌else◌,
}
use guardtrak_api.Errors.{
  Result, ok, ensure, ◌>>=◌, ◌>>◌, conflict_409, forbidden_403, break_not_found,
  break_access_forbidden, break_status_transition_invalid,
}
use guardtrak_api.Text.{trim_or_undefined}
use guardtrak_api.Common.Tenant.{
  RequestUser, require_organisation_id, user_has_permission, tenant_not_found, break_start_self,
  break_review, attendance_correct,
}
use guardtrak_api.Transitions.BreakStatus.{BreakStatus, assert_break_transition}
use guardtrak_api.Database.{Db, ShiftBreak, AuditAction, AuditNote}
use guardtrak_api.Environment.{Environment, Call}
use guardtrak_api.Breaks.Guards.{resolve_officer_profile_id}
use guardtrak_api.Breaks.End.{find_break, started_at}

unfoldable pub is_reviewer : RequestUser → Bool
unfolding user_has_permission
is_reviewer user =
    user_has_permission user break_review || user_has_permission user attendance_correct

-- The block under `if (!isReviewer)`. The age of a break is compared as `now ≤ startedAt + 5 min`.
unfoldable pub check_cancel : Call → RequestUser → ℕ → ShiftBreak → Db → Result (Unit {0})
unfolding resolve_officer_profile_id user_has_permission is_reviewer
check_cancel call user organisation_id row db = if is_reviewer user then ok tt else do
  officer_id ← resolve_officer_profile_id db user organisation_id
  ensure (user_has_permission user break_start_self && row.officer_id == officer_id) forbidden_403
      break_access_forbidden
  ensure (leb (call.now - started_at row) (5 * 60000)) conflict_409 break_status_transition_invalid

unfoldable pub cancelled : Environment → RequestUser → Option String → ShiftBreak → ShiftBreak
unfolding trim_or_undefined
cancelled env user reason row = record row {
  status = BreakStatus.cancelled;
  cancellation_reason = some (get_or_else (trim_or_undefined env.trim reason) "Cancelled");
  cancelled_by_user_id = some user.id;
}

unfoldable pub write_cancel : Environment → RequestUser → ℕ → Option String → ShiftBreak → Db → Db
unfolding update_where cancelled
write_cancel env user organisation_id reason row db = record db {
  breaks = update_where (λ b. b.id == row.id) (λ b. cancelled env user reason row) db.breaks;
  audit_logs =
      record {
        organisation_id = organisation_id;
        actor_user_id = user.id;
        action = AuditAction.update;
        entity_id = some row.id;
        note = AuditNote.cancel_break;
      }
      ∷ db.audit_logs;
}

unfoldable pub cancel :
    Environment → Call → RequestUser → ℕ → Option String → Db → Result (ShiftBreak × Db)
cancel env call user id reason db = do
  organisation_id ← require_organisation_id user
  row ← (elim (find_break db organisation_id id) [
    | none ↦ tenant_not_found break_not_found
    | some row ↦ ok row
  ])
  check_cancel call user organisation_id row db
  assert_break_transition row.status BreakStatus.cancelled
  ok (cancelled env user reason row, write_cancel env user organisation_id reason row db)
