-- ===== src/Attendance/Review/Decisions.antt =====
-- What a decision means for the requests after it.
use guardtrak_api.Prelude.{
  ℕ, true, ◌≡◌, ◌≢◌, arith, some, ◌==◌, String, find_first, find_first-holds,
  find_first-update_where,
}
use guardtrak_api.Errors.{ok}
use guardtrak_api.Common.Tenant.{RequestUser}
use guardtrak_api.Transitions.AttendanceStatus.{
  AttendanceStatus, attendance_transitions, active_attendance_statuses,
}
use guardtrak_api.Database.{Db, Attendance}
use guardtrak_api.Environment.{Environment, Call}
use guardtrak_api.Attendance.Lookup.{write_attendance, is_attendance}
use guardtrak_api.Attendance.Review.{request_review, approve, reject}
use guardtrak_api.Attendance.Review.Outcomes.{Changed, review-Changed, request_review-Changed}

module _ (user : RequestUser) (now id : ℕ) (next : AttendanceStatus) (db : Db) (result : Attendance)
    (db' : Db) (c : Changed user now id next db result db') where
  fits : is_attendance c.organisation_id id result ≡ true
  fits =
      let h =
        find_first-holds (is_attendance c.organisation_id id) db.attendances c.attendance c.found in
      let i = c.same_id in let o = c.same_organisation in let d = c.same_deleted in ground arith

  same_row :
      (r : Attendance) → is_attendance c.organisation_id id r ≡ true → (r.id == result.id) ≡ true
  same_row r h = let f = fits in ground arith

  -- The row that a handler has written is found by the requests after it.
  pub found_after : find_first (is_attendance c.organisation_id id) db'.attendances ≡ some result
  unfolding write_attendance
  found_after = rw c.written (
      find_first-update_where (is_attendance c.organisation_id id) (λ a. a.id == result.id) same_row
        result db.attendances c.attendance fits c.found)

  -- So the next handler starts from the status that this one has set.
  pub status_after :
      {user' : RequestUser} {now' : ℕ} {next' : AttendanceStatus} {db'' : Db} {result' : Attendance}
      → user'.organisation_id ≡ user.organisation_id
      → Changed user' now' id next' db' result' db''
      → attendance_transitions next next' ≡ true
  status_after {user'} {next'} same c' =
      let o : c'.organisation_id ≡ c.organisation_id =
        let t = c.tenant in let t' = c'.tenant in ground arith in
      let f = rw o at c'.found in
      let g = found_after in
      let s = c.status in
      let a = c'.allowed in let e : c'.attendance ≡ result = ground arith in rw (← s, ← e) a

module _ (env : Environment) where
  -- A rejected attendance is not approved, rejected or sent to review by the next request, of any
  -- user of the organisation and at any time.
  pub rejection_is_final :
      (call call' : Call) (user user' : RequestUser) (id : ℕ) (reason reason' : String)
      (db db' db'' : Db) (result result' : Attendance)
      → reject env call user id reason db ≡ ok (result, db')
      → user'.organisation_id ≡ user.organisation_id
      → (approve env call' user' id reason' db' ≢ ok (result', db''))
        × (reject env call' user' id reason' db' ≢ ok (result', db''))
        × (request_review env call' user' id reason' db' ≢ ok (result', db''))
  unfolding approve reject attendance_transitions
  rejection_is_final call call' user user' id reason reason' db db' db'' result result' h same =
      let c = review-Changed env call user id reason _ _ db result db' h in
      (
        λ p.
            let c' = review-Changed env call' user' id reason' _ _ db' result' db'' p in
            let q = status_after user call.now id _ db result db' c same c' in cc,
        λ p.
            let c' = review-Changed env call' user' id reason' _ _ db' result' db'' p in
            let q = status_after user call.now id _ db result db' c same c' in cc,
        λ p.
            let c' = request_review-Changed env call' user' id reason' db' result' db'' p in
            let q = status_after user call.now id _ db result db' c same c' in cc,
      )

  -- An approval that succeeds always makes the attendance count as active, also one that has been
  -- clocked out: its status is one on which breaks can start, and from which it can be clocked out.
  pub approval_reactivates :
      (call : Call) (user : RequestUser) (id : ℕ) (reason : String) (db db' : Db)
      (result : Attendance)
      → approve env call user id reason db ≡ ok (result, db')
      → (active_attendance_statuses result.status ≡ true)
        × (attendance_transitions result.status AttendanceStatus.clocked_out ≡ true)
  unfolding approve active_attendance_statuses attendance_transitions
  approval_reactivates call user id reason db db' result h =
      let c = review-Changed env call user id reason _ _ db result db' h in
      let s = c.status in (rw s, rw s)
