-- ===== src/Auth/Reset/Guesses.antt =====
-- Wrong reset codes, and the right code after them.
use guardtrak_api.Prelude.{
  ℕ, suc, ◌+◌, ◌≤◌, Bool, true, false, ◌≡◌, ◌≢◌, refl, arith, some, List, ◌==◌, is_some, leb, total,
  indicator, find_first, find_first-holds, find_first-All, find_first-by_key, find_first-none-All,
  update_where, total-update_where, only_row, All, All-weaken, All-update_where, Option-cases, inl,
  inr, not,
}
use guardtrak_api.Errors.{
  AppException, err, ok, throw, check_ok, bad_request_400, too_many_requests_429,
  auth_reset_code_invalid, auth_reset_code_expired, auth_reset_code_attempts_exceeded,
}
use guardtrak_api.Auth.Tables.{AuthDb, AuthEnvironment, User, PasswordResetToken}
use guardtrak_api.Auth.Reset.{
  is_open_otp, is_code, max_attempts, check_code, count_attempt, register_invalid_otp_attempt,
  is_429,
}

abbrev pub has_reset_id : ℕ → PasswordResetToken → Bool
has_reset_id id t = t.id == id

-- Reset tokens have distinct identifiers, and a user has at most one open code.
pub record OneCode (user_id : ℕ) (tokens : List PasswordResetToken) : Type 0 where
  pub distinct : (i : ℕ) → total (indicator (has_reset_id i)) tokens ≤ 1
  pub one_open : total (indicator (is_open_otp user_id)) tokens ≤ 1

-- Open codes have been tried often enough, or nearly.
abbrev pub Tried : ℕ → ℕ → ℕ → PasswordResetToken → Type 0
Tried user_id max left t = is_open_otp user_id t ≡ true → max ≤ left + t.attempts

module _ (env : AuthEnvironment) (now user_id : ℕ) (db : AuthDb) (latest : PasswordResetToken)
    (found : find_first (is_open_otp user_id) db.reset_tokens ≡ some latest)
    (v : OneCode user_id db.reset_tokens) where
  counted : List PasswordResetToken
  counted =
      update_where (λ t. t.id == latest.id) (λ t. count_attempt env now latest) db.reset_tokens

  by_id : find_first (has_reset_id latest.id) db.reset_tokens ≡ some latest
  by_id =
      find_first-by_key (is_open_otp user_id) (has_reset_id latest.id) db.reset_tokens latest
        (v.distinct latest.id) found (ground arith)

  counted-OneCode : OneCode user_id counted
  unfolding counted count_attempt
  counted-OneCode = record {
    distinct = λ i.
        let t =
          total-update_where (indicator (has_reset_id i)) (has_reset_id latest.id)
            (λ t. count_attempt env now latest) db.reset_tokens latest (v.distinct latest.id)
            by_id in
        let u = v.distinct i in ground arith;
    one_open =
        let t =
          total-update_where (indicator (is_open_otp user_id)) (has_reset_id latest.id)
            (λ t. count_attempt env now latest) db.reset_tokens latest (v.distinct latest.id)
            by_id in
        let u = v.one_open in
        let o = find_first-holds (is_open_otp user_id) db.reset_tokens latest found in ground arith;
  }

  counted-Tried :
      (left : ℕ)
      → All (Tried user_id (max_attempts env) (suc left)) db.reset_tokens
      → All (Tried user_id (max_attempts env) left) counted
  unfolding counted count_attempt
  counted-Tried left h =
      let m = max_attempts env in
      let open_ = find_first-holds (is_open_otp user_id) db.reset_tokens latest found in
      let l =
        find_first-All (Tried user_id m (suc left)) (is_open_otp user_id) db.reset_tokens latest h
          found open_ in
      All-update_where (λ t. is_open_otp user_id t ≡ true → t ≡ latest) (Tried user_id m left)
        (λ t. t.id == latest.id) (λ t. count_attempt env now latest) (λ t only hit o. omega arith)
        (λ t only miss o.
          let same = only o in let c : t.id ≡ latest.id = rw same refl in absurd (ground arith))
        db.reset_tokens (only_row (is_open_otp user_id) db.reset_tokens latest v.one_open found)

-- What a wrong code keeps and what it uses up.
pub register-keeps :
    (env : AuthEnvironment) (now user_id left : ℕ) (db : AuthDb)
    → OneCode user_id db.reset_tokens
    → All (Tried user_id (max_attempts env) (suc left)) db.reset_tokens
    → OneCode user_id (register_invalid_otp_attempt env now user_id db).1.reset_tokens
      × All
          (Tried user_id (max_attempts env) left)
          (register_invalid_otp_attempt env now user_id db).1.reset_tokens
unfolding register_invalid_otp_attempt counted
register-keeps env now user_id left db v h =
    elim (Option-cases (find_first (is_open_otp user_id) db.reset_tokens)) [
      | inl e ↦
          rw (e, register_invalid_otp_attempt)
            (
              v,
              All-weaken (λ t. is_open_otp user_id t ≡ false)
                  (Tried user_id (max_attempts env) left) (λ t m o. cc) db.reset_tokens
                  (find_first-none-All (is_open_otp user_id) db.reset_tokens e),
            )
      | inr (latest, e) ↦
          rw (e, register_invalid_otp_attempt)
            (
              counted-OneCode env now user_id db latest e v,
              counted-Tried env now user_id db latest e v left h,
            )
    ]

code-open :
    (user_id h : ℕ) (t : PasswordResetToken)
    → is_code user_id h t ≡ true
    → is_some t.consumed_at ≡ false
    → is_open_otp user_id t ≡ true
code-open user_id h t e f = ground arith

-- Codes that have been tried often enough are refused.
pub Tried-refused :
    (env : AuthEnvironment) (now : ℕ) (user : User) (otp : ℕ) (db : AuthDb)
    (row : PasswordResetToken)
    → All (Tried user.id (max_attempts env) 0) db.reset_tokens
    → check_code env now user otp db ≢ ok row
unfolding check_code
Tried-refused env now user otp db row h =
    let hash = env.hash_opaque_token otp in
    elim (Option-cases (find_first (is_code user.id hash) db.reset_tokens)) [
      | inl e ↦ λ g.
          let c : throw bad_request_400 auth_reset_code_invalid ≡ ok row =
            rw (e, check_code) at g in
          cc
      | inr (t, e) ↦ λ g.
          let g1 = rw (e, check_code) at g in
          let (a, g2) =
            check_ok (not (is_some t.consumed_at)) bad_request_400 auth_reset_code_invalid _ g1 in
          let (b, g3) =
            check_ok (leb now t.expires_at) bad_request_400 auth_reset_code_expired _ g2 in
          let (c, g4) =
            check_ok (not (leb (max_attempts env) t.attempts)) too_many_requests_429
              auth_reset_code_attempts_exceeded _ g3 in
          let fits = find_first-holds (is_code user.id hash) db.reset_tokens t e in
          let enough =
            find_first-All (Tried user.id (max_attempts env) 0) (is_code user.id hash)
              db.reset_tokens t h e (code-open user.id hash t fits (ground arith)) in
          absurd (ground arith)
    ]

-- A code that is refused for its attempts shows that open codes have been tried often enough.
pub exceeded-Tried :
    (env : AuthEnvironment) (now : ℕ) (user : User) (otp : ℕ) (db : AuthDb) (thrown : AppException)
    → check_code env now user otp db ≡ err thrown
    → is_429 thrown.status ≡ true
    → OneCode user.id db.reset_tokens
    → All (Tried user.id (max_attempts env) 0) db.reset_tokens
unfolding check_code
exceeded-Tried env now user otp db thrown h e v =
    let hash = env.hash_opaque_token otp in
    elim (Option-cases (find_first (is_code user.id hash) db.reset_tokens)) [
      | inl f ↦ let c = rw (f, check_code) at h in absurd (ground arith)
      | inr (t, f) ↦
          let c = rw (f, check_code) at h in
          let unused : is_some t.consumed_at ≡ false = ground arith in
          let tried : leb (max_attempts env) t.attempts ≡ true = ground arith in
          let fits = find_first-holds (is_code user.id hash) db.reset_tokens t f in
          let open_ = code-open user.id hash t fits unused in
          All-weaken (λ r. is_open_otp user.id r ≡ true → r ≡ t)
            (Tried user.id (max_attempts env) 0) (λ r only o. rw (only o) (ground arith))
            db.reset_tokens
            (only_row (is_open_otp user.id) db.reset_tokens t v.one_open (
              find_first-by_key (is_code user.id hash) (is_open_otp user.id) db.reset_tokens t
                v.one_open f open_))
    ]
