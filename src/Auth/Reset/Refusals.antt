-- ===== src/Auth/Reset/Refusals.antt =====
-- A run of reset codes that `verifyOtp` refuses, and the codes after it.
use guardtrak_api.Prelude.{
  ℕ, suc, ◌-◌, ◌≤◌, true, false, ◌≡◌, ◌≢◌, refl, ◌∙◌, ap, ◌⊎◌, arith, some, List, [], ◌∷◌, is_some,
  find_first, All, All-weaken, Bool-cases, inl, inr,
}
use guardtrak_api.Errors.{
  ok, err, throw, AppException, Result-cases, conflict_409, conflict, bad_request_400,
  auth_reset_code_invalid,
}
use guardtrak_api.Auth.Tables.{AuthDb, AuthCall, AuthEnvironment, User, PasswordResetToken}
use guardtrak_api.Auth.Login.{resolve_login_user}
use guardtrak_api.Auth.Reset.{
  max_attempts, check_code, is_token, exchange, exchange_code, register_invalid_otp_attempt, is_429,
  refuse_code, verify_otp,
}
use guardtrak_api.Auth.Reset.Guesses.{OneCode, Tried, register-keeps, exceeded-Tried, Tried-refused}

-- So many calls of `verifyOtp` for one account, one after the other, that were all refused.
pub data Refusals (env : AuthEnvironment) (code number : ℕ) (db : AuthDb)
    : ℕ → AuthDb → Type 0 where
  none_yet : Refusals env code number db 0 db
  one_more :
      {n : ℕ} {db' : AuthDb} (call : AuthCall) (otp : ℕ) (thrown : AppException)
      → Refusals env code number db n db'
      → (verify_otp env call code number otp db').0 ≡ err thrown
      → Refusals env code number db (suc n) (verify_otp env call code number otp db').1

module _ (env : AuthEnvironment) (user : User) where
  -- The open codes of the user, tried so often.
  abbrev Counted : ℕ → AuthDb → Type 0
  Counted left db =
      OneCode user.id db.reset_tokens × All (Tried user.id (max_attempts env) left) db.reset_tokens

  refuse-counts :
      (now left : ℕ) (thrown : AppException) (db : AuthDb)
      → is_429 thrown.status ≡ false
      → Counted (suc left) db
      → Counted left (refuse_code env now user thrown db).1
  unfolding refuse_code
  refuse-counts now left thrown db e c =
      rw (e, refuse_code) (register-keeps env now user.id left db c.0 c.1)

  less_left :
      (left : ℕ) (tokens : List PasswordResetToken)
      → All (Tried user.id (max_attempts env) 0) tokens
      → All (Tried user.id (max_attempts env) left) tokens
  less_left left tokens h =
      All-weaken (Tried user.id (max_attempts env) 0) (Tried user.id (max_attempts env) left)
        (λ t f o. let g = f o in omega arith) tokens h

  refuse-keeps :
      (now left : ℕ) (thrown : AppException) (db : AuthDb)
      → (is_429 thrown.status ≡ true → All (Tried user.id (max_attempts env) 0) db.reset_tokens)
      → Counted (suc left) db
      → Counted left (refuse_code env now user thrown db).1
  unfolding refuse_code
  refuse-keeps now left thrown db tried c = elim (Bool-cases (is_429 thrown.status)) [
    | inr e ↦ refuse-counts now left thrown db e c
    | inl e ↦ rw (e, refuse_code) (c.0, less_left left db.reset_tokens (tried e))
  ]

  module _ (call : AuthCall) (code number otp : ℕ) (db : AuthDb)
      (r : resolve_login_user env code number db ≡ some user) where
    refused_as :
        (thrown : AppException)
        → exchange_code env call user otp db ≡ (err thrown, db)
        → verify_otp env call code number otp db ≡ refuse_code env call.now user thrown db
    unfolding verify_otp
    refused_as thrown x = rw (r, verify_otp, x, x) refl

    accepted_as :
        (token : ℕ)
        → (exchange_code env call user otp db).0 ≡ ok token
        → (verify_otp env call code number otp db).0 ≡ ok token
    unfolding verify_otp
    accepted_as token x = rw (r, verify_otp, x) x

    -- How a call ends: with the code refused for a reason, or with a code that passes its checks.
    verify-ends :
        ((t : AppException) × (verify_otp env call code number otp db
            ≡ refuse_code env call.now user t db)
          × (is_429 t.status ≡ true → check_code env call.now user otp db ≡ err t))
        ⊎ ((row : PasswordResetToken) × (check_code env call.now user otp db ≡ ok row)
            × ((verify_otp env call code number otp db).0 ≡ ok call.new_token))
    unfolding exchange_code exchange
    verify-ends = elim (Result-cases (check_code env call.now user otp db)) [
      | inr (t, e) ↦ inl (t, refused_as t (rw (e, exchange_code) refl), λ f. e)
      | inl (row, e) ↦
          elim (Bool-cases (
            is_some
              (find_first (is_token (env.hash_opaque_token call.new_token)) db.reset_tokens))) [
                | inl f ↦
                    let taken : AppException = record {
                      status = conflict_409;
                      error_code = conflict;
                    } in
                    inl (taken, refused_as taken (rw (e, f, exchange_code, exchange) refl), λ g. cc)
                | inr f ↦
                    inr
                      (row, e, accepted_as call.new_token (rw (e, f, exchange_code, exchange) refl))
              ]
    ]

    -- A refused call counts.
    refused-Counted :
        (left : ℕ) (thrown : AppException)
        → (verify_otp env call code number otp db).0 ≡ err thrown
        → Counted (suc left) db
        → Counted left (verify_otp env call code number otp db).1
    refused-Counted left thrown h c = elim verify-ends [
      | inl (t, x, g) ↦ rw (x) (
          refuse-keeps call.now left t db
            (λ e. exceeded-Tried env call.now user otp db t (g e) e c.0) c)
      | inr (row, e, x) ↦ let y : ok call.new_token ≡ err thrown = rw (x) at h in cc
    ]

-- A wrong code leaves users and organisations as they are.
invalid-accounts :
    (env : AuthEnvironment) (now user_id : ℕ) (db : AuthDb)
    → ((register_invalid_otp_attempt env now user_id db).1.users ≡ db.users)
      × ((register_invalid_otp_attempt env now user_id db).1.organisations ≡ db.organisations)
unfolding register_invalid_otp_attempt
invalid-accounts env now user_id db = (ground arith, ground arith)

refuse-accounts :
    (env : AuthEnvironment) (now : ℕ) (user : User) (thrown : AppException) (db : AuthDb)
    → ((refuse_code env now user thrown db).1.users ≡ db.users)
      × ((refuse_code env now user thrown db).1.organisations ≡ db.organisations)
unfolding refuse_code
refuse-accounts env now user thrown db =
    let i = invalid-accounts env now user.id db in
    let i0 = i.0 in let i1 = i.1 in (ground arith, ground arith)

refuse-resolves :
    (env : AuthEnvironment) (now code number : ℕ) (user : User) (thrown : AppException)
    (db : AuthDb)
    → resolve_login_user env code number (refuse_code env now user thrown db).1
      ≡ resolve_login_user env code number db
unfolding resolve_login_user
refuse-resolves env now code number user thrown db =
    let a = refuse-accounts env now user thrown db in
    ap
      (λ us.
        resolve_login_user env code number
          (record (refuse_code env now user thrown db).1 { users = us }))
      a.0
    ∙ ap (λ os. resolve_login_user env code number (record db { organisations = os })) a.1

verify-resolves :
    (env : AuthEnvironment) (call : AuthCall) (code number otp : ℕ) (db : AuthDb) (user : User)
    (thrown : AppException)
    → resolve_login_user env code number db ≡ some user
    → (verify_otp env call code number otp db).0 ≡ err thrown
    → resolve_login_user env code number (verify_otp env call code number otp db).1 ≡ some user
verify-resolves env call code number otp db user thrown r h =
    elim (verify-ends env user call code number otp db r) [
      | inl (t, x, g) ↦ rw (x) (refuse-resolves env call.now code number user t db ∙ r)
      | inr (row, e, x) ↦ let y : ok call.new_token ≡ err thrown = rw (x) at h in cc
    ]

none_left : (max : ℕ) (n : ℕ) → max ≤ n → max - n ≡ 0
none_left max n h = omega arith

fresh_tries :
    (user_id max : ℕ) (tokens : List PasswordResetToken) → All (Tried user_id max (max - 0)) tokens
fresh_tries user_id max [] = tt
fresh_tries user_id max (t ∷ tokens) = ((λ o. omega arith), fresh_tries user_id max tokens)

Refusals-Counted :
    {env : AuthEnvironment} {code number : ℕ} {db : AuthDb} {n : ℕ} {db' : AuthDb} (user : User)
    → Refusals env code number db n db'
    → resolve_login_user env code number db ≡ some user
    → OneCode user.id db.reset_tokens
    → (resolve_login_user env code number db' ≡ some user)
      × Counted env user (max_attempts env - n) db'
Refusals-Counted {env} {db} user none_yet r v =
    (r, (v, fresh_tries user.id (max_attempts env) db.reset_tokens))
Refusals-Counted {env} {code} {number} user (one_more {n} {db'} call otp thrown q h) r v =
    let (r', c) = Refusals-Counted user q r v in
    let more =
      All-weaken (Tried user.id (max_attempts env) (max_attempts env - n))
        (Tried user.id (max_attempts env) (suc (max_attempts env - suc n)))
        (λ t f o. let g = f o in omega arith) db'.reset_tokens c.1 in
    (
      verify-resolves env call code number otp db' user thrown r' h,
      refused-Counted env user call code number otp db' r' (max_attempts env - suc n) thrown h
          (c.0, more),
    )

refuse-throws :
    (env : AuthEnvironment) (now token : ℕ) (user : User) (thrown : AppException) (db : AuthDb)
    → (refuse_code env now user thrown db).0 ≢ ok token
unfolding refuse_code
refuse-throws env now token user thrown db = λ h. elim (Bool-cases (is_429 thrown.status)) [
  | inl e ↦ let y : err thrown ≡ ok token = rw (e, refuse_code) at h in cc
  | inr e ↦ elim (Result-cases (register_invalid_otp_attempt env now user.id db).0) [
    | inl (checked, f) ↦
        let y : throw bad_request_400 auth_reset_code_invalid ≡ ok token =
          rw (e, f, refuse_code) at h in
        cc
    | inr (t, f) ↦ let y : err t ≡ ok token = rw (e, f, refuse_code) at h in cc
  ]
]

accepted-checked :
    (env : AuthEnvironment) (call : AuthCall) (code number otp token : ℕ) (db : AuthDb)
    (user : User)
    → resolve_login_user env code number db ≡ some user
    → (verify_otp env call code number otp db).0 ≡ ok token
    → (row : PasswordResetToken) × (check_code env call.now user otp db ≡ ok row)
accepted-checked env call code number otp token db user r h =
    elim (verify-ends env user call code number otp db r) [
      | inl (t, x, g) ↦ absurd (refuse-throws env call.now token user t db (rw (x) at h))
      | inr (row, e, x) ↦ (row, e)
    ]

-- After as many calls of verifyOtp for one account in a row that were all refused as the settings
-- allow attempts, no further call is accepted, at any time and with any code, the right one
-- included, if the account is there, reset tokens have distinct identifiers and the user has at
-- most one open code.
pub guesses_bounded :
    (env : AuthEnvironment) (code number n : ℕ) (db db' : AuthDb) (user : User) (call : AuthCall)
    (otp token : ℕ)
    → resolve_login_user env code number db ≡ some user
    → OneCode user.id db.reset_tokens
    → Refusals env code number db n db'
    → max_attempts env ≤ n
    → (verify_otp env call code number otp db').0 ≢ ok token
guesses_bounded env code number n db db' user call otp token r v q enough = λ h.
    let (r', c) = Refusals-Counted user q r v in
    let (row, e) = accepted-checked env call code number otp token db' user r' h in
    let none = none_left (max_attempts env) n enough in
    Tried-refused env call.now user otp db' row (rw (none) at c.1) e
