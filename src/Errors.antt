-- ===== src/Errors.antt =====
-- common/exceptions/app.exception.ts and common/constants/error-codes.ts: a thrown `AppException` is
-- a value. It keeps the HTTP status and the error code; messages and field details are left out.
use guardtrak_api.Prelude.{Bool, true, false, ◌≡◌, refl, ◌⊎◌, inl, inr}

pub data ErrorCode : Type 0 where
  bad_request validation_error : ErrorCode
  auth_organisation_required auth_insufficient_permission : ErrorCode
  tenant_resource_not_found device_not_active device_status_transition_invalid : ErrorCode
  device_not_found device_access_forbidden : ErrorCode
  site_coordinates_invalid shift_time_range_invalid shift_duration_invalid : ErrorCode
  shift_status_transition_invalid assignment_status_transition_invalid : ErrorCode
  attendance_not_found attendance_not_active attendance_review_forbidden : ErrorCode
  attendance_status_transition_invalid attendance_device_time_invalid : ErrorCode
  break_not_found break_not_active break_already_active break_access_forbidden : ErrorCode
  break_status_transition_invalid conflict : ErrorCode
  assignment_access_forbidden resource_not_found internal_error : ErrorCode
  assignment_shift_invalid shift_site_inactive shift_not_found officer_not_found : ErrorCode
  assignment_officer_inactive assignment_supervisor_invalid assignment_duplicate : ErrorCode
  assignment_time_conflict : ErrorCode
  auth_invalid_credentials auth_account_inactive auth_account_locked auth_token_invalid : ErrorCode
  auth_token_expired auth_refresh_reused auth_fingerprint_mismatch auth_device_blocked : ErrorCode
  auth_device_pending auth_session_revoked auth_reset_code_invalid : ErrorCode
  auth_reset_code_expired auth_reset_code_attempts_exceeded auth_reset_token_invalid : ErrorCode
  auth_password_policy_failed auth_password_reuse auth_current_password_invalid : ErrorCode
  assignment_not_found assignment_not_current attendance_already_exists : ErrorCode
  attendance_clock_in_too_early attendance_shift_ended attendance_outside_geofence : ErrorCode
  attendance_reason_required attendance_gps_accuracy_too_low : ErrorCode
  attendance_evidence_required attendance_active_break_exists : ErrorCode
  attendance_final_note_required : ErrorCode
  patrol_route_status_invalid patrol_assignment_status_invalid : ErrorCode
  incident_status_transition_invalid emergency_status_transition_invalid : ErrorCode
  idempotency_operation_in_progress : ErrorCode
  idempotency_key_reused_with_different_payload : ErrorCode

-- `HttpStatus.BAD_REQUEST` and so on.
pub data HttpStatus : Type 0 where
  bad_request_400 unauthorized_401 forbidden_403 not_found_404 conflict_409 : HttpStatus
  locked_423 too_many_requests_429 internal_error_500 : HttpStatus

pub record AppException : Type 0 where
  pub status : HttpStatus
  pub error_code : ErrorCode

-- What a handler answers: a value, or the exception that it throws.
pub data Result {ℓ} (Answer : Type ℓ) : Type ℓ where
  ok : Answer → Result Answer
  err : AppException → Result Answer

abbrev pub throw {ℓ} : {Answer : Type ℓ} → HttpStatus → ErrorCode → Result Answer
throw s c = err (record { status = s; error_code = c })

-- `if (!holds) throw new AppException(…)`
abbrev pub ensure : Bool → HttpStatus → ErrorCode → Result (Unit {0})
ensure true s c = ok tt
ensure false s c = throw s c

-- `await`: what follows a step goes on with its value, and is skipped when the step throws.
infixl 5 ◌>>=◌
abbrev pub ◌>>=◌ {ℓ ℓ'} :
    {Found : Type ℓ} {Answer : Type ℓ'} → Result Found → (Found → Result Answer) → Result Answer
err thrown >>= next_step = err thrown
ok found >>= next_step = next_step found

-- A step that only checks.
infixl 5 ◌>>◌
abbrev pub ◌>>◌ {ℓ} : {Answer : Type ℓ} → Result (Unit {0}) → Result Answer → Result Answer
err thrown >> after = err thrown
ok checked >> after = after

-- A sequence that succeeds has succeeded at each of its steps.
pub step_ok {ℓ ℓ'} :
    {Found : Type ℓ} {Answer : Type ℓ'} (found : Result Found) (next_step : Found → Result Answer)
    {answer : Answer}
    → (found >>= next_step) ≡ ok answer
    → (a : Found) × (found ≡ ok a) × (next_step a ≡ ok answer)
step_ok (err thrown) next_step h = cc
step_ok (ok a) next_step h = (a, refl, h)

pub check_ok {ℓ} :
    {Answer : Type ℓ} (holds : Bool) (s : HttpStatus) (c : ErrorCode) (after : Result Answer)
    {answer : Answer}
    → (ensure holds s c >> after) ≡ ok answer
    → (holds ≡ true) × (after ≡ ok answer)
check_ok true s c after h = (refl, h)
check_ok false s c after h = cc

pub then_ok {ℓ} :
    {Answer : Type ℓ} (checked : Result (Unit {0})) (after : Result Answer) {answer : Answer}
    → (checked >> after) ≡ ok answer
    → (checked ≡ ok tt) × (after ≡ ok answer)
then_ok (err thrown) after h = cc
then_ok (ok tt) after h = (refl, h)

pub ok_eq {ℓ} : {Answer : Type ℓ} {a b : Answer} → ok a ≡ ok b → a ≡ b
ok_eq h = cc

pub ensure-eq-ok :
    (b : Bool) (s : HttpStatus) (c : ErrorCode) {u : Unit {0}} → ensure b s c ≡ ok u → b ≡ true
ensure-eq-ok true s c h = refl
ensure-eq-ok false s c h = cc

pub Result-cases {ℓ} :
    {A : Type ℓ} (m : Result A) → ((a : A) × (m ≡ ok a)) ⊎ ((e : AppException) × (m ≡ err e))
Result-cases (ok a) = inl (a, refl)
Result-cases (err e) = inr (e, refl)

-- Steps that go on in the same way.
pub bind_same {ℓ ℓ'} :
    {Found : Type ℓ} {Answer : Type ℓ'} (found : Result Found) {f g : Found → Result Answer}
    → ((a : Found) → f a ≡ g a)
    → (found >>= f) ≡ (found >>= g)
bind_same (err thrown) h = refl
bind_same (ok a) h = h a

pub then_same {ℓ} :
    {Answer : Type ℓ} (checked : Result (Unit {0})) {f g : Result Answer}
    → f ≡ g
    → (checked >> f) ≡ (checked >> g)
then_same (err thrown) h = refl
then_same (ok tt) h = h
