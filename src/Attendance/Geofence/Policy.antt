-- ===== src/Attendance/Geofence/Policy.antt =====
-- When a position is accepted, and when it is left to a supervisor.
use Prim.Native.String.{String}
use guardtrak_api.Prelude.{◌≤◌, ◌<◌, true, false, ◌≡◌, ◌↔◌, ◌⊎◌, arith}
use guardtrak_api.Attendance.Geofence.{
  allow_with_reason, require_supervisor_approval, GeofenceEvaluationInput, has_reason,
  evaluate_geofence, apply_enforcement,
}

module _ (trim : String → String) (input : GeofenceEvaluationInput) where
  open input use {distance_meters, radius_meters, policy, reason}

  -- When a position is accepted: inside the radius, or by a policy that asks for approval, or by one
  -- that asks for a reason, when one is given.
  abbrev pub IsAccepted : Type 0
  IsAccepted =
      (distance_meters ≤ radius_meters)
      ⊎ (policy ≡ require_supervisor_approval)
      ⊎ ((policy ≡ allow_with_reason) × (has_reason trim reason ≡ true))

  -- A position is allowed exactly if it is inside the radius, or the policy asks for approval, or
  -- it asks for a reason and one is given.
  pub allowed_iff : ((evaluate_geofence trim input).allowed ≡ true) ↔ IsAccepted
  unfolding evaluate_geofence has_reason
  allowed_iff = ground arith

  -- A position is sent to review exactly if it is allowed and outside the radius.
  pub review_iff :
      ((evaluate_geofence trim input).requires_review ≡ true)
      ↔ (((evaluate_geofence trim input).allowed ≡ true) × (radius_meters < distance_meters))
  unfolding evaluate_geofence has_reason
  review_iff = ground arith

  -- With enforcement switched off every position is allowed and none is reviewed, but whether it is
  -- outside is still recorded.
  pub enforcement_off :
      let r = apply_enforcement false (evaluate_geofence trim input) in
      (r.allowed ≡ true)
      × (r.requires_review ≡ false)
      × ((r.outside ≡ true) ↔ (radius_meters < distance_meters))
  unfolding evaluate_geofence apply_enforcement
  enforcement_off = ground arith
