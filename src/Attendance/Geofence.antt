-- ===== src/Attendance/Geofence.antt =====
-- modules/attendance/geofence.service.ts, without `distanceMeters` (trigonometry on floats). Distances
-- are numbers of one fine unit, coordinates are integers of 10⁻⁷ degrees.
pub mod Policy
use Prim.Native.String.{String}
use guardtrak_api.Prelude.{ℕ, Bool, true, false, not, ◌||◌, Option, none, some, ltb, if◌then◌else◌}
use guardtrak_api.Prelude.Int.{ℤ, pos, negsuc, ltb_ℤ, JsNumber, fin, non_finite}
use guardtrak_api.Errors.{Result, ok, throw, ensure, bad_request_400, site_coordinates_invalid}
use guardtrak_api.Text.{is_empty}

pub data GeofencePolicy : Type 0 where
  block allow_with_reason require_supervisor_approval : GeofencePolicy

pub record GeofenceEvaluationInput : Type 0 where
  pub distance_meters : ℕ
  pub radius_meters : ℕ
  pub policy : GeofencePolicy
  pub reason : Option String

pub record GeofenceEvaluationResult : Type 0 where
  pub allowed : Bool
  pub requires_review : Bool
  pub outside : Bool

-- Neither below `low` nor above `high`; NaN and the infinities are refused.
within : ℤ → ℤ → JsNumber → Bool
within low high non_finite = false
within low high (fin x) = not (ltb_ℤ x low || ltb_ℤ high x)

unfoldable pub validate_coordinates : JsNumber → JsNumber → Result (Unit {0})
unfolding within
validate_coordinates latitude longitude =
    if within (negsuc 899999999) (pos 900000000) latitude
    then ensure (within (negsuc 1799999999) (pos 1800000000) longitude) bad_request_400
        site_coordinates_invalid
    else throw bad_request_400 site_coordinates_invalid

module _ (trim : String → String) where
  -- `typeof reason === 'string' && reason.trim().length > 0`
  unfoldable pub has_reason : Option String → Bool
  has_reason none = false
  has_reason (some reason) = not (is_empty (trim reason))

  outside_result : GeofencePolicy → Option String → GeofenceEvaluationResult
  unfolding has_reason
  outside_result block reason = record { allowed = false; requires_review = false; outside = true }
  outside_result allow_with_reason reason = record {
    allowed = has_reason reason;
    requires_review = has_reason reason;
    outside = true;
  }
  outside_result require_supervisor_approval reason = record {
    allowed = true;
    requires_review = true;
    outside = true;
  }

  unfoldable pub evaluate_geofence : GeofenceEvaluationInput → GeofenceEvaluationResult
  unfolding outside_result
  evaluate_geofence input =
      if ltb input.radius_meters input.distance_meters
      then outside_result input.policy input.reason
      else record { allowed = true; requires_review = false; outside = false }

unfoldable pub apply_enforcement : Bool → GeofenceEvaluationResult → GeofenceEvaluationResult
apply_enforcement false evaluation = record evaluation { allowed = true; requires_review = false }
apply_enforcement true evaluation = evaluation
