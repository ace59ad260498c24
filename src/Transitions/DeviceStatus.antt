-- ===== src/Transitions/DeviceStatus.antt =====
-- modules/devices/devices-transitions.util.ts
pub mod Laws
use guardtrak_api.Prelude.{Bool, true, false, ◌||◌, List, [], ◌∷◌, if◌then◌else◌}
use guardtrak_api.Errors.{
  Result, ok, throw, ensure, bad_request_400, device_status_transition_invalid,
}

pub data DeviceStatus : Type 0 where
  pending active revoked blocked : DeviceStatus

-- `a === b`
unfoldable pub same : DeviceStatus → DeviceStatus → Bool
same pending pending = true
same active active = true
same revoked revoked = true
same blocked blocked = true
same _ _ = false

-- `ALLOWED_TRANSITIONS`
unfoldable pub allowed_transitions : DeviceStatus → List DeviceStatus
allowed_transitions pending = active ∷ blocked ∷ []
allowed_transitions active = revoked ∷ blocked ∷ []
allowed_transitions revoked = active ∷ []
allowed_transitions blocked = active ∷ []

-- `allowed.includes(next)`
includes : List DeviceStatus → DeviceStatus → Bool
includes [] next = false
includes (s ∷ allowed) next = same s next || includes allowed next

unfoldable pub assert_device_transition_allowed : DeviceStatus → DeviceStatus → Result (Unit {0})
unfolding allowed_transitions includes same
assert_device_transition_allowed current next =
    ensure (includes (allowed_transitions current) next) bad_request_400
      device_status_transition_invalid

-- The permissions that a transition can ask for: `device:approve` and so on.
pub data DevicePermission : Type 0 where
  device_approve device_unblock device_revoke device_block : DevicePermission

-- The tests after `next === ACTIVE` has failed or fallen through.
leaving : DeviceStatus → Result DevicePermission
unfolding same
leaving next =
    if same next revoked
    then ok device_revoke
    else if same next blocked
    then ok device_block
    else throw bad_request_400 device_status_transition_invalid

unfoldable pub required_permission_for_transition :
    DeviceStatus → DeviceStatus → Result DevicePermission
unfolding leaving same
required_permission_for_transition current next =
    if same next active
    then (if same current pending || same current revoked
        then ok device_approve
        else if same current blocked
        then ok device_unblock
        else leaving next)
    else leaving next

unfoldable pub should_revoke_sessions : DeviceStatus → Bool
unfolding same
should_revoke_sessions status = same status revoked || same status blocked

unfoldable pub is_activation_transition : DeviceStatus → Bool
unfolding same
is_activation_transition next = same next active
