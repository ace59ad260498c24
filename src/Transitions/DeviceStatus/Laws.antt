-- ===== src/Transitions/DeviceStatus/Laws.antt =====
-- The device table against the permissions that its transitions ask for.
use guardtrak_api.Prelude.{true, ◌≡◌, refl, ◌↔◌, ◌⊎◌, arith}
use guardtrak_api.Errors.{ok}
use guardtrak_api.Transitions.DeviceStatus.{
  DeviceStatus, pending, active, revoked, blocked, assert_device_transition_allowed,
  required_permission_for_transition, is_activation_transition, should_revoke_sessions,
  DevicePermission, device_approve, device_unblock, device_revoke, device_block,
}

-- Every allowed transition of a device has a permission; it is that of approving or unblocking
-- exactly when the device becomes active, and that of revoking or blocking exactly when its
-- sessions are revoked.
pub allowed_has_permission :
    (current next : DeviceStatus)
    → assert_device_transition_allowed current next ≡ ok tt
    → (p : DevicePermission) × (required_permission_for_transition current next ≡ ok p)
      × ((is_activation_transition next ≡ true) ↔ ((p ≡ device_approve) ⊎ (p ≡ device_unblock)))
      × ((should_revoke_sessions next ≡ true) ↔ ((p ≡ device_revoke) ⊎ (p ≡ device_block)))
unfolding assert_device_transition_allowed required_permission_for_transition
    is_activation_transition should_revoke_sessions
allowed_has_permission pending active h = (device_approve, refl, ground arith, ground arith)
allowed_has_permission revoked active h = (device_approve, refl, ground arith, ground arith)
allowed_has_permission blocked active h = (device_unblock, refl, ground arith, ground arith)
allowed_has_permission active revoked h = (device_revoke, refl, ground arith, ground arith)
allowed_has_permission active blocked h = (device_block, refl, ground arith, ground arith)
allowed_has_permission pending blocked h = (device_block, refl, ground arith, ground arith)
allowed_has_permission _ _ h = cc
