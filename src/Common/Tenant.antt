-- ===== src/Common/Tenant.antt =====
-- common/tenant/tenant.util.ts and the user of common/types/request-user.type.ts, as far as the
-- modelled services read it. Identifiers are UUIDs, as numbers.
use guardtrak_api.Prelude.{ℕ, Bool, true, false, ◌||◌, ◌==◌, Option, none, some, List, [], ◌∷◌}
use guardtrak_api.Errors.{
  Result, ok, throw, ErrorCode, forbidden_403, not_found_404, auth_organisation_required, ensure,
  auth_insufficient_permission, tenant_resource_not_found,
}

-- The permissions that the modelled services ask for: `attendance:review` and so on.
pub data Permission : Type 0 where
  attendance_review attendance_approve attendance_correct break_start_self break_review : Permission
  assignment_read assignment_read_self : Permission
  device_read device_approve device_unblock device_revoke device_block : Permission

abbrev same : Permission → Permission → Bool
same attendance_review attendance_review = true
same attendance_approve attendance_approve = true
same attendance_correct attendance_correct = true
same break_start_self break_start_self = true
same break_review break_review = true
same assignment_read assignment_read = true
same assignment_read_self assignment_read_self = true
same device_read device_read = true
same device_approve device_approve = true
same device_unblock device_unblock = true
same device_revoke device_revoke = true
same device_block device_block = true
same _ _ = false

pub data UserRole : Type 0 where
  security_officer supervisor administrator super_admin : UserRole

pub record RequestUser : Type 0 where
  pub id : ℕ
  pub role : UserRole
  pub organisation_id : Option ℕ
  pub device_id : Option ℕ
  pub permissions : List Permission

unfoldable pub require_organisation_id : RequestUser → Result ℕ
require_organisation_id user = elim user.organisation_id [
  | none ↦ throw forbidden_403 auth_organisation_required
  | some organisation_id ↦ ok organisation_id
]

includes : List Permission → Permission → Bool
includes [] permission = false
includes (p ∷ permissions) permission = same p permission || includes permissions permission

unfoldable pub user_has_permission : RequestUser → Permission → Bool
unfolding includes
user_has_permission user permission = includes user.permissions permission

-- `user.role === UserRole.SUPERVISOR`
unfoldable pub is_supervisor : RequestUser → Bool
is_supervisor user = elim user.role [
  | security_officer ↦ false
  | supervisor ↦ true
  | administrator ↦ false
  | super_admin ↦ false
]

unfoldable pub tenant_not_found {ℓ} : {A : Type ℓ} → ErrorCode → Result A
tenant_not_found code = throw not_found_404 code

unfoldable pub assert_same_organisation : ℕ → ℕ → Result (Unit {0})
assert_same_organisation user_organisation_id entity_organisation_id =
    ensure (entity_organisation_id == user_organisation_id) not_found_404 tenant_resource_not_found

unfoldable pub assert_permission : RequestUser → Permission → Result (Unit {0})
unfolding user_has_permission
assert_permission user permission =
    ensure (user_has_permission user permission) forbidden_403 auth_insufficient_permission
