-- ===== src/Devices/Rights.antt =====
-- Who may change the status of a device.
use guardtrak_api.Prelude.{
  ℕ, true, ◌≡◌, ◌≢◌, refl, ◌⊎◌, inl, inr, arith, Option, none, some, ◌==◌, find_first, Option-cases,
  find_first-holds, find_first-update_where, String, sym, ◌∙◌,
}
use guardtrak_api.Errors.{ok}
use guardtrak_api.Common.Tenant.{
  RequestUser, Permission, require_organisation_id, assert_permission, assert_same_organisation,
  user_has_permission,
}
use guardtrak_api.Database.{AuditAction}
use guardtrak_api.Transitions.DeviceStatus.{
  DeviceStatus, same, assert_device_transition_allowed, required_permission_for_transition,
  is_activation_transition,
}
use guardtrak_api.Devices.{
  DeviceRow, Tables, UpdateDeviceStatusDto, is_device, find_device_or_throw, with_status,
  write_status, update_status, retire,
}

-- What an update of a status that succeeds has found and written.
pub record Updated (now : ℕ) (user : RequestUser) (id : ℕ) (dto : UpdateDeviceStatusDto)
    (tables : Tables) (result : DeviceRow) (tables' : Tables) : Type 0 where
  pub organisation_id : ℕ
  pub tenant : user.organisation_id ≡ some organisation_id
  pub device : DeviceRow
  pub found : find_first (is_device organisation_id id) tables.devices ≡ some device
  pub outcome :
      ((device.status ≡ dto.status) × (result ≡ device) × (tables' ≡ tables))
      ⊎ ((assert_device_transition_allowed device.status dto.status ≡ ok tt)
          × (result ≡ with_status now dto.status device)
          × (tables'
              ≡ write_status user organisation_id now AuditAction.update dto.reason device
                  dto.status tables))

pub update_status-Updated :
    (now : ℕ) (user : RequestUser) (id : ℕ) (dto : UpdateDeviceStatusDto) (tables : Tables)
    (result : DeviceRow) (tables' : Tables)
    → update_status now user id dto tables ≡ ok (result, tables')
    → Updated now user id dto tables result tables'
unfolding update_status require_organisation_id find_device_or_throw same
update_status-Updated now user id dto tables result tables' h =
    elim (Option-cases user.organisation_id) [
      | inl t ↦ absurd (ground arith)
      | inr (o, t) ↦ elim (Option-cases (find_first (is_device o id) tables.devices)) [
        | inl e ↦ absurd (ground arith)
        | inr (d, e) ↦ record {
          organisation_id = o;
          tenant = t;
          device = d;
          found = e;
          outcome = ground arith;
        }
      ]
    ]

-- What a retirement that succeeds has found and written.
pub record Retired (now : ℕ) (user : RequestUser) (id : ℕ) (tables tables' : Tables) : Type 0 where
  pub organisation_id : ℕ
  pub tenant : user.organisation_id ≡ some organisation_id
  pub device : DeviceRow
  pub found : find_first (is_device organisation_id id) tables.devices ≡ some device
  pub outcome :
      ((device.status ≡ DeviceStatus.revoked) × (tables' ≡ tables))
      ⊎ (tables'
          ≡ write_status user organisation_id now AuditAction.delete none device
              DeviceStatus.revoked tables)

pub retire-Retired :
    (now : ℕ) (user : RequestUser) (id : ℕ) (tables tables' : Tables) {u : Unit {0}}
    → retire now user id tables ≡ ok (u, tables')
    → Retired now user id tables tables'
unfolding retire require_organisation_id find_device_or_throw same
retire-Retired now user id tables tables' h = elim (Option-cases user.organisation_id) [
  | inl t ↦ absurd (ground arith)
  | inr (o, t) ↦ elim (Option-cases (find_first (is_device o id) tables.devices)) [
    | inl e ↦ absurd (ground arith)
    | inr (d, e) ↦ record {
      organisation_id = o;
      tenant = t;
      device = d;
      found = e;
      outcome = ground arith;
    }
  ]
]

-- A request that makes a device active succeeds only for a device of the organisation, and where it
-- was not active before, only for another user than its owner, who may unblock devices where it was
-- blocked, and approve them where it was not.
pub activation_authorised :
    (now : ℕ) (user : RequestUser) (id : ℕ) (dto : UpdateDeviceStatusDto) (tables : Tables)
    (result : DeviceRow) (tables' : Tables)
    → update_status now user id dto tables ≡ ok (result, tables')
    → dto.status ≡ DeviceStatus.active
    → (o : ℕ) × (device : DeviceRow) × (user.organisation_id ≡ some o)
      × (find_first (is_device o id) tables.devices ≡ some device)
      × (result.status ≡ DeviceStatus.active)
      × ((device.status ≡ DeviceStatus.active)
          ⊎ ((device.user_id ≢ user.id)
              × (((device.status ≢ DeviceStatus.blocked)
                    × (user_has_permission user Permission.device_approve ≡ true))
                  ⊎ ((device.status ≡ DeviceStatus.blocked)
                      × (user_has_permission user Permission.device_unblock ≡ true)))))
unfolding update_status require_organisation_id find_device_or_throw same with_status
    required_permission_for_transition assert_permission is_activation_transition
activation_authorised now user id dto tables result tables' h active =
    let u = update_status-Updated now user id dto tables result tables' h in
    let t = u.tenant in
    let f = u.found in (u.organisation_id, u.device, t, f, ground arith, ground arith)

-- A revoked device is activated by another user who may approve devices.
approved :
    (now : ℕ) (user : RequestUser) (id o : ℕ) (reason : Option String) (tables : Tables)
    (device : DeviceRow)
    → find_first (is_device o id) tables.devices ≡ some device
    → device.status ≡ DeviceStatus.revoked
    → user.organisation_id ≡ some o
    → device.user_id ≢ user.id
    → user_has_permission user Permission.device_approve ≡ true
    → update_status now user id (record { status = DeviceStatus.active; reason = reason }) tables
      ≡ ok (
        with_status now DeviceStatus.active device,
        write_status user o now AuditAction.update reason device DeviceStatus.active tables,
      )
unfolding update_status require_organisation_id find_device_or_throw same
    required_permission_for_transition assert_permission is_activation_transition
    assert_device_transition_allowed assert_same_organisation
approved now user id o reason tables device found revoked t other can =
    let d = find_first-holds (is_device o id) tables.devices device found in ground arith

-- A retirement leaves the device revoked.
retired :
    (now : ℕ) (user : RequestUser) (id o : ℕ) (tables tables' : Tables) (device : DeviceRow)
    {u : Unit {0}}
    → find_first (is_device o id) tables.devices ≡ some device
    → user.organisation_id ≡ some o
    → retire now user id tables ≡ ok (u, tables')
    → (after : DeviceRow) × (find_first (is_device o id) tables'.devices ≡ some after)
      × (after.status ≡ DeviceStatus.revoked)
      × (after.user_id ≡ device.user_id)
unfolding write_status with_status
retired now user id o tables tables' device found t h =
    let r = retire-Retired now user id tables tables' h in
    let same_o : r.organisation_id ≡ o = let q = r.tenant in ground arith in
    let found' = rw same_o at r.found in
    let same_d : r.device ≡ device = ground arith in
    let d = find_first-holds (is_device o id) tables.devices device found in
    let new = with_status now DeviceStatus.revoked device in
    elim r.outcome [
      | inl (revoked, unchanged) ↦ (device, rw unchanged found, rw same_d at revoked, refl)
      | inr written ↦ (
        new,
        rw (written, same_d)
            (find_first-update_where (is_device o id) (λ x. x.id == device.id) (λ x e. ground arith)
              new tables.devices device (ground arith) found),
        refl,
        refl,
      )
    ]

-- Once a device has been retired, whatever its status was, so also where it was blocked, another
-- user than its owner who may approve devices can make it active.
pub retire_then_approve :
    (now later : ℕ) (user approver : RequestUser) (id o : ℕ) (tables tables' : Tables)
    (device : DeviceRow) {u : Unit {0}}
    → find_first (is_device o id) tables.devices ≡ some device
    → user.organisation_id ≡ some o
    → approver.organisation_id ≡ some o
    → device.user_id ≢ approver.id
    → user_has_permission approver Permission.device_approve ≡ true
    → retire now user id tables ≡ ok (u, tables')
    → (device' : DeviceRow) × (tables'' : Tables) × (update_status later approver id
          (record { status = DeviceStatus.active; reason = none })
          tables'
        ≡ ok (device', tables''))
retire_then_approve now later user approver id o tables tables' device found t t' other can h =
    let (after, found', revoked, owner) = retired now user id o tables tables' device found t h in
    (
      with_status later DeviceStatus.active after,
      write_status approver o later AuditAction.update none after DeviceStatus.active tables',
      approved later approver id o none tables' after found' revoked t' (λ e. other (sym owner ∙ e))
          can,
    )
