-- ===== src/Devices/Sessions.antt =====
-- The sessions of a device that is revoked or blocked.
use guardtrak_api.Prelude.{
  ℕ, true, ◌≡◌, ◌⊎◌, inl, inr, arith, Option, none, some, is_some, List, [], ◌∷◌, ◌==◌, Bool-cases,
  update_where, All, All-update_where, if◌then◌else◌, String,
}
use guardtrak_api.Errors.{ok}
use guardtrak_api.Common.Tenant.{RequestUser}
use guardtrak_api.Database.{AuditAction}
use guardtrak_api.Transitions.DeviceStatus.{DeviceStatus, should_revoke_sessions}
use guardtrak_api.Devices.{
  DeviceRow, RefreshSession, Tables, UpdateDeviceStatusDto, revoke_sessions, with_status,
  write_status, update_status, retire,
}
use guardtrak_api.Devices.Rights.{update_status-Updated, retire-Retired}

-- Every session of the device has been revoked.
abbrev pub NoneLives : List RefreshSession → ℕ → Type 0
NoneLives sessions id = All (λ s. s.device_id ≡ some id → is_some s.revoked_at ≡ true) sessions

abbrev pub IsSignedOut : Tables → Type 0
IsSignedOut tables =
    All
      (λ d.
        (d.status ≡ DeviceStatus.revoked) ⊎ (d.status ≡ DeviceStatus.blocked)
        → NoneLives tables.sessions d.id)
      tables.devices

revoke_sessions-NoneLives :
    (now id : ℕ) (sessions : List RefreshSession) → NoneLives (revoke_sessions now id sessions) id
unfolding revoke_sessions update_where
revoke_sessions-NoneLives now id [] = tt
revoke_sessions-NoneLives now id (s ∷ sessions) =
    (λ e. ground arith, revoke_sessions-NoneLives now id sessions)

revoke_sessions-NoneLives_still :
    (now id other : ℕ) (sessions : List RefreshSession)
    → NoneLives sessions other
    → NoneLives (revoke_sessions now id sessions) other
unfolding revoke_sessions update_where
revoke_sessions-NoneLives_still now id other [] h = tt
revoke_sessions-NoneLives_still now id other (s ∷ sessions) h =
    let r = h.0 in (λ e. ground arith, revoke_sessions-NoneLives_still now id other sessions h.1)

-- The sessions after the change of a device to a status.
left_sessions : ℕ → ℕ → DeviceStatus → List RefreshSession → List RefreshSession
left_sessions now id status sessions =
    if should_revoke_sessions status then revoke_sessions now id sessions else sessions

left_sessions-NoneLives_still :
    (now id other : ℕ) (status : DeviceStatus) (sessions : List RefreshSession)
    → NoneLives sessions other
    → NoneLives (left_sessions now id status sessions) other
unfolding left_sessions
left_sessions-NoneLives_still now id other status sessions h =
    elim (Bool-cases (should_revoke_sessions status)) [
      | inl e ↦ rw e (revoke_sessions-NoneLives_still now id other sessions h)
      | inr e ↦ rw e h
    ]

left_sessions-NoneLives :
    (now id : ℕ) (device : DeviceRow) (status : DeviceStatus) (sessions : List RefreshSession)
    → ((with_status now status device).status ≡ DeviceStatus.revoked)
      ⊎ ((with_status now status device).status ≡ DeviceStatus.blocked)
    → NoneLives (left_sessions now id status sessions) id
unfolding left_sessions with_status should_revoke_sessions
left_sessions-NoneLives now id device DeviceStatus.pending sessions h = absurd (ground arith)
left_sessions-NoneLives now id device DeviceStatus.active sessions h = absurd (ground arith)
left_sessions-NoneLives now id device DeviceStatus.revoked sessions h =
    revoke_sessions-NoneLives now id sessions
left_sessions-NoneLives now id device DeviceStatus.blocked sessions h =
    revoke_sessions-NoneLives now id sessions

with_status-id :
    (now : ℕ) (status : DeviceStatus) (device : DeviceRow)
    → (with_status now status device).id ≡ device.id
unfolding with_status
with_status-id now status device = ground arith

write_status-IsSignedOut :
    (user : RequestUser) (o now : ℕ) (action : AuditAction) (reason : Option String)
    (device : DeviceRow) (status : DeviceStatus) (tables : Tables)
    → IsSignedOut tables
    → IsSignedOut (write_status user o now action reason device status tables)
unfolding write_status left_sessions
write_status-IsSignedOut user o now action reason device status tables v =
    let after = left_sessions now device.id status tables.sessions in
    let keeps = λ (sessions : List RefreshSession) (d : DeviceRow).
      (d.status ≡ DeviceStatus.revoked) ⊎ (d.status ≡ DeviceStatus.blocked)
      → NoneLives sessions d.id in
    All-update_where (keeps tables.sessions) (keeps after) (λ d. d.id == device.id)
      (λ d. with_status now status device)
      (λ d h e gone.
        rw (with_status-id now status device)
          (left_sessions-NoneLives now device.id device status tables.sessions gone))
      (λ d h e gone.
        left_sessions-NoneLives_still now device.id d.id status tables.sessions (h gone))
      tables.devices v

-- A change of the status of a device keeps it true that every session of a device that is revoked
-- or blocked has been revoked.
pub update_status-IsSignedOut :
    (now : ℕ) (user : RequestUser) (id : ℕ) (dto : UpdateDeviceStatusDto) (tables : Tables)
    (result : DeviceRow) (tables' : Tables)
    → update_status now user id dto tables ≡ ok (result, tables')
    → IsSignedOut tables
    → IsSignedOut tables'
update_status-IsSignedOut now user id dto tables result tables' h v =
    let u = update_status-Updated now user id dto tables result tables' h in
    elim u.outcome [
      | inl (same, row, unchanged) ↦ rw unchanged v
      | inr (allowed, row, written) ↦ rw written (
          write_status-IsSignedOut user u.organisation_id now AuditAction.update dto.reason u.device
            dto.status tables v)
    ]

-- A retirement keeps it true that no session lives on a device that is revoked or blocked.
pub retire-IsSignedOut :
    (now : ℕ) (user : RequestUser) (id : ℕ) (tables tables' : Tables) {u : Unit {0}}
    → retire now user id tables ≡ ok (u, tables')
    → IsSignedOut tables
    → IsSignedOut tables'
retire-IsSignedOut now user id tables tables' h v =
    let r = retire-Retired now user id tables tables' h in
    elim r.outcome [
      | inl (same, unchanged) ↦ rw unchanged v
      | inr written ↦ rw written (
          write_status-IsSignedOut user r.organisation_id now AuditAction.delete none r.device
            DeviceStatus.revoked tables v)
    ]
