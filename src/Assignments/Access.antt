-- ===== src/Assignments/Access.antt =====
-- modules/assignments/assignment-access.service.ts, with the two profile lookups of Breaks/Guards and
-- Attendance/Lookup.
use guardtrak_api.Prelude.{
  ℕ, Bool, false, ◌&&◌, ◌||◌, none, some, List, [], ◌∷◌, ◌==◌, if◌then◌else◌,
}
use guardtrak_api.Errors.{
  Result, ok, err, throw, forbidden_403, assignment_access_forbidden, assignment_not_found,
}
use guardtrak_api.Common.Tenant.{
  RequestUser, is_supervisor, user_has_permission, tenant_not_found, assignment_read,
  assignment_read_self,
}
use guardtrak_api.Database.{Db, Assignment, SupervisorOfficer}
use guardtrak_api.Breaks.Guards.{resolve_officer_profile_id}
use guardtrak_api.Attendance.Lookup.{
  resolve_supervisor_profile_id, still_active, same_supervisor, is_linked,
}

-- The officers of the links that are active at a time.
unfoldable pub list_assigned_officer_ids : ℕ → ℕ → ℕ → List SupervisorOfficer → List ℕ
list_assigned_officer_ids now organisation_id supervisor_id [] = []
list_assigned_officer_ids now organisation_id supervisor_id (l ∷ rest) =
    let ids = list_assigned_officer_ids now organisation_id supervisor_id rest in
    if l.organisation_id == organisation_id
      && (l.supervisor_id == supervisor_id && still_active l.active_until now)
    then l.officer_id ∷ ids
    else ids

unfoldable pub includes_id : List ℕ → ℕ → Bool
includes_id [] id = false
includes_id (i ∷ ids) id = i == id || includes_id ids id

unfoldable pub assert_supervisor_may_manage_officer : ℕ → Db → RequestUser → ℕ → ℕ → Result ℕ
unfolding list_assigned_officer_ids includes_id
assert_supervisor_may_manage_officer now db user organisation_id officer_id =
    elim (resolve_supervisor_profile_id db user organisation_id) [
      | none ↦ throw forbidden_403 assignment_access_forbidden
      | some supervisor_id ↦
          if includes_id
            (list_assigned_officer_ids now organisation_id supervisor_id db.supervisor_officers)
            officer_id
          then ok supervisor_id
          else throw forbidden_403 assignment_access_forbidden
    ]

-- The officer who reads an assignment of their own.
unfoldable pub reads_own : Db → RequestUser → ℕ → Assignment → Result (Unit {0})
unfolding tenant_not_found
reads_own db user organisation_id assignment =
    elim (resolve_officer_profile_id db user organisation_id) [
      | err thrown ↦ err thrown
      | ok officer_id ↦
          if assignment.officer_id == officer_id
          then ok tt
          else tenant_not_found assignment_not_found
    ]

unfoldable pub assert_can_read_assignment :
    ℕ → Db → RequestUser → ℕ → Assignment → Result (Unit {0})
unfolding reads_own tenant_not_found is_linked
assert_can_read_assignment now db user organisation_id assignment =
    let supervisor_id = resolve_supervisor_profile_id db user organisation_id in
    if is_supervisor user
    then (if same_supervisor supervisor_id assignment.supervisor_id
          || is_linked now db organisation_id supervisor_id assignment.officer_id
        then ok tt
        else tenant_not_found assignment_not_found)
    else if user_has_permission user assignment_read
    then ok tt
    else if user_has_permission user assignment_read_self
    then reads_own db user organisation_id assignment
    else tenant_not_found assignment_not_found
