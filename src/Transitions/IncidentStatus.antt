-- ===== src/Transitions/IncidentStatus.antt =====
-- modules/incidents/incident-transitions.util.ts
pub mod Laws
use guardtrak_api.Prelude.{Bool, true, false, ◌||◌, if◌then◌else◌}
use guardtrak_api.Errors.{Result, ok, ensure, conflict_409, incident_status_transition_invalid}

pub data IncidentStatus : Type 0 where
  draft submitted new acknowledged officer_dispatched under_review : IncidentStatus
  under_investigation escalated resolved closed rejected : IncidentStatus

-- `INCIDENT_TRANSITIONS[from]?.[to]`
unfoldable pub incident_transitions : IncidentStatus → IncidentStatus → Bool
incident_transitions draft submitted = true
incident_transitions draft new = true
incident_transitions submitted new = true
incident_transitions submitted acknowledged = true
incident_transitions submitted under_review = true
incident_transitions submitted rejected = true
incident_transitions new acknowledged = true
incident_transitions new under_review = true
incident_transitions new rejected = true
incident_transitions acknowledged officer_dispatched = true
incident_transitions acknowledged under_review = true
incident_transitions acknowledged under_investigation = true
incident_transitions acknowledged escalated = true
incident_transitions acknowledged resolved = true
incident_transitions officer_dispatched under_review = true
incident_transitions officer_dispatched under_investigation = true
incident_transitions officer_dispatched escalated = true
incident_transitions officer_dispatched resolved = true
incident_transitions under_review under_investigation = true
incident_transitions under_review escalated = true
incident_transitions under_review resolved = true
incident_transitions under_review closed = true
incident_transitions under_review rejected = true
incident_transitions under_investigation escalated = true
incident_transitions under_investigation resolved = true
incident_transitions under_investigation closed = true
incident_transitions escalated under_investigation = true
incident_transitions escalated resolved = true
incident_transitions escalated closed = true
incident_transitions resolved closed = true
incident_transitions resolved under_review = true
incident_transitions closed under_review = true
incident_transitions rejected under_review = true
incident_transitions _ _ = false

-- `from === to`
unfoldable pub same : IncidentStatus → IncidentStatus → Bool
same draft draft = true
same submitted submitted = true
same new new = true
same acknowledged acknowledged = true
same officer_dispatched officer_dispatched = true
same under_review under_review = true
same under_investigation under_investigation = true
same escalated escalated = true
same resolved resolved = true
same closed closed = true
same rejected rejected = true
same _ _ = false

unfoldable pub assert_incident_transition : IncidentStatus → IncidentStatus → Result (Unit {0})
unfolding incident_transitions same
assert_incident_transition from to =
    if same from to
    then ok tt
    else ensure (incident_transitions from to) conflict_409 incident_status_transition_invalid

-- `status === CLOSED || status === REJECTED`
unfoldable pub can_reopen_incident : IncidentStatus → Bool
unfolding same
can_reopen_incident status = same status closed || same status rejected
