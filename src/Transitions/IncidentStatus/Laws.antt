-- ===== src/Transitions/IncidentStatus/Laws.antt =====
-- The life of an incident: triage, reopening and closing.
use guardtrak_api.Prelude.{ℕ, ◌≤◌, Bool, true, false, ◌≡◌, refl, arith}
use guardtrak_api.Transitions.Paths.{History, here, next, History-keeps}
use guardtrak_api.Transitions.IncidentStatus.{
  IncidentStatus, draft, submitted, new, acknowledged, officer_dispatched, under_review,
  under_investigation, escalated, resolved, closed, rejected, incident_transitions, same,
  can_reopen_incident,
}

-- The statuses before anybody has looked at the incident.
abbrev pub is_untriaged : IncidentStatus → Bool
is_untriaged draft = true
is_untriaged submitted = true
is_untriaged new = true
is_untriaged _ = false

triaged_step :
    (s t : IncidentStatus)
    → incident_transitions s t ≡ true
    → is_untriaged s ≡ false
    → is_untriaged t ≡ false
unfolding incident_transitions
triaged_step s t h e = ground arith

-- An incident that has been triaged never becomes DRAFT, SUBMITTED or NEW again, as long as its
-- status follows the table.
pub triage_is_final :
    {s t : IncidentStatus} {n : ℕ}
    → History incident_transitions s n t
    → is_untriaged s ≡ false
    → is_untriaged t ≡ false
triage_is_final r e =
    History-keeps incident_transitions (λ s. is_untriaged s ≡ false) triaged_step r e

-- A closed or rejected incident can be reopened, and only to UNDER_REVIEW.
pub reopen_only_to_review :
    (s t : IncidentStatus)
    → can_reopen_incident s ≡ true
    → incident_transitions s t ≡ same t under_review
unfolding can_reopen_incident incident_transitions same
reopen_only_to_review s t h = ground arith

step1 :
    {s : IncidentStatus} (t : IncidentStatus)
    → incident_transitions s t ≡ true
    → History incident_transitions s 1 t
step1 t h = next (here refl) h (omega arith)

step2 :
    {s : IncidentStatus} (t u : IncidentStatus)
    → incident_transitions s t ≡ true
    → incident_transitions t u ≡ true
    → History incident_transitions s 2 u
step2 t u h k = next (step1 t h) k (omega arith)

-- Whatever its status, an incident can be closed within three changes that the table allows.
pub can_be_closed :
    (s : IncidentStatus) → (n : ℕ) × (n ≤ 3) × History incident_transitions s n closed
unfolding incident_transitions
can_be_closed draft =
    (3, omega arith, next (step2 submitted under_review refl refl) refl (omega arith))
can_be_closed submitted = (2, omega arith, step2 under_review closed refl refl)
can_be_closed new = (2, omega arith, step2 under_review closed refl refl)
can_be_closed acknowledged = (2, omega arith, step2 resolved closed refl refl)
can_be_closed officer_dispatched = (2, omega arith, step2 resolved closed refl refl)
can_be_closed under_review = (1, omega arith, step1 closed refl)
can_be_closed under_investigation = (1, omega arith, step1 closed refl)
can_be_closed escalated = (1, omega arith, step1 closed refl)
can_be_closed resolved = (1, omega arith, step1 closed refl)
can_be_closed closed = (0, omega arith, here refl)
can_be_closed rejected = (2, omega arith, step2 under_review closed refl refl)
