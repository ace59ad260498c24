-- ===== src/Transitions/EmergencyStatus/Laws.antt =====
-- The life of an emergency, and the name of its first status outside the database.
use guardtrak_api.Prelude.{ℕ, ◌≤◌, ◌<◌, true, ◌≡◌, refl, arith}
use guardtrak_api.Errors.{ok}
use guardtrak_api.Transitions.Paths.{History, History-rank}
use guardtrak_api.Transitions.EmergencyStatus.{
  EmergencyStatus, created, accepted_for_processing, acknowledged, responding, resolved, cancelled,
  failed, false_alarm, emergency_transitions, to_db_emergency_status, to_api_emergency_status,
}

-- The status that the API shows is read back as the status in the database.
pub to_db-to_api : (s : EmergencyStatus) → to_db_emergency_status (to_api_emergency_status s) ≡ ok s
unfolding to_db_emergency_status to_api_emergency_status
to_db-to_api created = refl
to_db-to_api accepted_for_processing = refl
to_db-to_api acknowledged = refl
to_db-to_api responding = refl
to_db-to_api resolved = refl
to_db-to_api cancelled = refl
to_db-to_api failed = refl
to_db-to_api false_alarm = refl

rank : EmergencyStatus → ℕ
rank created = 0
rank accepted_for_processing = 1
rank acknowledged = 2
rank responding = 3
rank _ = 4

rank_up : (s t : EmergencyStatus) → emergency_transitions s t ≡ true → rank s < rank t
unfolding emergency_transitions rank
rank_up s t h = ground arith

rank_top : (s : EmergencyStatus) → rank s ≤ 4
unfolding rank
rank_top s = ground arith

-- An emergency whose status follows the table changes it at most four times.
pub emergency_changes_bounded :
    {s t : EmergencyStatus} {n : ℕ} → History emergency_transitions s n t → n ≤ 4
emergency_changes_bounded {t} r =
    omega (arith, History-rank emergency_transitions rank rank_up r, rank_top t)
