-- ===== src/Transitions/EmergencyStatus.antt =====
-- modules/emergencies/emergency-transitions.util.ts
pub mod Laws
use Prim.Native.String.{String}
use text.Mathlib.Text.{◌==◌}
use guardtrak_api.Prelude.{Bool, true, false, if◌then◌else◌}
use guardtrak_api.Errors.{
  Result, ok, throw, ensure, conflict_409, bad_request_400, validation_error,
  emergency_status_transition_invalid,
}

pub data EmergencyStatus : Type 0 where
  created accepted_for_processing acknowledged responding resolved cancelled : EmergencyStatus
  failed false_alarm : EmergencyStatus

-- `Object.values(EmergencyStatus).includes(status)`, and the status that the name stands for.
parse : String → Result EmergencyStatus
parse status =
    if status == "CREATED"
    then ok created
    else if status == "ACCEPTED_FOR_PROCESSING"
    then ok accepted_for_processing
    else if status == "ACKNOWLEDGED"
    then ok acknowledged
    else if status == "RESPONDING"
    then ok responding
    else if status == "RESOLVED"
    then ok resolved
    else if status == "CANCELLED"
    then ok cancelled
    else if status == "FAILED"
    then ok failed
    else if status == "FALSE_ALARM"
    then ok false_alarm
    else throw bad_request_400 validation_error

-- The enum's value as a text.
abbrev pub name : EmergencyStatus → String
name created = "CREATED"
name accepted_for_processing = "ACCEPTED_FOR_PROCESSING"
name acknowledged = "ACKNOWLEDGED"
name responding = "RESPONDING"
name resolved = "RESOLVED"
name cancelled = "CANCELLED"
name failed = "FAILED"
name false_alarm = "FALSE_ALARM"

unfoldable pub to_db_emergency_status : String → Result EmergencyStatus
unfolding parse
to_db_emergency_status status = if status == "ACTIVE" then ok created else parse status

unfoldable pub to_api_emergency_status : EmergencyStatus → String
to_api_emergency_status created = "ACTIVE"
to_api_emergency_status status = name status

-- `EMERGENCY_TRANSITIONS[from]?.[to]`
unfoldable pub emergency_transitions : EmergencyStatus → EmergencyStatus → Bool
emergency_transitions created accepted_for_processing = true
emergency_transitions created acknowledged = true
emergency_transitions created cancelled = true
emergency_transitions created false_alarm = true
emergency_transitions created failed = true
emergency_transitions accepted_for_processing acknowledged = true
emergency_transitions accepted_for_processing responding = true
emergency_transitions accepted_for_processing cancelled = true
emergency_transitions accepted_for_processing false_alarm = true
emergency_transitions acknowledged responding = true
emergency_transitions acknowledged resolved = true
emergency_transitions acknowledged cancelled = true
emergency_transitions acknowledged false_alarm = true
emergency_transitions responding resolved = true
emergency_transitions responding cancelled = true
emergency_transitions responding false_alarm = true
emergency_transitions _ _ = false

-- `from === to`
unfoldable pub same : EmergencyStatus → EmergencyStatus → Bool
same created created = true
same accepted_for_processing accepted_for_processing = true
same acknowledged acknowledged = true
same responding responding = true
same resolved resolved = true
same cancelled cancelled = true
same failed failed = true
same false_alarm false_alarm = true
same _ _ = false

unfoldable pub assert_emergency_transition : EmergencyStatus → EmergencyStatus → Result (Unit {0})
unfolding emergency_transitions same
assert_emergency_transition from to =
    if same from to
    then ok tt
    else ensure (emergency_transitions from to) conflict_409 emergency_status_transition_invalid
