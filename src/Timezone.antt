-- ===== src/Timezone.antt =====
-- common/utils/timezone.util.ts, the part on time zones. What `Intl.DateTimeFormat` knows is a parameter:
-- which names are zones, and the wall clock of a zone at a moment. A zone's name is a number, trimmed.
pub mod Wall
use guardtrak_api.Prelude.{
  ℕ, zero, suc, ◌+◌, ◌-◌, ◌≤◌, Bool, true, false, Option, none, some, ◌==◌, if◌then◌else◌,
}
use guardtrak_api.Calendar.{DateKey, IsDate, date_utc}

pub record ZonedDateParts : Type 0 where
  pub date : DateKey
  pub hour : ℕ
  pub minute : ℕ
  pub second : ℕ
  pub weekday : ℕ

-- The zones of the runtime: `isValidTimeZone`, and the parts that `formatToParts` lists.
pub record Intl : Type 0 where
  pub is_valid_time_zone : ℕ → Bool
  pub format_to_parts : ℕ → ℕ → ZonedDateParts

-- 'UTC'
abbrev pub default_timezone : ℕ
default_timezone = 0

module _ (intl : Intl) where
  abbrev valid_zone : Option ℕ → Option ℕ
  valid_zone none = none
  valid_zone (some zone) = if intl.is_valid_time_zone zone then some zone else none

  abbrev or_zone : Option ℕ → Option ℕ → ℕ
  or_zone (some zone) fallback = zone
  or_zone none (some zone) = zone
  or_zone none none = default_timezone

  unfoldable pub resolve_time_zone : Option ℕ → Option ℕ → ℕ
  resolve_time_zone preferred fallback = or_zone (valid_zone preferred) (valid_zone fallback)

  unfoldable pub zoned_parts : ℕ → ℕ → ZonedDateParts
  unfolding resolve_time_zone
  zoned_parts date time_zone = intl.format_to_parts date (resolve_time_zone (some time_zone) none)

  unfoldable pub zoned_date_key : ℕ → ℕ → DateKey
  unfolding zoned_parts
  zoned_date_key date time_zone = (zoned_parts date time_zone).date

  -- `Date.UTC` of the parts of a moment.
  unfoldable pub actual_as_utc : ℕ → ℕ → ℕ
  unfolding zoned_parts date_utc
  actual_as_utc time_zone utc =
      let actual = zoned_parts utc time_zone in
      date_utc actual.date actual.hour actual.minute actual.second

  -- The loop of `zonedDateTime`, with the rounds that are left. `utc += wanted - actualAsUtc`.
  unfoldable pub converge : ℕ → ℕ → ℕ → ℕ → ℕ
  unfolding actual_as_utc
  converge zero time_zone wanted utc = utc
  converge (suc left) time_zone wanted utc =
      let actual = actual_as_utc time_zone utc in
      let rest = converge left time_zone wanted (utc + wanted - actual) in
      if actual == wanted then utc else rest

  unfoldable pub zoned_date_time : ℕ → DateKey → ℕ → ℕ → ℕ → ℕ
  unfolding converge resolve_time_zone date_utc
  zoned_date_time time_zone key hour minute second =
      let wanted = date_utc key hour minute second in
      converge 4 (resolve_time_zone (some time_zone) none) wanted wanted

-- What the specification of `Intl.DateTimeFormat` says of the parts: a date of the Gregorian calendar,
-- and one of seven weekdays.
pub record IsCalendar (intl : Intl) : Type 0 where
  pub dates : (t zone : ℕ) → IsDate (intl.format_to_parts t zone).date
  pub weekdays : (t zone : ℕ) → (intl.format_to_parts t zone).weekday ≤ 6
