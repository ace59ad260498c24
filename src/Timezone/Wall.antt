-- ===== src/Timezone/Wall.antt =====
-- Wall clocks and moments.
use guardtrak_api.Prelude.{ℕ, ◌+◌, ◌-◌, ◌*◌, ◌≤◌, true, ◌≡◌, arith}
use guardtrak_api.Calendar.{DateKey, date_utc, day_number, epoch_day}
use guardtrak_api.Timezone.{Intl, resolve_time_zone, actual_as_utc, converge, zoned_date_time}

-- A zone that stands a fixed number of seconds ahead of UTC, or behind it.
pub record HasFixedOffset (intl : Intl) (zone : ℕ) : Type 0 where
  pub ahead : ℕ
  pub behind : ℕ
  pub offset :
      (s : ℕ) → behind ≤ s → actual_as_utc intl zone (s * 1000) ≡ (s + ahead - behind) * 1000

module _ (intl : Intl) (zone : ℕ) (z : HasFixedOffset intl zone) where
  converge_exact :
      (s wanted : ℕ)
      → wanted ≡ s * 1000
      → z.ahead + z.behind ≤ s
      → actual_as_utc intl zone (converge intl 4 zone wanted wanted) ≡ wanted
  unfolding converge
  converge_exact s wanted w h =
      let back = s + s - (s + z.ahead - z.behind) in
      let first : actual_as_utc intl zone wanted ≡ (s + z.ahead - z.behind) * 1000 =
        rw w (z.offset s (omega arith)) in
      let second : actual_as_utc intl zone (wanted + wanted - (s + z.ahead - z.behind) * 1000)
          ≡ (back + z.ahead - z.behind) * 1000 =
        let e : wanted + wanted - (s + z.ahead - z.behind) * 1000 ≡ back * 1000 = omega arith in
        rw e (z.offset back (omega arith)) in
      ground arith

  date_utc_seconds :
      (key : DateKey) (hour minute second : ℕ)
      → (s : ℕ) × (date_utc key hour minute second ≡ s * 1000)
  unfolding date_utc
  date_utc_seconds key hour minute second =
      ((day_number key - epoch_day) * 86400 + hour * 3600 + minute * 60 + second, omega arith)

  -- In a valid zone with a fixed offset the moment that is found shows exactly the wall clock that
  -- was asked for, unless this lies at the very beginning of the epoch.
  pub zoned_date_time_exact :
      (key : DateKey) (hour minute second : ℕ)
      → intl.is_valid_time_zone zone ≡ true
      → (z.ahead + z.behind) * 1000 ≤ date_utc key hour minute second
      → actual_as_utc intl zone (zoned_date_time intl zone key hour minute second)
        ≡ date_utc key hour minute second
  unfolding zoned_date_time resolve_time_zone
  zoned_date_time_exact key hour minute second valid h =
      let (s, e) = date_utc_seconds key hour minute second in
      rw valid (converge_exact s (date_utc key hour minute second) e (omega arith))
