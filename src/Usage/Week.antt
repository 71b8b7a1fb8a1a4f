-- ===== src/Usage/Week.antt =====
-- `_week_window_start` of frontend/usage.py: the last weekly reset. A local time is a day,
-- counted from a Monday, and the microseconds since its midnight; `datetime.fromtimestamp` and
-- `timestamp()`, which lead from and to the epoch, are left out. There are two weeks before `now`
-- at least.
use silicon_office.Prelude.{
  ℕ, ◌+◌, ◌-◌, ◌*◌, ◌%◌, ◌≤◌, ◌<◌, ◌≡◌, ◌⊎◌, Bool, ◌&&◌, ◌||◌, ltb, eqb, if◌then◌else◌, arith,
}

pub record LocalTime : Type 0 where
  pub day : ℕ
  pub micros : ℕ

abbrev pub weekday : LocalTime → ℕ
weekday t = t.day % 7

-- Monday = 0
abbrev pub week_reset_weekday : ℕ
week_reset_weekday = 3

abbrev pub week_reset_hour : ℕ
week_reset_hour = 6

abbrev pub hour : ℕ
hour = 3_600_000_000

-- `replace(hour=WEEK_RESET_HOUR, minute=0, second=0, microsecond=0)`
unfoldable pub at_reset_hour : LocalTime → LocalTime
at_reset_hour t = record { day = t.day; micros = week_reset_hour * hour }

-- `t - timedelta(days=n)`
abbrev pub minus_days : LocalTime → ℕ → LocalTime
minus_days t n = record { day = t.day - n; micros = t.micros }

-- `a > b`
abbrev pub is_later : LocalTime → LocalTime → Bool
is_later a b = ltb b.day a.day || (eqb a.day b.day && ltb b.micros a.micros)

-- `(candidate.weekday() - WEEK_RESET_WEEKDAY) % 7`, where Python's remainder is not negative.
unfoldable pub days_since_reset : LocalTime → ℕ
days_since_reset t = (weekday t + 7 - week_reset_weekday) % 7

unfoldable pub week_window_start : LocalTime → LocalTime
unfolding at_reset_hour days_since_reset
week_window_start now =
    let today = at_reset_hour now in
    let candidate = minus_days today (days_since_reset today) in
    if is_later candidate now then minus_days candidate 7 else candidate

-- A time is at or before another.
abbrev pub IsBy : LocalTime → LocalTime → Type 0
IsBy a b = (a.day < b.day) ⊎ ((a.day ≡ b.day) × (a.micros ≤ b.micros))

abbrev pub IsBefore : LocalTime → LocalTime → Type 0
IsBefore a b = (a.day < b.day) ⊎ ((a.day ≡ b.day) × (a.micros < b.micros))

abbrev pub plus_days : LocalTime → ℕ → LocalTime
plus_days t n = record { day = t.day + n; micros = t.micros }

-- With two weeks before now, the window starts on a Thursday at six, not after now and less than a
-- week ago: at the most recent weekly reset, which is now itself on the stroke of the reset.
pub week_window_start_lem :
    (now : LocalTime)
    → 14 ≤ now.day
    → let start = week_window_start now in
      (weekday start ≡ week_reset_weekday)
      × (start.micros ≡ week_reset_hour * hour)
      × IsBy start now
      × IsBefore now (plus_days start 7)
unfolding week_window_start
week_window_start_lem now h = ground arith
