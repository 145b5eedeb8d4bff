-- ===== src/Domain/Zone.antt =====
-- Dates, instants and time zones.
-- A date is its ordinal (1 is 0001-01-01), an instant the microseconds since the start of that
-- day in UTC, and a wall-clock reading the microseconds since then on the local calendar.
-- The zone database (`zoneinfo`) is not code of the repository: it is a parameter.
use shiftmate_web.Prelude.{ℕ, ◌+◌, ◌/◌, ◌%◌, Bool, String}

abbrev pub Date : Type 0
Date = ℕ

abbrev pub us_per_second : ℕ
us_per_second = 1_000_000

abbrev pub us_per_minute : ℕ
us_per_minute = 60_000_000

abbrev pub us_per_day : ℕ
us_per_day = 86_400_000_000

-- `known` is whether `ZoneInfo(name)` succeeds, `to_local` the wall clock of an instant, and
-- `to_utc` the instant of a wall-clock reading with its `fold`.
pub record Zones : Type 0 where
  pub known : String → Bool
  pub to_local : String → ℕ → ℕ
  pub to_utc : String → ℕ → Bool → ℕ

-- A `datetime`: without an offset, or an instant.
pub data Datetime : Type 0 where
  naive : ℕ → Datetime
  aware : ℕ → Datetime

-- `datetime.date()` of a wall-clock reading.
abbrev pub date_of : ℕ → Date
date_of wall = wall / us_per_day + 1

-- `date.weekday()`: 0 is Monday.
abbrev pub weekday : Date → ℕ
weekday d = (d + 6) % 7
