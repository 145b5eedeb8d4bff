-- ===== src/Domain/Schedule/Validation.antt =====
-- What `Shift` and `PayRate` of backend/app/domain/schedule.py let through.
use shiftmate_web.Prelude.{zero, ◌+◌, ◌*◌, ◌≤◌, ◌<◌, ◌≡◌, ◌↔◌, ◌⊎◌, true, false, String, arith}
use shiftmate_web.Prelude.Result.{ok}
use shiftmate_web.Prelude.Text.{Text, is_blank}
use shiftmate_web.Domain.Zone.{Zones, Datetime, aware, us_per_minute}
use shiftmate_web.Domain.Schedule.{
  Shift, BreakValue, minutes, minus, make_shift, paid_duration, elapsed_duration,
}

-- The rules for a shift, with the values that they accept.
pub record IsAccepted (zones : Zones) (start_at end_at : Datetime) (break_minutes : BreakValue)
    (timezone : String) (shift_type : Text) (s : Shift) : Type 0 where
  pub starts : start_at ≡ aware s.start_at
  pub ends : end_at ≡ aware s.end_at
  pub typed : is_blank shift_type ≡ false
  pub pause :
      break_minutes ≡ minutes s.break_minutes ⊎ (break_minutes ≡ minus 0) × (s.break_minutes ≡ 0)
  pub a_day : s.break_minutes ≤ 1440
  pub zone : zones.known timezone ≡ true
  pub ordered : s.start_at < s.end_at
  pub fits : s.start_at + s.break_minutes * us_per_minute ≤ s.end_at
  pub same_zone : s.timezone ≡ timezone
  pub same_type : s.shift_type ≡ shift_type

accepts :
    (zones : Zones) (start_at end_at : Datetime) (break_minutes : BreakValue) (timezone : String)
    (shift_type : Text) (s : Shift)
    → make_shift zones start_at end_at break_minutes timezone shift_type ≡ ok s
    → IsAccepted zones start_at end_at break_minutes timezone shift_type s
unfolding make_shift
accepts zones (aware a) (aware b) (minutes n) tz ty s h = ground arith
accepts zones (aware a) (aware b) (minus zero) tz ty s h = ground arith
accepts zones (aware a) (aware b) br tz ty s h = ground arith
accepts zones st en br tz ty s h = ground arith

is_accepted :
    (zones : Zones) (start_at end_at : Datetime) (break_minutes : BreakValue) (timezone : String)
    (shift_type : Text) (s : Shift)
    → IsAccepted zones start_at end_at break_minutes timezone shift_type s
    → make_shift zones start_at end_at break_minutes timezone shift_type ≡ ok s
unfolding make_shift
is_accepted zones st en br tz ty s a = ground arith

-- A shift is accepted exactly when its instants are aware and in order, its type is not blank, its
-- zone is known, and its break is a whole number of minutes that fits in the shift and in a day.
pub make_shift_iff :
    (zones : Zones) (start_at end_at : Datetime) (break_minutes : BreakValue) (timezone : String)
    (shift_type : Text) (s : Shift)
    → (make_shift zones start_at end_at break_minutes timezone shift_type ≡ ok s)
      ↔ IsAccepted zones start_at end_at break_minutes timezone shift_type s
make_shift_iff zones st en br tz ty s =
    (accepts zones st en br tz ty s, is_accepted zones st en br tz ty s)

-- The paid time of an accepted shift and its break make up the time from its start to its end, and
-- the paid time is at most that time.
pub paid_duration-add-break :
    (zones : Zones) (start_at end_at : Datetime) (break_minutes : BreakValue) (timezone : String)
    (shift_type : Text) (s : Shift)
    → make_shift zones start_at end_at break_minutes timezone shift_type ≡ ok s
    → (s.start_at + s.break_minutes * us_per_minute + paid_duration s ≡ s.end_at)
      × (paid_duration s ≤ elapsed_duration s)
unfolding paid_duration elapsed_duration
paid_duration-add-break zones st en br tz ty s h =
    let a = accepts zones st en br tz ty s h in (omega (arith, a.fits), omega arith)
