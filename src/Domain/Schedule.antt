-- ===== src/Domain/Schedule.antt =====
-- backend/app/domain/schedule.py: a validated shift, a validated pay rate, and the pay of a shift.
pub mod Hours
pub mod Pay
pub mod Validation
use shiftmate_web.Prelude.{
  ℕ, zero, suc, ◌+◌, ◌-◌, ◌*◌, ◌<◌, ◌≤◌, ◌^◌, Bool, true, false, ◌&&◌, ◌||◌, not, Option, none,
  some, List, [], ◌∷◌, String, ltb, leb, ◌==◌, filter, if◌then◌else◌,
}
use shiftmate_web.Prelude.Result.{Result, ok, raise, ◌>>=◌, ◌>>◌, raise_if, or_raise}
use shiftmate_web.Prelude.Text.{Text, is_blank}
use shiftmate_web.Domain.Zone.{Date, Zones, Datetime, naive, aware, date_of, us_per_minute}
use shiftmate_web.Domain.Decimal.{Decimal, multiply, quantize_cents}
unfoldable pub use Hours.{duration_hours}

-- `ScheduleValidationError` and its subclasses, by their messages; `invalid_operation` is
-- `decimal.InvalidOperation`, which is no `ScheduleValidationError`.
pub data ScheduleError : Type 0 where
  naive_timestamp empty_shift_type bad_break unknown_timezone end_before_start : ScheduleError
  break_too_long rate_not_positive rate_end_before_start : ScheduleError
  pay_rate_not_found overlapping_pay_rates work_date_mismatch invalid_operation : ScheduleError

-- A Python value where an `int` of minutes is expected.
pub data BreakValue : Type 0 where
  minutes minus : ℕ → BreakValue
  boolean : Bool → BreakValue
  not_integer : BreakValue

-- A `Decimal` that a caller gives: finite with its sign, or an infinity or no number.
pub data RateValue : Type 0 where
  plus minus_of : Decimal → RateValue
  not_finite : RateValue

-- What `__post_init__` has let through; the instants are UTC.
pub record Shift : Type 0 where
  pub start_at : ℕ
  pub end_at : ℕ
  pub break_minutes : ℕ
  pub timezone : String
  pub shift_type : Text

pub record PayRate : Type 0 where
  pub hourly_rate : Decimal
  pub effective_from : Date
  pub effective_to : Option Date

pub record ShiftCalculation : Type 0 where
  pub work_date : Date
  pub elapsed_duration : ℕ
  pub paid_duration : ℕ
  pub hourly_rate : Decimal
  pub estimated_cents : ℕ

-- `_is_aware`, with the instant.
pub instant_of : Datetime → Option ℕ
instant_of (naive _) = none
instant_of (aware t) = some t

-- The test on `break_minutes`, with the number that passes it.
pub break_of : BreakValue → Option ℕ
break_of (minutes n) = if ltb 1440 n then none else some n
break_of (minus zero) = some 0
break_of (minus (suc _)) = none
break_of (boolean _) = none
break_of not_integer = none

-- `_load_timezone`.
load_timezone : Zones → String → Option String
load_timezone zones name = if zones.known name then some name else none

-- `Shift(...)` with its `__post_init__`.
unfoldable pub make_shift :
    Zones → Datetime → Datetime → BreakValue → String → Text → Result ScheduleError Shift
unfolding instant_of break_of load_timezone
make_shift zones start_at end_at break_minutes timezone shift_type = do
  start_utc ← or_raise (instant_of start_at) naive_timestamp
  end_utc ← or_raise (instant_of end_at) naive_timestamp
  raise_if (is_blank shift_type) empty_shift_type
  break_number ← or_raise (break_of break_minutes) bad_break
  zone ← or_raise (load_timezone zones timezone) unknown_timezone
  raise_if (leb end_utc start_utc) end_before_start
  raise_if (ltb (end_utc - start_utc) (break_number * us_per_minute)) break_too_long
  ok (record {
    start_at = start_utc;
    end_at = end_utc;
    break_minutes = break_number;
    timezone = zone;
    shift_type = shift_type;
  })

-- `Shift.work_date`.
unfoldable pub work_date : Zones → Shift → Date
work_date zones s = date_of (zones.to_local s.timezone s.start_at)

-- `Shift.elapsed_duration`, in microseconds.
unfoldable pub elapsed_duration : Shift → ℕ
elapsed_duration s = s.end_at - s.start_at

-- `Shift.paid_duration`.
unfoldable pub paid_duration : Shift → ℕ
unfolding elapsed_duration
paid_duration s = elapsed_duration s - s.break_minutes * us_per_minute

-- `effective_to is not None and effective_to < effective_from`.
unfoldable pub ends_early : Date → Option Date → Bool
ends_early from none = false
ends_early from (some to) = ltb to from

-- `not hourly_rate.is_finite() or hourly_rate <= 0`, with the rate that passes.
pub positive_rate : RateValue → Option Decimal
positive_rate (plus d) = if d.coefficient == 0 then none else some d
positive_rate (minus_of d) = none
positive_rate not_finite = none

-- `PayRate(...)` with its `__post_init__`.
unfoldable pub make_pay_rate : RateValue → Date → Option Date → Result ScheduleError PayRate
unfolding ends_early positive_rate
make_pay_rate rate from to = do
  hourly ← or_raise (positive_rate rate) rate_not_positive
  raise_if (ends_early from to) rate_end_before_start
  ok (record { hourly_rate = hourly; effective_from = from; effective_to = to })

-- `effective_to is None or work_date <= effective_to`.
unfoldable pub until : Date → Option Date → Bool
until day none = true
until day (some to) = leb day to

-- `PayRate.applies_on`.
unfoldable pub applies_on : PayRate → Date → Bool
unfolding until
applies_on rate day = leb rate.effective_from day && until day rate.effective_to

-- `(paid_hours * hourly_rate).quantize(...)`.
unfoldable pub estimated_pay : ℕ → Decimal → Option ℕ
estimated_pay paid rate = quantize_cents (multiply (duration_hours paid) rate)

-- The tests on `matching_rates`.
unfoldable pub the_rate : List PayRate → Result ScheduleError PayRate
the_rate [] = raise pay_rate_not_found
the_rate (rate ∷ []) = ok rate
the_rate (_ ∷ _ ∷ _) = raise overlapping_pay_rates

unfoldable pub calculate_shift :
    Zones → Shift → List PayRate → Result ScheduleError ShiftCalculation
unfolding work_date applies_on the_rate elapsed_duration paid_duration estimated_pay
calculate_shift zones shift pay_rates = do
  rate ← the_rate (filter (λ rate. applies_on rate (work_date zones shift)) pay_rates)
  cents ← or_raise (estimated_pay (paid_duration shift) rate.hourly_rate) invalid_operation
  ok (record {
    work_date = work_date zones shift;
    elapsed_duration = elapsed_duration shift;
    paid_duration = paid_duration shift;
    hourly_rate = rate.hourly_rate;
    estimated_cents = cents;
  })
