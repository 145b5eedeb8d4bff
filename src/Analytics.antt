-- ===== src/Analytics.antt =====
-- backend/app/services/analytics.py: the dashboard's summary of the stored shifts of a date range.
pub mod Dependable
mod Tests
use shiftmate_web.Prelude.{
  ℕ, ◌-◌, Bool, true, false, not, Option, none, some, List, [], ◌∷◌, String, ltb, ◌==◌, sort_by,
  if◌then◌else◌,
}
use shiftmate_web.Prelude.Result.{
  Result, ok, raise, ◌>>=◌, ◌>>◌, raise_if, or_raise, map_error, traverse,
}
use shiftmate_web.Prelude.Text.{Text}
use shiftmate_web.Domain.Zone.{Date, Zones, aware}
use shiftmate_web.Domain.Decimal.{Decimal}
use shiftmate_web.Domain.Schedule.{
  ScheduleError, invalid_operation, work_date_mismatch, Shift, PayRate, minutes, plus, make_shift,
  make_pay_rate, work_date, duration_hours,
}
use shiftmate_web.Domain.Analytics.{Counts, ScheduleSummary, calculate_schedule_summary}
use shiftmate_web.Database.{Db, ShiftRecord, PayRateRecord, Profile}
use shiftmate_web.PayRates.{list_pay_rates}
use shiftmate_web.Shifts.{select_shifts}

-- `AnalyticsServiceError` by its messages, `ProfileNotFoundError`, `AnalyticsCalculationError` with
-- the rule that failed; an arithmetic error passes through.
pub data AnalyticsError : Type 0 where
  range_reversed range_too_long profile_not_found arithmetic : AnalyticsError
  calculation : ScheduleError → AnalyticsError

-- `except ScheduleValidationError`.
abbrev pub catch_schedule : ScheduleError → AnalyticsError
catch_schedule invalid_operation = arithmetic
catch_schedule e = calculation e

pub record AnalyticsSummary : Type 0 where
  pub date_from : Date
  pub date_to : Date
  pub timezone : String
  pub currency : Text
  pub shift_count : ℕ
  pub total_paid_hours : Decimal
  pub estimated_pay : Decimal
  pub shift_type_counts : Counts Text
  pub weekly_hours : List (Date × Decimal)
  pub longest_consecutive_days : ℕ

-- `weekly_paid_hours`.
abbrev pub hours_of : Counts Date → List (Date × Decimal)
hours_of [] = []
hours_of ((week, duration) ∷ rest) = (week, duration_hours duration) ∷ hours_of rest

module _ (zones : Zones) (timezone : String) where
  -- The `Shift(...)` of a stored row.
  abbrev pub stored_shift : ShiftRecord → Result ScheduleError Shift
  stored_shift r =
      make_shift zones (aware r.start_at) (aware r.end_at) (minutes r.break_minutes) timezone
        r.shift_type

  -- The loop that compares the work dates.
  unfoldable pub check_dates : List ShiftRecord → List Shift → Result ScheduleError (Unit {0})
  check_dates [] shifts = ok tt
  check_dates (r ∷ records) [] = ok tt
  check_dates (r ∷ records) (s ∷ shifts) =
      raise_if (not (r.work_date == work_date zones s)) work_date_mismatch
      >> check_dates records shifts

  -- The body of the `try`.
  unfoldable pub summarize_records :
      List ShiftRecord → List PayRateRecord → Result ScheduleError ScheduleSummary
  summarize_records records rate_records = do
    shifts ← traverse stored_shift records
    check_dates records shifts
    pay_rates ←
        traverse (λ r. make_pay_rate (plus r.hourly_rate) r.effective_from r.effective_to)
          rate_records
    calculate_schedule_summary zones shifts pay_rates

abbrev pub to_summary : Date → Date → Profile → ScheduleSummary → AnalyticsSummary
to_summary date_from date_to profile s = record {
  date_from = date_from;
  date_to = date_to;
  timezone = profile.timezone;
  currency = profile.currency;
  shift_count = s.shift_count;
  total_paid_hours = duration_hours s.total_paid_duration;
  estimated_pay = s.estimated_pay;
  shift_type_counts = s.shift_type_counts;
  weekly_hours = hours_of s.weekly_paid_durations;
  longest_consecutive_days = s.longest_consecutive_days;
}

-- `AnalyticsService.get_summary`.
unfoldable pub get_summary : Zones → Date → Date → Db → Result AnalyticsError AnalyticsSummary
get_summary zones date_from date_to db = do
  raise_if (ltb date_to date_from) range_reversed
  raise_if (ltb 365 (date_to - date_from)) range_too_long
  profile ← or_raise db.profile profile_not_found
  summary ← map_error catch_schedule (
      summarize_records zones profile.timezone (select_shifts (some date_from) (some date_to) db)
        (list_pay_rates db))
  ok (to_summary date_from date_to profile summary)
