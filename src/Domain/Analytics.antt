-- ===== src/Domain/Analytics.antt =====
-- backend/app/domain/analytics.py: the summary of many shifts.
pub mod Runs
pub mod Totals
use shiftmate_web.Prelude.{
  ℕ, suc, ◌+◌, ◌-◌, max, Bool, true, false, ◌||◌, Option, none, some, List, [], ◌∷◌, ◌==◌, leb, ltb,
  length, sort_by, any, if◌then◌else◌,
}
use shiftmate_web.Prelude.Result.{Result, ok, raise, ◌>>=◌}
use shiftmate_web.Prelude.Text.{Text, text_eq, text_leb}
use shiftmate_web.Domain.Zone.{Date, Zones, weekday}
use shiftmate_web.Domain.Decimal.{Decimal, add}
use shiftmate_web.Domain.Schedule.{
  ScheduleError, Shift, PayRate, ShiftCalculation, calculate_shift, duration_hours,
}

-- A `dict` with a count or a duration for each key, in the order of insertion.
abbrev pub Counts : Type 0 → Type 0
Counts K = List (K × ℕ)

-- `d[key] = d.get(key, 0) + amount`.
unfoldable pub bump : {K : Type 0} → (K → K → Bool) → K → ℕ → Counts K → Counts K
bump eq key amount [] = (key, amount) ∷ []
bump eq key amount ((k, n) ∷ d) =
    if eq key k then (k, n + amount) ∷ d else (k, n) ∷ bump eq key amount d

-- `work_dates.add(day)`.
unfoldable pub add_date : Date → List Date → List Date
add_date day days = if any (λ d. day == d) days then days else day ∷ days

-- `current + 1 if previous and work_date - previous == timedelta(1) else 1`.
unfoldable pub next_run : ℕ → Option Date → Date → ℕ
next_run current none day = 1
next_run current (some p) day = if day - p == 1 then current + 1 else 1

-- The loop over `sorted(work_dates)`.
unfoldable pub scan : ℕ → ℕ → Option Date → List Date → ℕ
scan longest current previous [] = longest
scan longest current previous (day ∷ days) =
    let next = next_run current previous day in scan (max longest next) next (some day) days

-- `_longest_consecutive_run`; the dates of a set are distinct.
unfoldable pub longest_consecutive_run : List Date → ℕ
unfolding scan next_run
longest_consecutive_run work_dates = scan 0 0 none (sort_by leb work_dates)

pub record ScheduleSummary : Type 0 where
  pub shift_count : ℕ
  pub total_paid_duration : ℕ
  pub estimated_pay : Decimal
  pub shift_type_counts : Counts Text
  pub weekly_paid_durations : Counts Date
  pub longest_consecutive_days : ℕ

-- The variables of the loop over the shifts.
pub record Tally : Type 0 where
  pub total_paid : ℕ
  pub pay : Decimal
  pub type_counts : Counts Text
  pub weekly : Counts Date
  pub work_dates : List Date

abbrev pub empty_tally : Tally
empty_tally = record {
  total_paid = 0;
  pay = record { coefficient = 0; scale = 2 };
  type_counts = [];
  weekly = [];
  work_dates = [];
}

-- `work_date - timedelta(days=work_date.weekday())`.
unfoldable pub week_start : Date → Date
week_start day = day - weekday day

-- One round of the loop.
unfoldable pub tally_shift : Text → ShiftCalculation → Tally → Tally
unfolding bump add_date week_start add
tally_shift shift_type c t = record {
  total_paid = t.total_paid + c.paid_duration;
  pay = add t.pay (record { coefficient = c.estimated_cents; scale = 2 });
  type_counts = bump text_eq shift_type 1 t.type_counts;
  weekly = bump ◌==◌ (week_start c.work_date) c.paid_duration t.weekly;
  work_dates = add_date c.work_date t.work_dates;
}

unfoldable pub tally_shifts : Zones → List PayRate → List Shift → Tally → Result ScheduleError Tally
tally_shifts zones pay_rates [] t = ok t
tally_shifts zones pay_rates (s ∷ rest) t = do
  c ← calculate_shift zones s pay_rates
  tally_shifts zones pay_rates rest (tally_shift s.shift_type c t)

-- The value that the function returns after the loop.
abbrev pub summarize : List Shift → Tally → ScheduleSummary
summarize shifts t = record {
  shift_count = length shifts;
  total_paid_duration = t.total_paid;
  estimated_pay = t.pay;
  shift_type_counts = sort_by (λ a b. text_leb a.0 b.0) t.type_counts;
  weekly_paid_durations = sort_by (λ a b. leb a.0 b.0) t.weekly;
  longest_consecutive_days = longest_consecutive_run t.work_dates;
}

unfoldable pub calculate_schedule_summary :
    Zones → List Shift → List PayRate → Result ScheduleError ScheduleSummary
unfolding tally_shifts tally_shift longest_consecutive_run
calculate_schedule_summary zones shifts pay_rates = do
  t ← tally_shifts zones pay_rates shifts empty_tally
  ok (summarize shifts t)
