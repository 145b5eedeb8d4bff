-- ===== src/Domain/Tests.antt =====
-- The theorems on backend/app/domain at concrete inputs, and a pay that is off by a cent.
use shiftmate_web.Prelude.{ℕ, ◌+◌, ◌*◌, ◌/◌, ◌≤◌, ◌≡◌, refl, ◌↔◌, some, none, List, [], ◌∷◌, arith}
use shiftmate_web.Prelude.Result.{ok}
use shiftmate_web.Prelude.Text.{codes}
use shiftmate_web.Domain.Zone.{Date, aware}
use shiftmate_web.Domain.Decimal.{
  Decimal, add, divide, long_division, strip, fix, multiply, quantize_cents,
}
use shiftmate_web.Domain.Schedule.{
  Shift, PayRate, minutes, make_shift, duration_hours, estimated_pay, calculate_shift, work_date,
  applies_on, until, the_rate, elapsed_duration, paid_duration,
}
use shiftmate_web.Domain.Schedule.Pay.{estimated_pay_exact}
use shiftmate_web.Domain.Schedule.Validation.{IsAccepted, make_shift_iff}
use shiftmate_web.Domain.Analytics.{
  ScheduleSummary, calculate_schedule_summary, tally_shifts, tally_shift, bump, add_date,
  week_start, longest_consecutive_run, scan, next_run,
}
use shiftmate_web.Domain.Analytics.Runs.{IsRun, longest_consecutive_run_exact}
use shiftmate_web.Domain.Analytics.Totals.{Sums, calculate_schedule_summary-Sums}
use shiftmate_web.Examples.{utc, hour}

sixty_five :
    duration_hours 3_900_000_000
    ≡ record { coefficient = 1_083_333_333_333_333_333_333_333_333; scale = 27 }
unfolding duration_hours add divide long_division strip fix
sixty_five = refl

abbrev rate : Decimal
rate = record { coefficient = 834; scale = 2 }

-- 65 minutes at 8.34 an hour are 9.035, and the code answers 9.03.
pay_of_sixty_five : estimated_pay 3_900_000_000 rate ≡ some 903
unfolding estimated_pay duration_hours add divide long_division strip fix multiply quantize_cents
pay_of_sixty_five = refl

estimated_pay_exact_example :
    estimated_pay (180_000_000 * 160) (record { coefficient = 20_000; scale = 2 })
    ≡ some ((160 * 20_000 + 10) / 20)
estimated_pay_exact_example = estimated_pay_exact 160 20_000 (omega arith) (omega arith)

abbrev days : List Date
days = 5 ∷ 3 ∷ 4 ∷ 9 ∷ []

longest_consecutive_run_exact_example :
    ((d : ℕ) × IsRun d (longest_consecutive_run days) days)
    × ((d n : ℕ) → IsRun d n days → n ≤ longest_consecutive_run days)
longest_consecutive_run_exact_example =
    longest_consecutive_run_exact days (refl, (refl, (refl, (refl, tt))))

abbrev eight : Shift
eight = record {
  start_at = 9 * hour;
  end_at = 17 * hour;
  break_minutes = 60;
  timezone = "UTC";
  shift_type = codes "day";
}

make_shift_iff_example :
    (make_shift utc (aware (9 * hour)) (aware (17 * hour)) (minutes 60) "UTC" (codes "day")
      ≡ ok eight)
    ↔ IsAccepted utc (aware (9 * hour)) (aware (17 * hour)) (minutes 60) "UTC" (codes "day") eight
make_shift_iff_example =
    make_shift_iff utc (aware (9 * hour)) (aware (17 * hour)) (minutes 60) "UTC" (codes "day") eight

made_eight :
    make_shift utc (aware (9 * hour)) (aware (17 * hour)) (minutes 60) "UTC" (codes "day")
    ≡ ok eight
unfolding make_shift
made_eight = refl

abbrev pay_rate : PayRate
pay_rate = record {
  hourly_rate = record { coefficient = 20_000; scale = 2 };
  effective_from = 1;
  effective_to = none;
}

abbrev shifts : List Shift
shifts = eight ∷ record eight { start_at = 33 * hour; end_at = 37 * hour; break_minutes = 0 } ∷ []

-- Seven hours on a Monday and four on the Tuesday, at 200.00 an hour.
abbrev summary : ScheduleSummary
summary = record {
  shift_count = 2;
  total_paid_duration = 11 * hour;
  estimated_pay = record { coefficient = 220_000; scale = 2 };
  shift_type_counts = (codes "day", 2) ∷ [];
  weekly_paid_durations = (1, 11 * hour) ∷ [];
  longest_consecutive_days = 2;
}

summarized : calculate_schedule_summary utc shifts (pay_rate ∷ []) ≡ ok summary
unfolding calculate_schedule_summary tally_shifts tally_shift bump add_date week_start
    longest_consecutive_run scan next_run calculate_shift work_date applies_on until the_rate
    elapsed_duration paid_duration estimated_pay duration_hours add divide long_division strip fix
    multiply quantize_cents
summarized = refl

calculate_schedule_summary-Sums_example : Sums utc (pay_rate ∷ []) shifts summary
calculate_schedule_summary-Sums_example =
    calculate_schedule_summary-Sums utc (pay_rate ∷ []) shifts summary summarized
