-- ===== src/Analytics/Tests.antt =====
-- The theorem on backend/app/services/analytics.py at a concrete input.
use shiftmate_web.Prelude.{◌≡◌, refl, ◌⊎◌, true, false, some, arith}
use shiftmate_web.Prelude.Result.{ok, raise}
use shiftmate_web.Domain.Schedule.{until, ends_early}
use shiftmate_web.PayRates.{covers}
use shiftmate_web.PayRates.Rates.{IsRate}
use shiftmate_web.PayRates.Coverage.{IsPriced}
use shiftmate_web.Shifts.{select_shifts}
use shiftmate_web.Shifts.Stored.{AllStored}
use shiftmate_web.Analytics.{AnalyticsSummary, arithmetic, get_summary}
use shiftmate_web.Analytics.Dependable.{any_too_long, get_summary-returns}
use shiftmate_web.Examples.{utc, db, pay_rate}

db_stored : AllStored utc "UTC" db
db_stored = (
  (
    record {
      typed = refl;
      a_day = omega arith;
      known = refl;
      ordered = omega arith;
      fits = omega arith;
      dated = refl;
    },
    tt,
  ),
  refl,
)

is_rate : IsRate pay_rate
unfolding ends_early
is_rate = record { positive = λ e. absurd (omega (arith, e)); ordered = refl }

db-IsPriced : IsPriced db.pay_rates db.shifts
unfolding covers until
db-IsPriced = (refl, tt)

get_summary-returns_example :
    ((any_too_long db.pay_rates (select_shifts (some 1) (some 31) db) ≡ true)
      × (get_summary utc 1 31 db ≡ raise arithmetic))
    ⊎ ((any_too_long db.pay_rates (select_shifts (some 1) (some 31) db) ≡ false)
        × ((s : AnalyticsSummary) × (get_summary utc 1 31 db ≡ ok s)))
get_summary-returns_example =
    get_summary-returns utc "UTC" 1 31 db db_stored (is_rate, tt) db-IsPriced (omega arith)
      (omega arith)
