-- ===== src/Domain/Schedule/Hours.antt =====
-- `duration_hours` of backend/app/domain/schedule.py, over a duration in microseconds.
use shiftmate_web.Prelude.{ℕ, ◌/◌, ◌%◌}
use shiftmate_web.Domain.Zone.{us_per_second}
use shiftmate_web.Domain.Decimal.{Decimal, add, divide}

unfoldable pub duration_hours : ℕ → Decimal
duration_hours duration =
    let whole_seconds : Decimal = record { coefficient = duration / us_per_second; scale = 0 } in
    let microseconds : Decimal = record { coefficient = duration % us_per_second; scale = 0 } in
    let exact_seconds = add whole_seconds (divide microseconds us_per_second) in
    divide exact_seconds 3600
