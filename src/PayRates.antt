-- ===== src/PayRates.antt =====
-- backend/app/repositories/pay_rates.py and backend/app/services/pay_rates.py.
pub mod Periods
pub mod Outcomes
pub mod Overlap
pub mod Coverage
pub mod Rates
mod Tests
use shiftmate_web.Prelude.{
  ℕ, ◌≤◌, Bool, true, false, not, ◌&&◌, ◌||◌, Option, none, some, List, [], ◌∷◌, ◌++◌, leb, ltb,
  ◌==◌, any, sort_by, if◌then◌else◌,
}
use shiftmate_web.Prelude.Result.{Result, ok, raise, ◌>>=◌, ◌>>◌, raise_if, or_raise, map_error}
use shiftmate_web.Domain.Zone.{Date}
use shiftmate_web.Domain.Decimal.{Decimal}
use shiftmate_web.Domain.Schedule.{
  ScheduleError, PayRate, RateValue, plus, minus_of, not_finite, make_pay_rate, until,
}
use shiftmate_web.Database.{Db, Uuid, ShiftRecord, PayRateRecord, NewPayRate}
use shiftmate_web.Database.Rows.{select, update, delete, has_id}

-- The errors of the service: `ProfileNotFoundError`, `PayRateServiceError` with the message of the
-- rule, and its subclasses.
pub data PayRateError : Type 0 where
  profile_not_found pay_rate_overlap pay_rate_not_found pay_rate_in_use : PayRateError
  invalid_rate : ScheduleError → PayRateError

abbrev pub rate_id : PayRateRecord → Uuid
rate_id r = r.id

-- `SELECT ... FROM pay_rates WHERE id = :pay_rate_id`.
unfoldable pub get_pay_rate : Uuid → Db → Option PayRateRecord
get_pay_rate i db = select rate_id i db.pay_rates

-- The condition of `has_overlap`: an open end is `infinity`.
unfoldable pub overlaps : NewPayRate → PayRateRecord → Bool
unfolding until
overlaps new r = until r.effective_from new.effective_to && until new.effective_from r.effective_to

unfoldable pub has_overlap : NewPayRate → Option Uuid → Db → Bool
unfolding overlaps
has_overlap new none db = any (overlaps new) db.pay_rates
has_overlap new (some i) db = any (λ r. overlaps new r && not (r.id == i)) db.pay_rates

-- `INSERT INTO pay_rates ... RETURNING`.
unfoldable pub insert_pay_rate : Uuid → ℕ → NewPayRate → Db → PayRateRecord × Db
insert_pay_rate new_id now new db =
    let row : PayRateRecord = record {
      id = new_id;
      hourly_rate = new.hourly_rate;
      effective_from = new.effective_from;
      effective_to = new.effective_to;
      created_at = now;
      updated_at = now;
    } in
    (row, record db { pay_rates = row ∷ db.pay_rates })

-- The dates of a rate, as the conditions on `work_date` spell them.
unfoldable pub covers : Date → Option Date → Date → Bool
unfolding until
covers from to day = leb from day && until day to

-- `work_date < :replacement_from OR work_date > :replacement_to`.
unfoldable pub outside : Date → Option Date → Date → Bool
outside from none day = ltb day from
outside from (some to) day = ltb day from || ltb to day

unfoldable pub has_shifts_outside_period : PayRateRecord → NewPayRate → Db → Bool
unfolding covers outside
has_shifts_outside_period current new db =
    any
      (λ s.
        covers current.effective_from current.effective_to s.work_date
        && outside new.effective_from new.effective_to s.work_date)
      db.shifts

unfoldable pub has_shifts : PayRateRecord → Db → Bool
unfolding covers
has_shifts r db = any (λ s. covers r.effective_from r.effective_to s.work_date) db.shifts

-- The row that `UPDATE pay_rates SET ...` leaves.
abbrev pub replaced : ℕ → NewPayRate → PayRateRecord → PayRateRecord
replaced now new r = record r {
  hourly_rate = new.hourly_rate;
  effective_from = new.effective_from;
  effective_to = new.effective_to;
  updated_at = now;
}

-- `UPDATE pay_rates SET ... WHERE id = :pay_rate_id RETURNING`.
unfoldable pub replace_pay_rate : Uuid → ℕ → NewPayRate → Db → Option (PayRateRecord × Db)
replace_pay_rate i now new db = elim (select rate_id i db.pay_rates) [
  | none ↦ none
  | some r ↦ some (
    replaced now new r,
    record db { pay_rates = update rate_id i (replaced now new) db.pay_rates },
  )
]

-- `DELETE FROM pay_rates WHERE id = :pay_rate_id RETURNING id`.
unfoldable pub remove_pay_rate : Uuid → Db → Bool × Db
remove_pay_rate i db =
    (has_id rate_id i db.pay_rates, record db { pay_rates = delete rate_id i db.pay_rates })

-- `CreatePayRateCommand`.
pub record CreatePayRateCommand : Type 0 where
  pub hourly_rate : RateValue
  pub effective_from : Date
  pub effective_to : Option Date

-- `UpdatePayRateCommand`; `effective_to` counts only where it is supplied.
pub record UpdatePayRateCommand : Type 0 where
  pub hourly_rate : Option RateValue
  pub effective_from : Option Date
  pub effective_to : Option Date
  pub effective_to_supplied : Bool

-- `command.hourly_rate or current.hourly_rate`: a rate of zero is false in Python.
unfoldable pub rate_or : Option RateValue → Decimal → RateValue
rate_or none d = plus d
rate_or (some (plus e)) d = if e.coefficient == 0 then plus d else plus e
rate_or (some (minus_of e)) d = if e.coefficient == 0 then plus d else minus_of e
rate_or (some not_finite) d = not_finite

unfoldable pub date_or : Option Date → Date → Date
date_or none d = d
date_or (some e) d = e

abbrev pub to_new : PayRate → NewPayRate
to_new r = record {
  hourly_rate = r.hourly_rate;
  effective_from = r.effective_from;
  effective_to = r.effective_to;
}

abbrev pub profile_exists : Db → Bool
profile_exists db = elim db.profile [ none ↦ false | some p ↦ true ]

-- The statements of `create_pay_rate` after the validation.
place_pay_rate : Uuid → ℕ → NewPayRate → Db → Result PayRateError (PayRateRecord × Db)
place_pay_rate new_id now new db = do
  raise_if (has_overlap new none db) pay_rate_overlap
  ok (insert_pay_rate new_id now new db)

-- `PayRateService.create_pay_rate`. The advisory lock makes the writers of one owner take turns,
-- so the operation is one step on the tables.
unfoldable pub create_pay_rate :
    Uuid → ℕ → CreatePayRateCommand → Db → Result PayRateError (PayRateRecord × Db)
unfolding place_pay_rate
create_pay_rate new_id now command db = do
  raise_if (not (profile_exists db)) profile_not_found
  validated ←
      map_error invalid_rate
        (make_pay_rate command.hourly_rate command.effective_from command.effective_to)
  place_pay_rate new_id now (to_new validated) db

-- The `PayRate(...)` of `update_pay_rate`.
patched : UpdatePayRateCommand → PayRateRecord → Result ScheduleError PayRate
patched command current =
    make_pay_rate (rate_or command.hourly_rate current.hourly_rate)
      (date_or command.effective_from current.effective_from)
      (if command.effective_to_supplied then command.effective_to else current.effective_to)

-- The statements of `update_pay_rate` after the validation.
exchange_pay_rate :
    Uuid → ℕ → PayRateRecord → NewPayRate → Db → Result PayRateError (PayRateRecord × Db)
exchange_pay_rate i now current new db = do
  raise_if (has_overlap new (some i) db) pay_rate_overlap
  raise_if (has_shifts_outside_period current new db) pay_rate_in_use
  or_raise (replace_pay_rate i now new db) pay_rate_not_found

-- `PayRateService.update_pay_rate`.
unfoldable pub update_pay_rate :
    Uuid → ℕ → UpdatePayRateCommand → Db → Result PayRateError (PayRateRecord × Db)
unfolding patched exchange_pay_rate
update_pay_rate i now command db = do
  current ← or_raise (get_pay_rate i db) pay_rate_not_found
  validated ← map_error invalid_rate (patched command current)
  exchange_pay_rate i now current (to_new validated) db

-- The last statement of `delete_pay_rate`.
abbrev pub finish_delete : Bool × Db → Result PayRateError (Unit {0} × Db)
finish_delete (done, db) = if done then ok (tt, db) else raise pay_rate_not_found

-- `PayRateService.delete_pay_rate`.
unfoldable pub delete_pay_rate : Uuid → Db → Result PayRateError (Unit {0} × Db)
delete_pay_rate i db = do
  current ← or_raise (get_pay_rate i db) pay_rate_not_found
  raise_if (has_shifts current db) pay_rate_in_use
  finish_delete (remove_pay_rate i db)

-- `ORDER BY effective_from, id`.
abbrev pub rate_before : PayRateRecord → PayRateRecord → Bool
rate_before a b =
    ltb a.effective_from b.effective_from || (a.effective_from == b.effective_from && leb a.id b.id)

-- `list_pay_rates`.
abbrev pub list_pay_rates : Db → List PayRateRecord
list_pay_rates db = sort_by rate_before db.pay_rates
