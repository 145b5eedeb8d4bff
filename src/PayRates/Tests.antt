-- ===== src/PayRates/Tests.antt =====
-- The theorems on backend/app/services/pay_rates.py at concrete inputs.
use shiftmate_web.Prelude.{◌≡◌, refl, true, none, some, [], ◌∷◌, arith, All}
use shiftmate_web.Prelude.Result.{ok}
use shiftmate_web.Domain.Schedule.{plus, until, make_pay_rate, ends_early}
use shiftmate_web.Database.{Db, PayRateRecord}
use shiftmate_web.PayRates.{
  CreatePayRateCommand, UpdatePayRateCommand, create_pay_rate, place_pay_rate, update_pay_rate,
  get_pay_rate, patched, exchange_pay_rate, replace_pay_rate, delete_pay_rate, remove_pay_rate,
  insert_pay_rate, has_overlap, overlaps, covers, outside, has_shifts, has_shifts_outside_period,
  rate_or, date_or,
}
use shiftmate_web.PayRates.Periods.{IsSound}
use shiftmate_web.PayRates.Overlap.{create_pay_rate-IsSound, update_pay_rate-IsSound}
use shiftmate_web.PayRates.Coverage.{
  IsPriced, create_pay_rate-IsPriced, update_pay_rate-IsPriced, delete_pay_rate-IsPriced,
}
use shiftmate_web.PayRates.Rates.{IsRate, create_pay_rate-IsRate, update_pay_rate-IsRate}
use shiftmate_web.Examples.{db, pay_rate, shift}

one-IsSound : (rate : PayRateRecord) → IsSound (rate ∷ [])
unfolding covers
one-IsSound rate = record { keyed = (refl, tt); one_rate = λ day. ground arith }

abbrev shorter : UpdatePayRateCommand
shorter = record {
  hourly_rate = none;
  effective_from = some 2;
  effective_to = some 5;
  effective_to_supplied = true;
}

abbrev shortened : PayRateRecord
shortened = record pay_rate { effective_from = 2; effective_to = some 5; updated_at = 9 }

abbrev after_update : Db
after_update = record db { pay_rates = shortened ∷ [] }

run_update : update_pay_rate 1 9 shorter db ≡ ok (shortened, after_update)
unfolding update_pay_rate get_pay_rate patched rate_or date_or make_pay_rate exchange_pay_rate
    has_overlap overlaps has_shifts_outside_period covers outside until replace_pay_rate
run_update = refl

db-IsPriced : IsPriced db.pay_rates db.shifts
unfolding covers until
db-IsPriced = (refl, tt)

update_pay_rate-IsPriced_example : IsPriced after_update.pay_rates after_update.shifts
update_pay_rate-IsPriced_example =
    update_pay_rate-IsPriced db (one-IsSound pay_rate) db-IsPriced 1 9 shorter run_update

update_pay_rate-IsSound_example : IsSound after_update.pay_rates
update_pay_rate-IsSound_example =
    update_pay_rate-IsSound db (one-IsSound pay_rate) 1 9 shorter run_update

abbrev next_rate : CreatePayRateCommand
next_rate = record {
  hourly_rate = plus (record { coefficient = 25_000; scale = 2 });
  effective_from = 11;
  effective_to = none;
}

abbrev created : PayRateRecord
created = record {
  id = 2;
  hourly_rate = record { coefficient = 25_000; scale = 2 };
  effective_from = 11;
  effective_to = none;
  created_at = 9;
  updated_at = 9;
}

abbrev after_create : Db
after_create = record db { pay_rates = created ∷ pay_rate ∷ [] }

run_create : create_pay_rate 2 9 next_rate db ≡ ok (created, after_create)
unfolding create_pay_rate make_pay_rate place_pay_rate has_overlap overlaps until insert_pay_rate
run_create = refl

create_pay_rate-IsSound_example : IsSound after_create.pay_rates
create_pay_rate-IsSound_example =
    create_pay_rate-IsSound db (one-IsSound pay_rate) 2 9 next_rate refl run_create

create_pay_rate-IsPriced_example : IsPriced after_create.pay_rates after_create.shifts
create_pay_rate-IsPriced_example =
    create_pay_rate-IsPriced db (one-IsSound pay_rate) db-IsPriced 2 9 next_rate run_create

pay_rate-IsRate : IsRate pay_rate
unfolding ends_early
pay_rate-IsRate = record { positive = λ e. absurd (omega (arith, e)); ordered = refl }

is_rate : All IsRate db.pay_rates
is_rate = (pay_rate-IsRate, tt)

create_pay_rate-IsRate_example : All IsRate after_create.pay_rates
create_pay_rate-IsRate_example = create_pay_rate-IsRate db is_rate 2 9 next_rate run_create

update_pay_rate-IsRate_example : All IsRate after_update.pay_rates
update_pay_rate-IsRate_example = update_pay_rate-IsRate db is_rate 1 9 shorter run_update

-- A rate from the thirtieth day on, with a shift on the fortieth: the first rate is not in use.
abbrev later : PayRateRecord
later = record pay_rate { id = 3; effective_from = 30; effective_to = none }

abbrev unused : Db
unused = record db {
  shifts = record shift { id = 8; work_date = 40 } ∷ [];
  pay_rates = pay_rate ∷ later ∷ [];
}

abbrev after_delete : Db
after_delete = record unused { pay_rates = later ∷ [] }

unused-IsSound : IsSound unused.pay_rates
unfolding covers until
unused-IsSound = record { keyed = (refl, (refl, tt)); one_rate = λ day. ground arith }

unused-IsPriced : IsPriced unused.pay_rates unused.shifts
unfolding covers until
unused-IsPriced = (refl, tt)

run_delete : delete_pay_rate 1 unused ≡ ok (tt, after_delete)
unfolding delete_pay_rate get_pay_rate has_shifts covers until remove_pay_rate
run_delete = refl

delete_pay_rate-IsPriced_example : IsPriced after_delete.pay_rates after_delete.shifts
delete_pay_rate-IsPriced_example =
    delete_pay_rate-IsPriced unused unused-IsSound unused-IsPriced 1 run_delete
