-- ===== src/PayRates/Outcomes.antt =====
-- What a successful operation of backend/app/services/pay_rates.py has tested and leaves.
use shiftmate_web.Prelude.{ℕ, ◌≡◌, false, not, none, some, arith}
use shiftmate_web.Prelude.Result.{
  ok, ◌>>=◌, ◌>>◌, raise_if, map_error, raise_if-eq-ok, or_raise-eq-ok, map_error-eq-ok,
}
use shiftmate_web.Domain.Schedule.{make_pay_rate}
use shiftmate_web.Database.{Db, PayRateRecord, NewPayRate}
use shiftmate_web.Database.Rows.{select, update, delete}
use shiftmate_web.PayRates.{
  has_overlap, insert_pay_rate, replaced, rate_id, replace_pay_rate, remove_pay_rate,
  CreatePayRateCommand, UpdatePayRateCommand, create_pay_rate, update_pay_rate, delete_pay_rate,
  to_new, profile_exists, get_pay_rate, has_shifts, has_shifts_outside_period, profile_not_found,
  pay_rate_not_found, pay_rate_in_use, invalid_rate, patched, place_pay_rate, exchange_pay_rate,
  finish_delete,
}

-- What a successful operation has tested, and what it leaves.
module _ (db : Db) where
  pub create_pay_rate-eq-ok :
      (new_id now : ℕ) (command : CreatePayRateCommand) {row : PayRateRecord} {db' : Db}
      → create_pay_rate new_id now command db ≡ ok (row, db')
      → (new : NewPayRate) × (has_overlap new none db ≡ false)
        × (insert_pay_rate new_id now new db ≡ (row, db'))
  unfolding create_pay_rate
  create_pay_rate-eq-ok new_id now command h =
      let (_, h₁) = raise_if-eq-ok (not (profile_exists db)) profile_not_found _ h in
      let (v, _, h₂) =
        map_error-eq-ok invalid_rate
          (make_pay_rate command.hourly_rate command.effective_from command.effective_to)
          (λ v. place_pay_rate new_id now (to_new v) db) h₁ in
      (to_new v, ground arith, ground arith)

  exchange_pay_rate-eq-ok :
      (i now : ℕ) (current : PayRateRecord) (new : NewPayRate) {row : PayRateRecord} {db' : Db}
      → exchange_pay_rate i now current new db ≡ ok (row, db')
      → (has_overlap new (some i) db ≡ false)
        × (has_shifts_outside_period current new db ≡ false)
        × (db' ≡ record db { pay_rates = update rate_id i (replaced now new) db.pay_rates })
  unfolding exchange_pay_rate replace_pay_rate
  exchange_pay_rate-eq-ok i now current new h = ground arith

  pub update_pay_rate-eq-ok :
      (i now : ℕ) (command : UpdatePayRateCommand) {row : PayRateRecord} {db' : Db}
      → update_pay_rate i now command db ≡ ok (row, db')
      → (current : PayRateRecord) × (new : NewPayRate) × (select rate_id i db.pay_rates
          ≡ some current)
        × (has_overlap new (some i) db ≡ false)
        × (has_shifts_outside_period current new db ≡ false)
        × (db' ≡ record db { pay_rates = update rate_id i (replaced now new) db.pay_rates })
  unfolding update_pay_rate get_pay_rate
  update_pay_rate-eq-ok i now command h =
      let (current, found, h₁) =
        or_raise-eq-ok (select rate_id i db.pay_rates) pay_rate_not_found
          (λ c. map_error invalid_rate (patched command c) >>= λ v.
            exchange_pay_rate i now c (to_new v) db)
          h in
      let (v, _, h₂) =
        map_error-eq-ok invalid_rate (patched command current)
          (λ v. exchange_pay_rate i now current (to_new v) db) h₁ in
      let (free, unused, left) = exchange_pay_rate-eq-ok i now current (to_new v) h₂ in
      (current, to_new v, found, free, unused, left)

  pub delete_pay_rate-eq-ok :
      (i : ℕ) {u : Unit {0}} {db' : Db}
      → delete_pay_rate i db ≡ ok (u, db')
      → (current : PayRateRecord) × (select rate_id i db.pay_rates ≡ some current)
        × (has_shifts current db ≡ false)
        × (db' ≡ record db { pay_rates = delete rate_id i db.pay_rates })
  unfolding delete_pay_rate get_pay_rate remove_pay_rate
  delete_pay_rate-eq-ok i h =
      let (current, found, h₁) =
        or_raise-eq-ok (select rate_id i db.pay_rates) pay_rate_not_found
          (λ c. raise_if (has_shifts c db) pay_rate_in_use >> finish_delete (remove_pay_rate i db))
          h in
      (current, found, ground arith, ground arith)
