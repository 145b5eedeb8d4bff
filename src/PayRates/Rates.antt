-- ===== src/PayRates/Rates.antt =====
-- The stored rates pass the rules of `PayRate` again: what backend/app/services/pay_rates.py validates.
use shiftmate_web.Prelude.{
  ℕ, ◌≡◌, ◌≢◌, false, not, Option, List, [], ◌∷◌, arith, ◌==◌, All, if◌then◌else◌, Bool-cases, inl,
  inr,
}
use shiftmate_web.Prelude.Result.{
  ok, ◌>>=◌, map_error, raise_if-eq-ok, or_raise-eq-ok, map_error-eq-ok,
}
use shiftmate_web.Domain.Zone.{Date}
use shiftmate_web.Domain.Schedule.{PayRate, RateValue, make_pay_rate, ends_early}
use shiftmate_web.Database.{Db, PayRateRecord, NewPayRate}
use shiftmate_web.Database.Rows.{select, update}
use shiftmate_web.PayRates.{
  CreatePayRateCommand, UpdatePayRateCommand, create_pay_rate, update_pay_rate, place_pay_rate,
  patched, exchange_pay_rate, replace_pay_rate, insert_pay_rate, get_pay_rate, replaced, rate_id,
  rate_or, date_or, to_new, profile_exists, profile_not_found, pay_rate_not_found, invalid_rate,
}

-- A stored rate passes the rules again.
pub record IsRate (r : PayRateRecord) : Type 0 where
  pub positive : r.hourly_rate.coefficient ≢ 0
  pub ordered : ends_early r.effective_from r.effective_to ≡ false

made-IsRate :
    (rate : RateValue) (from : Date) (to : Option Date) (v : PayRate)
    → make_pay_rate rate from to ≡ ok v
    → (v.hourly_rate.coefficient ≢ 0) × (ends_early v.effective_from v.effective_to ≡ false)
unfolding make_pay_rate
made-IsRate rate from to v h = ground arith

All-update :
    (P : PayRateRecord → Type 0) (i : ℕ) (f : PayRateRecord → PayRateRecord)
    (rows : List PayRateRecord)
    → ((r : PayRateRecord) → P (f r))
    → All P rows
    → All P (update rate_id i f rows)
All-update P i f [] new a = tt
All-update P i f (r ∷ rows) new a = elim (Bool-cases (r.id == i)) [
  | inl here ↦ rw here (new r, All-update P i f rows new a.1)
  | inr there ↦ rw there (a.0, All-update P i f rows new a.1)
]

placed :
    (new_id now : ℕ) (new : NewPayRate) (db : Db) {row : PayRateRecord} {db' : Db}
    → place_pay_rate new_id now new db ≡ ok (row, db')
    → db' ≡ (insert_pay_rate new_id now new db).1
unfolding place_pay_rate
placed new_id now new db h = ground arith

exchanged :
    (i now : ℕ) (current : PayRateRecord) (new : NewPayRate) (db : Db) {row : PayRateRecord}
    {db' : Db}
    → exchange_pay_rate i now current new db ≡ ok (row, db')
    → db'.pay_rates ≡ update rate_id i (replaced now new) db.pay_rates
unfolding exchange_pay_rate replace_pay_rate
exchanged i now current new db h = ground arith

module _ (db : Db) (rates : All IsRate db.pay_rates) where
  -- Where every stored rate is positive and does not end before it begins, every one still is so after
  -- a rate is created.
  pub create_pay_rate-IsRate :
      (new_id now : ℕ) (command : CreatePayRateCommand) {row : PayRateRecord} {db' : Db}
      → create_pay_rate new_id now command db ≡ ok (row, db')
      → All IsRate db'.pay_rates
  unfolding create_pay_rate insert_pay_rate
  create_pay_rate-IsRate new_id now command h =
      let (_, h₁) = raise_if-eq-ok (not (profile_exists db)) profile_not_found _ h in
      let (v, made, h₂) =
        map_error-eq-ok invalid_rate
          (make_pay_rate command.hourly_rate command.effective_from command.effective_to)
          (λ v. place_pay_rate new_id now (to_new v) db) h₁ in
      let (positive, ordered) =
        made-IsRate command.hourly_rate command.effective_from command.effective_to v made in
      rw (placed new_id now (to_new v) db h₂)
        (record { positive = positive; ordered = ordered }, rates)

  -- Where every stored rate is positive and does not end before it begins, every one still is so after
  -- an update.
  pub update_pay_rate-IsRate :
      (i now : ℕ) (command : UpdatePayRateCommand) {row : PayRateRecord} {db' : Db}
      → update_pay_rate i now command db ≡ ok (row, db')
      → All IsRate db'.pay_rates
  unfolding update_pay_rate get_pay_rate patched
  update_pay_rate-IsRate i now command h =
      let (current, _, h₁) =
        or_raise-eq-ok (select rate_id i db.pay_rates) pay_rate_not_found
          (λ c. map_error invalid_rate (patched command c) >>= λ v.
            exchange_pay_rate i now c (to_new v) db)
          h in
      let (v, made, h₂) =
        map_error-eq-ok invalid_rate (patched command current)
          (λ v. exchange_pay_rate i now current (to_new v) db) h₁ in
      let (positive, ordered) =
        made-IsRate (rate_or command.hourly_rate current.hourly_rate)
          (date_or command.effective_from current.effective_from)
          (if command.effective_to_supplied then command.effective_to else current.effective_to) v
          made in
      rw (exchanged i now current (to_new v) db h₂) (
        All-update IsRate i (replaced now (to_new v)) db.pay_rates
          (λ r. record { positive = positive; ordered = ordered }) rates)
