-- ===== src/PayRates/Coverage.antt =====
-- Every stored shift keeps its rate: what `has_shifts_outside_period` and `has_shifts` in
-- backend/app/services/pay_rates.py are for.
use shiftmate_web.Prelude.{
  ℕ, ◌≡◌, refl, subst, false, not, ◌&&◌, Option, none, some, List, [], ◌∷◌, arith, ◌==◌, any, All,
}
use shiftmate_web.Prelude.Result.{ok}
use shiftmate_web.Domain.Zone.{Date}
use shiftmate_web.Database.{Db, PayRateRecord, NewPayRate}
use shiftmate_web.Database.Rows.{select, update, delete}
use shiftmate_web.PayRates.{
  CreatePayRateCommand, create_pay_rate, insert_pay_rate, outside, overlaps, has_overlap, covers,
  replaced, rate_id, UpdatePayRateCommand, update_pay_rate, delete_pay_rate, has_shifts,
  has_shifts_outside_period,
}
use shiftmate_web.Database.{ShiftRecord}
use shiftmate_web.PayRates.Periods.{
  rates_on, IsSound, rates_on-update, rates_on-delete, rates_on-others, rates_on-no_overlap,
}
use shiftmate_web.PayRates.Outcomes.{
  create_pay_rate-eq-ok, update_pay_rate-eq-ok, delete_pay_rate-eq-ok,
}

-- The work date of each shift has exactly one rate.
abbrev pub IsPriced : List PayRateRecord → List ShiftRecord → Type 0
IsPriced rows shifts = All (λ s. rates_on s.work_date rows ≡ 1) shifts

outside-covers :
    (from : Date) (to : Option Date) (day : Date) → outside from to day ≡ not (covers from to day)
unfolding outside covers
outside-covers from none day = ground arith
outside-covers from (some to) day = ground arith

kept-by-update :
    (i now : ℕ) (current : PayRateRecord) (new : NewPayRate) (db : Db) (shifts : List ShiftRecord)
    → IsSound db.pay_rates
    → select rate_id i db.pay_rates ≡ some current
    → any (λ r. overlaps new r && not (r.id == i)) db.pay_rates ≡ false
    → any
        (λ s.
          covers current.effective_from current.effective_to s.work_date
          && outside new.effective_from new.effective_to s.work_date)
        shifts
      ≡ false
    → IsPriced db.pay_rates shifts
    → IsPriced (update rate_id i (replaced now new) db.pay_rates) shifts
kept-by-update i now current new db [] sound found free unused p = tt
kept-by-update i now current new db (s ∷ shifts) sound found free unused p = (
  ground (
    arith,
    p.0,
    outside-covers new.effective_from new.effective_to s.work_date,
    rates_on-update s.work_date i now new current db.pay_rates sound.keyed found,
    rates_on-others s.work_date i new current db.pay_rates sound.keyed found free,
  ),
  kept-by-update i now current new db shifts sound found free (ground arith) p.1,
)

kept-by-delete :
    (i : ℕ) (current : PayRateRecord) (db : Db) (shifts : List ShiftRecord)
    → IsSound db.pay_rates
    → select rate_id i db.pay_rates ≡ some current
    → any (λ s. covers current.effective_from current.effective_to s.work_date) shifts ≡ false
    → IsPriced db.pay_rates shifts
    → IsPriced (delete rate_id i db.pay_rates) shifts
kept-by-delete i current db [] sound found unused p = tt
kept-by-delete i current db (s ∷ shifts) sound found unused p = (
  ground (arith, p.0, rates_on-delete s.work_date i current db.pay_rates sound.keyed found),
  kept-by-delete i current db shifts sound found (ground arith) p.1,
)

kept-by-create :
    (new : NewPayRate) (row : PayRateRecord) (rows : List PayRateRecord) (shifts : List ShiftRecord)
    → row.effective_from ≡ new.effective_from
    → row.effective_to ≡ new.effective_to
    → any (overlaps new) rows ≡ false
    → IsPriced rows shifts
    → IsPriced (row ∷ rows) shifts
kept-by-create new row rows [] from to free p = tt
kept-by-create new row rows (s ∷ shifts) from to free p = (
  rw (from, to) (ground (arith, p.0, rates_on-no_overlap new s.work_date rows free)),
  kept-by-create new row rows shifts from to free p.1,
)

module _ (db : Db) (sound : IsSound db.pay_rates) (priced : IsPriced db.pay_rates db.shifts) where
  -- Where ids are keys, no day has two rates and the day of each stored shift has exactly one, an
  -- update of a rate that succeeds leaves the day of each stored shift with exactly one rate.
  pub update_pay_rate-IsPriced :
      (i now : ℕ) (command : UpdatePayRateCommand) {row : PayRateRecord} {db' : Db}
      → update_pay_rate i now command db ≡ ok (row, db')
      → IsPriced db'.pay_rates db'.shifts
  unfolding has_overlap has_shifts_outside_period
  update_pay_rate-IsPriced i now command h =
      let (current, new, found, free, unused, left) = update_pay_rate-eq-ok db i now command h in
      rw left (kept-by-update i now current new db db.shifts sound found free unused priced)

  -- Where ids are keys, no day has two rates and the day of each stored shift has exactly one, a
  -- deletion of a rate that succeeds leaves the day of each stored shift with exactly one rate.
  pub delete_pay_rate-IsPriced :
      (i : ℕ) {u : Unit {0}} {db' : Db}
      → delete_pay_rate i db ≡ ok (u, db')
      → IsPriced db'.pay_rates db'.shifts
  unfolding has_shifts
  delete_pay_rate-IsPriced i h =
      let (current, found, unused, left) = delete_pay_rate-eq-ok db i h in
      rw left (kept-by-delete i current db db.shifts sound found unused priced)

  -- Where ids are keys, no day has two rates and the day of each stored shift has exactly one, a rate
  -- that is created leaves the day of each stored shift with exactly one rate.
  pub create_pay_rate-IsPriced :
      (new_id now : ℕ) (command : CreatePayRateCommand) {row : PayRateRecord} {db' : Db}
      → create_pay_rate new_id now command db ≡ ok (row, db')
      → IsPriced db'.pay_rates db'.shifts
  unfolding has_overlap insert_pay_rate
  create_pay_rate-IsPriced new_id now command h =
      let (new, free, left) = create_pay_rate-eq-ok db new_id now command h in
      subst (λ (p : PayRateRecord × Db). IsPriced p.1.pay_rates p.1.shifts) left
        (kept-by-create new (insert_pay_rate new_id now new db).0 db.pay_rates db.shifts refl refl
          free priced)
