-- ===== src/PayRates/Overlap.antt =====
-- No date has two rates: what `has_overlap` in backend/app/services/pay_rates.py is for.
use shiftmate_web.Prelude.{ℕ, ◌≡◌, subst, false, not, ◌&&◌, none, some, List, arith, ◌==◌, any}
use shiftmate_web.Prelude.Result.{ok}
use shiftmate_web.Database.{Db, PayRateRecord, NewPayRate}
use shiftmate_web.Database.Rows.{select, update, delete, has_id}
use shiftmate_web.PayRates.{
  overlaps, has_overlap, insert_pay_rate, replaced, rate_id, CreatePayRateCommand,
  UpdatePayRateCommand, create_pay_rate, update_pay_rate,
}
use shiftmate_web.PayRates.Periods.{
  IsSound, rates_on-no_overlap, rates_on-update, rates_on-delete, rates_on-others, update-IsKeyed,
  delete-IsKeyed,
}
use shiftmate_web.PayRates.Outcomes.{create_pay_rate-eq-ok, update_pay_rate-eq-ok}

insert-IsSound :
    (new_id now : ℕ) (new : NewPayRate) (db : Db)
    → IsSound db.pay_rates
    → has_id rate_id new_id db.pay_rates ≡ false
    → has_overlap new none db ≡ false
    → IsSound (insert_pay_rate new_id now new db).1.pay_rates
unfolding has_overlap insert_pay_rate
insert-IsSound new_id now new db sound fresh free = record {
  keyed = (fresh, sound.keyed);
  one_rate =
      λ day. ground (arith, sound.one_rate day, rates_on-no_overlap new day db.pay_rates free);
}

update-IsSound :
    (i now : ℕ) (current : PayRateRecord) (new : NewPayRate) (rows : List PayRateRecord)
    → IsSound rows
    → select rate_id i rows ≡ some current
    → any (λ r. overlaps new r && not (r.id == i)) rows ≡ false
    → IsSound (update rate_id i (replaced now new) rows)
update-IsSound i now current new rows sound found free = record {
  keyed = update-IsKeyed i now new rows sound.keyed;
  one_rate = λ day. ground (
    arith,
    sound.one_rate day,
    rates_on-update day i now new current rows sound.keyed found,
    rates_on-others day i new current rows sound.keyed found free,
  );
}

delete-IsSound :
    (i : ℕ) (current : PayRateRecord) (rows : List PayRateRecord)
    → IsSound rows
    → select rate_id i rows ≡ some current
    → IsSound (delete rate_id i rows)
delete-IsSound i current rows sound found = record {
  keyed = delete-IsKeyed i rows sound.keyed;
  one_rate = λ day.
      omega (arith, sound.one_rate day, rates_on-delete day i current rows sound.keyed found);
}

module _ (db : Db) (sound : IsSound db.pay_rates) where
  -- Where ids are keys and no day has two rates, and the new id is not taken, the same holds after
  -- a rate is created.
  pub create_pay_rate-IsSound :
      (new_id now : ℕ) (command : CreatePayRateCommand) {row : PayRateRecord} {db' : Db}
      → has_id rate_id new_id db.pay_rates ≡ false
      → create_pay_rate new_id now command db ≡ ok (row, db')
      → IsSound db'.pay_rates
  create_pay_rate-IsSound new_id now command fresh h =
      let (new, free, left) = create_pay_rate-eq-ok db new_id now command h in
      subst (λ (p : PayRateRecord × Db). IsSound p.1.pay_rates) left
        (insert-IsSound new_id now new db sound fresh free)

  -- Where ids are keys and no day has two rates, the same holds after an update that succeeds.
  pub update_pay_rate-IsSound :
      (i now : ℕ) (command : UpdatePayRateCommand) {row : PayRateRecord} {db' : Db}
      → update_pay_rate i now command db ≡ ok (row, db')
      → IsSound db'.pay_rates
  unfolding has_overlap
  update_pay_rate-IsSound i now command h =
      let (current, new, found, free, _, left) = update_pay_rate-eq-ok db i now command h in
      rw left (update-IsSound i now current new db.pay_rates sound found free)
