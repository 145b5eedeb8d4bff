-- ===== src/PayRates/Periods.antt =====
-- The periods of the rows of `pay_rates`, and what the statements of
-- backend/app/repositories/pay_rates.py do to the number of rates of a day.
use shiftmate_web.Prelude.{
  ℕ, ◌+◌, ◌≤◌, ◌≡◌, refl, true, false, not, ◌&&◌, Option, some, List, [], ◌∷◌, arith, ◌==◌, any,
  if◌then◌else◌, Bool-cases, inl, inr,
}
use shiftmate_web.Domain.Zone.{Date}
use shiftmate_web.Database.{Uuid, PayRateRecord, NewPayRate}
use shiftmate_web.Database.Rows.{select, update, delete, has_id, IsKeyed}
use shiftmate_web.PayRates.{overlaps, covers, replaced, rate_id}

abbrev pub weight : Date → Option Date → Date → ℕ
weight from to day = if covers from to day then 1 else 0

-- The number of the rates of a day.
abbrev pub rates_on : Date → List PayRateRecord → ℕ
rates_on day [] = 0
rates_on day (r ∷ rows) = weight r.effective_from r.effective_to day + rates_on day rows

-- A day has one rate at most.
abbrev pub OneRateADay : List PayRateRecord → Type 0
OneRateADay rows = (day : Date) → rates_on day rows ≤ 1

-- Two periods with a common day overlap.
pub overlaps_common :
    (new : NewPayRate) (r : PayRateRecord) (day : Date)
    → covers new.effective_from new.effective_to day ≡ true
    → covers r.effective_from r.effective_to day ≡ true
    → overlaps new r ≡ true
unfolding covers overlaps
overlaps_common new r day a b = ground arith

pub rates_on-no_overlap :
    (new : NewPayRate) (day : Date) (rows : List PayRateRecord)
    → any (overlaps new) rows ≡ false
    → covers new.effective_from new.effective_to day ≡ true
    → rates_on day rows ≡ 0
rates_on-no_overlap new day [] h c = refl
rates_on-no_overlap new day (r ∷ rows) h c =
    ground (arith, overlaps_common new r day c, rates_on-no_overlap new day rows)

-- The effect of the statements on the number of rates of a day, where ids are keys.
module _ (day : Date) (i : Uuid) where
  rates_on-absent :
      (rows : List PayRateRecord) (f : PayRateRecord → PayRateRecord)
      → has_id rate_id i rows ≡ false
      → (update rate_id i f rows ≡ rows) × (delete rate_id i rows ≡ rows)
  rates_on-absent [] f h = (refl, refl)
  rates_on-absent (r ∷ rows) f h = ground (arith, rates_on-absent rows f)

  pub rates_on-update :
      (now : ℕ) (new : NewPayRate) (current : PayRateRecord) (rows : List PayRateRecord)
      → IsKeyed rate_id rows
      → select rate_id i rows ≡ some current
      → rates_on day (update rate_id i (replaced now new) rows)
          + weight current.effective_from current.effective_to day
        ≡ rates_on day rows + weight new.effective_from new.effective_to day
  rates_on-update now new current [] k s = cc
  rates_on-update now new current (r ∷ rows) k s = elim (Bool-cases (r.id == i)) [
    | inl here ↦
        let same : r.id ≡ i = ground arith in
        let gone : has_id rate_id i rows ≡ false = rw (← same) k.0 in
        let r' : r ≡ current = ground arith in
        rw (here, (rates_on-absent rows (replaced now new) gone).0, r') (omega arith)
    | inr there ↦ rw there (omega (arith, rates_on-update now new current rows k.1 (ground arith)))
  ]

  pub rates_on-delete :
      (current : PayRateRecord) (rows : List PayRateRecord)
      → IsKeyed rate_id rows
      → select rate_id i rows ≡ some current
      → rates_on day (delete rate_id i rows)
          + weight current.effective_from current.effective_to day
        ≡ rates_on day rows
  rates_on-delete current [] k s = cc
  rates_on-delete current (r ∷ rows) k s = elim (Bool-cases (r.id == i)) [
    | inl here ↦
        let same : r.id ≡ i = ground arith in
        let gone : has_id rate_id i rows ≡ false = rw (← same) k.0 in
        let r' : r ≡ current = ground arith in
        rw (here, (rates_on-absent rows (λ r. r) gone).1, r') (omega arith)
    | inr there ↦ rw there (omega (arith, rates_on-delete current rows k.1 (ground arith)))
  ]

  rates_on-elsewhere :
      (new : NewPayRate) (rows : List PayRateRecord)
      → has_id rate_id i rows ≡ false
      → any (λ r. overlaps new r && not (r.id == i)) rows ≡ false
      → covers new.effective_from new.effective_to day ≡ true
      → rates_on day rows ≡ 0
  rates_on-elsewhere new [] absent h c = refl
  rates_on-elsewhere new (r ∷ rows) absent h c =
      ground (arith, overlaps_common new r day c, rates_on-elsewhere new rows)

  -- On a day of the new period no row but the one that is replaced has a rate.
  pub rates_on-others :
      (new : NewPayRate) (current : PayRateRecord) (rows : List PayRateRecord)
      → IsKeyed rate_id rows
      → select rate_id i rows ≡ some current
      → any (λ r. overlaps new r && not (r.id == i)) rows ≡ false
      → covers new.effective_from new.effective_to day ≡ true
      → rates_on day rows ≡ weight current.effective_from current.effective_to day
  rates_on-others new current [] k s h c = cc
  rates_on-others new current (r ∷ rows) k s h c = elim (Bool-cases (r.id == i)) [
    | inl here ↦
        let same : r.id ≡ i = ground arith in
        let gone : has_id rate_id i rows ≡ false = rw (← same) k.0 in
        let r' : r ≡ current = ground arith in
        rw (rates_on-elsewhere new rows gone (ground arith) c, r') (omega arith)
    | inr there ↦ ground (arith, overlaps_common new r day c, rates_on-others new current rows k.1)
  ]

pub has_id-update :
    (j i now : ℕ) (new : NewPayRate) (rows : List PayRateRecord)
    → has_id rate_id j (update rate_id i (replaced now new) rows) ≡ has_id rate_id j rows
has_id-update j i now new [] = refl
has_id-update j i now new (r ∷ rows) = ground (arith, has_id-update j i now new rows)

pub update-IsKeyed :
    (i now : ℕ) (new : NewPayRate) (rows : List PayRateRecord)
    → IsKeyed rate_id rows
    → IsKeyed rate_id (update rate_id i (replaced now new) rows)
update-IsKeyed i now new [] k = tt
update-IsKeyed i now new (r ∷ rows) k =
    ground (arith, has_id-update r.id i now new rows, update-IsKeyed i now new rows k.1)

has_id-delete :
    (j i : ℕ) (rows : List PayRateRecord)
    → has_id rate_id j rows ≡ false
    → has_id rate_id j (delete rate_id i rows) ≡ false
has_id-delete j i [] h = refl
has_id-delete j i (r ∷ rows) h = ground (arith, has_id-delete j i rows)

pub delete-IsKeyed :
    (i : ℕ) (rows : List PayRateRecord)
    → IsKeyed rate_id rows
    → IsKeyed rate_id (delete rate_id i rows)
delete-IsKeyed i [] k = tt
delete-IsKeyed i (r ∷ rows) k =
    ground (arith, has_id-delete r.id i rows k.0, delete-IsKeyed i rows k.1)

-- The invariant of `pay_rates`: ids are keys, and no day has two rates.
pub record IsSound (rows : List PayRateRecord) : Type 0 where
  pub keyed : IsKeyed rate_id rows
  pub one_rate : OneRateADay rows
