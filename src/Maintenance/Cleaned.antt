-- ===== src/Maintenance/Cleaned.antt =====
-- What `_perform` of backend/app/services/maintenance.py leaves of the imports.
use shiftmate_web.Prelude.{
  ℕ, ◌+◌, ◌*◌, ◌<◌, ◌≤◌, ◌≡◌, ◌⊎◌, refl, Option, none, some, List, [], ◌∷◌, arith, if◌then◌else◌,
}
use shiftmate_web.Domain.Zone.{Date, us_per_day}
use shiftmate_web.Database.{
  ImportRow, ImportStatus, uploaded, extracting, review, committed, failed, expired,
}
use shiftmate_web.Shifts.Deletion.{Pairwise}
use shiftmate_web.Maintenance.{
  Tables, overdue, expire, retired, update_where, delete_where, perform,
}

-- An import that has neither become shifts nor expired.
abbrev pub IsDraft : ImportStatus → Type 0
IsDraft status = (status ≡ uploaded) ⊎ (status ≡ extracting) ⊎ (status ≡ review) ⊎ (status ≡ failed)

-- The last instant at which an import is not older than a number of days.
abbrev pub end_of : ℕ → ImportRow → ℕ
end_of days r = r.created_at + days * us_per_day

-- What is stored afterwards for an import, if anything.
pub record IsCleaned (ttl retention now : ℕ) (r : ImportRow) (left : Option ImportRow)
    : Type 0 where
  pub young_draft : IsDraft r.status → now ≤ end_of ttl r → left ≡ some r
  pub old_draft :
      IsDraft r.status
      → end_of ttl r < now
      → now ≤ end_of retention r
      → left ≡ some (record r { status = expired; updated_at = now })
  pub lost_draft : IsDraft r.status → end_of ttl r < now → end_of retention r < now → left ≡ none
  pub young_expired : r.status ≡ expired → now ≤ end_of retention r → left ≡ some r
  pub old_expired : r.status ≡ expired → end_of retention r < now → left ≡ none
  pub final : r.status ≡ committed → left ≡ some r

-- The rows that are there.
abbrev pub present : List (Option ImportRow) → List ImportRow
present [] = []
present (none ∷ rows) = present rows
present (some r ∷ rows) = r ∷ present rows

module _ (ttl retention now : ℕ) where
  -- The row after both statements, if it is still there.
  abbrev left_of : ImportRow → Option ImportRow
  left_of r =
      let r' = if overdue ttl now r then expire now r else r in
      if retired retention now r' then none else some r'

  left_of-IsCleaned : (r : ImportRow) → IsCleaned ttl retention now r (left_of r)
  left_of-IsCleaned r = record {
    young_draft = λ d e. ground arith;
    old_draft = λ d e f. ground arith;
    lost_draft = λ d e f. ground arith;
    young_expired = λ d e. ground arith;
    old_expired = λ d e. ground arith;
    final = λ d. ground arith;
  }

  cleaned :
      (rows : List ImportRow)
      → (left : List (Option ImportRow)) × Pairwise (IsCleaned ttl retention now) rows left
        × (delete_where (retired retention now) (update_where (overdue ttl now) (expire now) rows)
            ≡ present left)
  unfolding update_where
  cleaned [] = ([], tt, refl)
  cleaned (r ∷ rows) =
      let (left, each, same) = cleaned rows in
      (left_of r ∷ left, (left_of-IsCleaned r, each), ground (arith, same))

-- After the work a draft that is not older than its time, an expired import that is not older than
-- the retention and a committed import are stored as they were; a draft that is older than its time
-- is stored as expired, unless it is older than the retention too, and then, as an expired import
-- older than the retention, it is not stored; and there are no other imports.
pub perform_cleans :
    (date : Date) (ttl retention now : ℕ) (t : Tables)
    → (left : List (Option ImportRow)) × Pairwise (IsCleaned ttl retention now) t.imports left
      × ((perform date ttl retention now t).1.imports ≡ present left)
unfolding perform
perform_cleans date ttl retention now t = cleaned ttl retention now t.imports
