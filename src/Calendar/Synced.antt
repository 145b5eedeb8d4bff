-- ===== src/Calendar/Synced.antt =====
-- What a synchronisation that ends does at the provider and leaves in the tables,
-- `CalendarService.sync` of backend/app/services/calendar.py.
use shiftmate_web.Prelude.{ℕ, suc, ◌≡◌, Option, some, List, [], ◌∷◌, ◌++◌, All, filter, true}
use shiftmate_web.Prelude.Text.{Text}
use shiftmate_web.Domain.Zone.{Date}
use shiftmate_web.Database.{CalendarConnection, active, Db, Uuid, SyncRow}
use shiftmate_web.Database.Rows.{update}
use shiftmate_web.Calendar.Calls.{Call, refresh_call, Provider, SyncSummary}
use shiftmate_web.Calendar.Tables.{
  CalendarSyncRecord, sync_id, has_shift, ensure_sync_records, list_sync_records,
}
use shiftmate_web.Calendar.Listed.{IsNewRow, IsDueRecord, IsListed}
use shiftmate_web.Calendar.{Progress}
use shiftmate_web.Calendar.Rounds.{Fate, written, counted, IsTurn}
use shiftmate_web.Shifts.{in_range}

-- The rows after the fates of the records, one after the other.
abbrev pub rows_after : List CalendarSyncRecord → List Fate → List SyncRow → List SyncRow
rows_after [] fates rows = rows
rows_after (r ∷ records) [] rows = rows
rows_after (r ∷ records) (f ∷ fates) rows =
    rows_after records fates (update sync_id r.id (written r f) rows)

abbrev pub tally : List Fate → SyncSummary → SyncSummary
tally [] summary = summary
tally (f ∷ fates) summary = tally fates (counted f summary)

module _ (digest : Uuid → Text) (provider : Provider) where
  -- The rounds of some records from a number on: the fate of each, and the calls of all.
  abbrev pub AreTurns : ℕ → List CalendarSyncRecord → List Fate → List Call → Type 0
  AreTurns n [] [] calls = calls ≡ []
  AreTurns n [] (f ∷ fates) calls = ⊥
  AreTurns n (r ∷ records) [] calls = ⊥
  AreTurns n (r ∷ records) (f ∷ fates) calls =
      (first : List Call) × (rest : List Call) × (calls ≡ first ++ rest)
      × IsTurn digest provider n r first f
      × AreTurns (suc n) records fates rest

  -- The loop, from any tables and counters.
  record Rounds (n : ℕ) (records : List CalendarSyncRecord) (calls : List Call)
      (before after : Progress) : Type 0 where
    pub fates : List Fate
    pub turns : AreTurns n records fates calls
    pub counts : after.0 ≡ tally fates before.0
    pub rows : after.1 ≡ record before.1 { sync_rows = rows_after records fates before.1.sync_rows }

  module _ (mint : Uuid → Uuid) (now : ℕ) (from to : Option Date) where
    -- The tables with a row for each shift of the range, and the records that the loop goes through.
    abbrev pub prepared : Db → Db
    prepared db = ensure_sync_records mint now from to db

    abbrev pub records_of : Db → List CalendarSyncRecord
    records_of db = list_sync_records from to (prepared db)

    -- What a synchronisation promises.
    pub record Synced (db : Db) (calls : List Call) (summary : SyncSummary) (db' : Db)
        : Type 0 where
      pub token : Text
      pub connection : CalendarConnection
      pub stored : db.calendar_connection ≡ some connection
      pub is_active : connection.status ≡ active
      pub opened : provider.unseal connection.encrypted_refresh_token ≡ some token
      pub added : List SyncRow
      pub all_new : All IsNewRow added
      pub in_front : (prepared db).sync_rows ≡ added ++ db.sync_rows
      pub each_shift :
          All
            (λ s. has_shift s.id (prepared db).sync_rows ≡ true)
            (filter (λ s. in_range from to s.work_date) db.shifts)
      pub all_due : All (IsDueRecord from to db.shifts) (records_of db)
      pub all_listed : All (IsListed from to db.shifts (records_of db)) (prepared db).sync_rows
      pub made : List Call
      pub first_call : calls ≡ refresh_call token ∷ made
      pub fates : List Fate
      pub turns : AreTurns 0 (records_of db) fates made
      pub counts : summary ≡ tally fates (record { synced = 0; deleted = 0; failed = 0 })
      pub rows :
          db' ≡ record db { sync_rows = rows_after (records_of db) fates (prepared db).sync_rows }
