-- ===== src/Calendar/Tables.antt =====
-- backend/app/repositories/calendar.py: the statements on `calendar_connections` and
-- `calendar_sync_records`.
use shiftmate_web.Prelude.{
  ℕ, suc, Bool, true, false, not, ◌&&◌, ◌||◌, Option, none, some, List, [], ◌∷◌, leb, ltb, ◌==◌,
  any, filter, find?, map, sort_by, if◌then◌else◌,
}
use shiftmate_web.Prelude.Text.{Text}
use shiftmate_web.Domain.Zone.{Date}
use shiftmate_web.Database.{
  Db, Uuid, SyncRow, SyncStatus, pending, synced, sync_failed, deleted, ShiftRecord,
  CalendarConnection, active, revoked,
}
use shiftmate_web.Database.Rows.{update}
use shiftmate_web.Shifts.{in_range, is_id, is_deleted}

-- `CalendarSyncRecord`; the columns of the joined shift have values together.
pub record CalendarSyncRecord : Type 0 where
  pub id : Uuid
  pub shift_id : Option Uuid
  pub external_event_id : Option Text
  pub status : SyncStatus
  pub retry_count : ℕ
  pub created_at : ℕ
  pub shift : Option ShiftRecord

abbrev pub sync_id : SyncRow → Uuid
sync_id r = r.id

-- The statement on the connection without a new token, and the one with it; there is no row to
-- update where the first has no result.
unfoldable pub save_connection :
    Option Text → List Text → Option ℕ → Db → Option (CalendarConnection × Db)
save_connection (some token) scopes expires_at db =
    let row : CalendarConnection = record {
      encrypted_refresh_token = token;
      scopes = scopes;
      expires_at = expires_at;
      status = active;
    } in
    some (row, record db { calendar_connection = some row })
save_connection none scopes expires_at db = elim db.calendar_connection [
  | none ↦ none
  | some c ↦
      let row : CalendarConnection = record c {
        scopes = scopes;
        expires_at = expires_at;
        status = active;
      } in
      some (row, record db { calendar_connection = some row })
]

-- `mark_connection_revoked`.
unfoldable pub mark_connection_revoked : Db → Db
mark_connection_revoked db = elim db.calendar_connection [
  | none ↦ db
  | some c ↦ record db { calendar_connection = some (record c { status = revoked }) }
]

abbrev pub has_shift : Uuid → List SyncRow → Bool
has_shift i rows = any (λ r. is_id r.shift_id i) rows

-- `INSERT ... SELECT ... FROM shifts ... ON CONFLICT (owner_id, shift_id) DO NOTHING`; `mint` is the
-- id that the database draws for the row of a shift.
unfoldable pub insert_sync_rows : (Uuid → Uuid) → ℕ → List ShiftRecord → List SyncRow → List SyncRow
insert_sync_rows mint now [] rows = rows
insert_sync_rows mint now (s ∷ shifts) rows = insert_sync_rows mint now shifts (
    if has_shift s.id rows
    then rows
    else record {
      id = mint s.id;
      shift_id = some s.id;
      external_event_id = none;
      status = pending;
      retry_count = 0;
      last_error_code = none;
      created_at = now;
    }
      ∷ rows)

-- `ensure_sync_records`.
unfoldable pub ensure_sync_records : (Uuid → Uuid) → ℕ → Option Date → Option Date → Db → Db
unfolding insert_sync_rows
ensure_sync_records mint now from to db = record db {
  sync_rows =
      insert_sync_rows mint now (filter (λ s. in_range from to s.work_date) db.shifts) db.sync_rows;
}

-- The shift of the LEFT JOIN.
abbrev pub joined : Option Uuid → List ShiftRecord → Option ShiftRecord
joined none shifts = none
joined (some i) shifts = find? (λ s. s.id == i) shifts

-- The conditions of `_date_filter` on the joined row: a column that is NULL meets no comparison.
abbrev pub dates_match : Option Date → Option Date → Option ShiftRecord → Bool
dates_match none none shift = true
dates_match from to none = false
dates_match from to (some s) = in_range from to s.work_date

-- `... OR record.shift_id IS NULL`.
abbrev pub range_condition : Option Date → Option Date → Option Uuid → Option ShiftRecord → Bool
range_condition from to none shift = true
range_condition from to (some i) shift = dates_match from to shift

abbrev pub listed : Option Date → Option Date → List ShiftRecord → SyncRow → Bool
listed from to shifts r =
    not (is_deleted r.status) && range_condition from to r.shift_id (joined r.shift_id shifts)

-- `_sync_record`.
abbrev pub to_sync_record : List ShiftRecord → SyncRow → CalendarSyncRecord
to_sync_record shifts r = record {
  id = r.id;
  shift_id = r.shift_id;
  external_event_id = r.external_event_id;
  status = r.status;
  retry_count = r.retry_count;
  created_at = r.created_at;
  shift = joined r.shift_id shifts;
}

-- `ORDER BY record.created_at, record.id`.
abbrev pub sync_before : CalendarSyncRecord → CalendarSyncRecord → Bool
sync_before a b = ltb a.created_at b.created_at || (a.created_at == b.created_at && leb a.id b.id)

-- `list_sync_records`.
unfoldable pub list_sync_records : Option Date → Option Date → Db → List CalendarSyncRecord
list_sync_records from to db =
    sort_by sync_before
      (map (to_sync_record db.shifts) (filter (listed from to db.shifts) db.sync_rows))

abbrev pub succeeded : Option Text → Bool → SyncRow → SyncRow
succeeded event done r = record r {
  external_event_id = event;
  status = if done then deleted else synced;
  last_error_code = none;
}

-- `mark_sync_success`.
unfoldable pub mark_sync_success : Uuid → Option Text → Bool → Db → Db
mark_sync_success i event done db = record db {
  sync_rows = update sync_id i (succeeded event done) db.sync_rows;
}

abbrev pub retried : Text → SyncRow → SyncRow
retried code r = record r {
  status = sync_failed;
  last_error_code = some code;
  retry_count = suc r.retry_count;
}

-- `mark_sync_failure`.
unfoldable pub mark_sync_failure : Uuid → Text → Db → Db
mark_sync_failure i code db = record db { sync_rows = update sync_id i (retried code) db.sync_rows }
