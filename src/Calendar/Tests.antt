-- ===== src/Calendar/Tests.antt =====
-- The theorems on the calendar at concrete inputs.
use shiftmate_web.Prelude.{ℕ, ◌+◌, none, some, List, [], ◌∷◌}
use shiftmate_web.Prelude.Text.{Text, codes}
use shiftmate_web.Database.{Db, Uuid, SyncRow, synced, sync_failed, pending_delete}
use shiftmate_web.Calendar.Calls.{
  Call, Reply, EventBody, done, provider_error, delete_call, upsert_call, refresh_call, Provider,
  SyncSummary,
}
use shiftmate_web.Calendar.Synced.{Synced}
use shiftmate_web.Examples.{db, shift, sync_row}

abbrev digest : Uuid → Text
digest i = (48 + i) ∷ []

abbrev mint : Uuid → Uuid
mint i = 100 + i

-- The provider no longer has an event to delete.
abbrev reply : ℕ → Call → Reply
reply n (delete_call event) = provider_error (codes "GONE")
reply n call = done

abbrev provider : Provider
provider = record {
  refresh = λ token. done;
  reply = reply;
  unseal = λ sealed. some (codes "token");
}

-- A record whose shift was deleted.
abbrev orphan : SyncRow
orphan = record sync_row {
  id = 6;
  shift_id = none;
  status = pending_delete;
  external_event_id = some (codes "old");
}

-- A shift with an event, one without a record, and the record without a shift.
abbrev stored : Db
stored = record db {
  shifts = shift ∷ record shift { id = 8 } ∷ [];
  sync_rows = sync_row ∷ orphan ∷ [];
}

abbrev new_row : SyncRow
new_row = record {
  id = 108;
  shift_id = some 8;
  external_event_id = some (codes "shiftmate8");
  status = synced;
  retry_count = 0;
  last_error_code = none;
  created_at = 9;
}

abbrev left : Db
left = record stored {
  sync_rows =
      new_row
      ∷ sync_row
      ∷ record orphan {
        status = sync_failed;
        retry_count = 1;
        last_error_code = some (codes "GONE");
      }
      ∷ [];
}

abbrev body : Uuid → EventBody
body i = record {
  summary = codes "Shift · day";
  description = codes "Synced from ShiftMate Web";
  start = shift.start_at;
  end = shift.end_at;
  shift_id = some i;
}

abbrev calls : List Call
calls =
    refresh_call (codes "token")
    ∷ upsert_call (codes "event") (body 7)
    ∷ delete_call (codes "old")
    ∷ upsert_call (codes "shiftmate8") (body 8)
    ∷ []

abbrev summary : SyncSummary
summary = record { synced = 2; deleted = 0; failed = 1 }
