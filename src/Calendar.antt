-- ===== src/Calendar.antt =====
-- backend/app/repositories/calendar.py and `CalendarService` of backend/app/services/calendar.py:
-- the connection of a calendar and the synchronisation of the shifts with it.
pub mod Calls
pub mod Tables
pub mod Listed
pub mod Rounds
pub mod Synced
pub mod OAuth
pub mod Callback
pub mod Connected
pub mod Cookie
pub mod Exports
mod OAuthTests
mod Tests
use shiftmate_web.Prelude.{
  ℕ, suc, ◌+◌, Bool, true, false, not, ◌&&◌, ◌||◌, Option, none, some, List, [], ◌∷◌, ◌++◌,
  if◌then◌else◌,
}
use shiftmate_web.Prelude.Result.{Result, ok, raise}
use shiftmate_web.Prelude.Text.{Text, codes}
use shiftmate_web.Domain.Zone.{Date}
use shiftmate_web.Database.{
  Db, Uuid, SyncStatus, pending_delete, ShiftRecord, CalendarConnection, ConnectionStatus, active,
  revoked, connection_error,
}
use shiftmate_web.Shifts.{reversed}
use shiftmate_web.Calendar.Calls.{
  Reply, done, token_revoked, provider_error, EventBody, Call, refresh_call, upsert_call,
  delete_call, Provider, CalendarError, date_range_invalid, not_connected, auth_revoked,
  token_invalid, sync_record_invalid, provider_failed, SyncSummary,
}
use shiftmate_web.Calendar.Tables.{
  CalendarSyncRecord, ensure_sync_records, list_sync_records, mark_sync_success, mark_sync_failure,
  mark_connection_revoked,
}

-- `CalendarStatus`.
pub record CalendarStatus : Type 0 where
  pub configured : Bool
  pub connection_status : Option ConnectionStatus
  pub scopes : List Text

-- `CalendarService.status`: no status is "disconnected".
unfoldable pub status : Bool → Db → CalendarStatus
status configured db = elim db.calendar_connection [
  | none ↦ record { configured = configured; connection_status = none; scopes = [] }
  | some c ↦ record {
    configured = configured;
    connection_status = some c.status;
    scopes = c.scopes;
  }
]

abbrev pub is_pending_delete : SyncStatus → Bool
is_pending_delete pending_delete = true
is_pending_delete _ = false

-- `record.shift_id is None or record.status == "pending_delete"`.
abbrev pub to_be_deleted : CalendarSyncRecord → Bool
to_be_deleted r = elim r.shift_id [ none ↦ true | some i ↦ is_pending_delete r.status ]

-- `record.notes or ...`.
abbrev pub event_description : Option Text → Text
event_description none = codes "Synced from ShiftMate Web"
event_description (some []) = codes "Synced from ShiftMate Web"
event_description (some (c ∷ s)) = c ∷ s

-- `event_body`: the shift of a record has its times and its type, or there is no shift.
unfoldable pub event_body : CalendarSyncRecord → Result CalendarError EventBody
event_body r = elim r.shift [
  | none ↦ raise sync_record_invalid
  | some s ↦ ok (record {
    summary = codes "Shift · " ++ s.shift_type;
    description = event_description s.notes;
    start = s.start_at;
    end = s.end_at;
    shift_id = r.shift_id;
  })
]

-- An error, with the tables as they are when it is raised, before the transaction is rolled back.
abbrev pub Raised : Type 0
Raised = CalendarError × Db

-- What an operation does at the provider, and its outcome: the calls are made whether the
-- transaction is committed or not.
abbrev pub Effect : Type 0 → Type 0
Effect A = List Call × Result Raised A

-- An operation and then the next one, which an error skips.
unfoldable pub and_then : {A B : Type 0} → Effect A → (A → Effect B) → Effect B
and_then (calls, raise e) next = (calls, raise e)
and_then (calls, ok a) next = let (more, outcome) = next a in (calls ++ more, outcome)

-- The counters and the tables after some rounds of the loop.
abbrev pub Progress : Type 0
Progress = SyncSummary × Db

abbrev pub no_summary : SyncSummary
no_summary = record { synced = 0; deleted = 0; failed = 0 }

-- `f"shiftmate{digest}"`.
abbrev pub stable_id : (Uuid → Text) → Uuid → Text
stable_id digest i = codes "shiftmate" ++ digest i

-- `stable_event_id`; `digest` is SHA-256 of the owner and the shift, in hexadecimal.
abbrev pub stable_event_id : (Uuid → Text) → Option Uuid → Result CalendarError Text
stable_event_id digest none = raise sync_record_invalid
stable_event_id digest (some i) = ok (stable_id digest i)

-- `record.external_event_id or stable_event_id(record)`: an empty id counts as none.
abbrev pub event_id : (Uuid → Text) → Option Text → Option Uuid → Result CalendarError Text
event_id digest (some (c ∷ s)) shift = ok (c ∷ s)
event_id digest (some []) shift = stable_event_id digest shift
event_id digest none shift = stable_event_id digest shift

-- The rest of a round after its call: the writes of a success, or the `except` clauses.
unfoldable pub after_call : Uuid → Reply → SyncSummary → Db → Progress → Result Raised Progress
after_call i done summary db success = ok success
after_call i token_revoked summary db success = raise (auth_revoked, mark_connection_revoked db)
after_call i (provider_error code) summary db success =
    ok (record summary { failed = suc summary.failed }, mark_sync_failure i code db)

abbrev pub count_deleted : SyncSummary → SyncSummary
count_deleted summary = record summary { deleted = suc summary.deleted }

abbrev pub count_synced : SyncSummary → SyncSummary
count_synced summary = record summary { synced = suc summary.synced }

module _ (digest : Uuid → Text) (provider : Provider) where
  -- The branch of a record that is to be deleted.
  unfoldable pub delete_event :
      ℕ → Option Text → CalendarSyncRecord → SyncSummary → Db → Progress → Effect Progress
  delete_event n none r summary db success = ([], ok success)
  delete_event n (some []) r summary db success = ([], ok success)
  delete_event n (some (c ∷ s)) r summary db success =
      let call = delete_call (c ∷ s) in
      (call ∷ [], after_call r.id (provider.reply n call) summary db success)

  -- The other branch, with the event's id and body.
  unfoldable pub put_event :
      ℕ
      → Result CalendarError Text
      → Result CalendarError EventBody
      → CalendarSyncRecord
      → SyncSummary
      → Db
      → Effect Progress
  put_event n (raise e) body r summary db = ([], raise (e, db))
  put_event n (ok event) (raise e) r summary db = ([], raise (e, db))
  put_event n (ok event) (ok body) r summary db =
      let call = upsert_call event body in
      (
        call ∷ [],
        after_call r.id (provider.reply n call) summary db
            (count_synced summary, mark_sync_success r.id (some event) false db),
      )

  -- One round of the loop; `n` is its number, on which the provider's reply may depend.
  unfoldable pub sync_record : ℕ → CalendarSyncRecord → Progress → Effect Progress
  sync_record n r (summary, db) = elim (to_be_deleted r) [
    | true ↦
        delete_event n r.external_event_id r summary db
          (count_deleted summary, mark_sync_success r.id r.external_event_id true db)
    | false ↦
        put_event n (event_id digest r.external_event_id r.shift_id) (event_body r) r summary db
  ]

  -- The loop over the records.
  unfoldable pub sync_records : ℕ → List CalendarSyncRecord → Progress → Effect Progress
  sync_records n [] progress = ([], ok progress)
  sync_records n (r ∷ records) progress =
      and_then (sync_record n r progress) (sync_records (suc n) records)

  module _ (mint : Uuid → Uuid) (now : ℕ) (from to : Option Date) where
    -- `sync` after the token is there.
    unfoldable pub sync_shifts : Db → Effect Progress
    sync_shifts db =
        let prepared = ensure_sync_records mint now from to db in
        sync_records 0 (list_sync_records from to prepared) (no_summary, prepared)

    -- `token = await self.provider.refresh(refresh_token)`, and its `except` clauses.
    unfoldable pub with_token : Text → Reply → Db → Effect Progress
    with_token token done db =
        let (calls, outcome) = sync_shifts db in (refresh_call token ∷ calls, outcome)
    with_token token token_revoked db =
        (refresh_call token ∷ [], raise (auth_revoked, mark_connection_revoked db))
    with_token token (provider_error code) db =
        (refresh_call token ∷ [], raise (provider_failed code, db))

    -- `self.token_box.decrypt(...)`, and its `except` clause.
    unfoldable pub with_refresh_token : Option Text → Db → Effect Progress
    with_refresh_token none db = ([], raise (token_invalid, db))
    with_refresh_token (some token) db = with_token token (provider.refresh token) db

    -- `if calendar_connection.status != "active"`.
    unfoldable pub connected : ConnectionStatus → Text → Db → Effect Progress
    connected active sealed db = with_refresh_token (provider.unseal sealed) db
    connected revoked sealed db = ([], raise (auth_revoked, db))
    connected connection_error sealed db = ([], raise (auth_revoked, db))

    -- `CalendarService.sync`.
    unfoldable pub sync : Db → Effect Progress
    sync db = elim (reversed from to) [
      | true ↦ ([], raise (date_range_invalid, db))
      | false ↦ elim db.calendar_connection [
        | none ↦ ([], raise (not_connected, db))
        | some c ↦ connected c.status c.encrypted_refresh_token db
      ]
    ]
