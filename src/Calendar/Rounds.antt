-- ===== src/Calendar/Rounds.antt =====
-- One round of the loop of `CalendarService.sync`, backend/app/services/calendar.py: its call, the row
-- that it writes and what it counts.
use shiftmate_web.Prelude.{
  ℕ, suc, ◌≡◌, refl, sym, subst, ap, true, false, Option, none, some, List, [], ◌∷◌, ◌++◌, arith,
  Bool-cases, Option-cases, inl, inr, ◌⊎◌, ◌∙◌,
}
use shiftmate_web.Prelude.Result.{Result, ok, raise}
use shiftmate_web.Prelude.Text.{Text, codes}
use shiftmate_web.Database.{
  Db, Uuid, ShiftRecord, SyncRow, SyncStatus, pending, synced, pending_delete, sync_failed, deleted,
}
use shiftmate_web.Database.Rows.{update}
use shiftmate_web.Calendar.Calls.{
  Reply, done, token_revoked, provider_error, EventBody, Call, refresh_call, upsert_call,
  delete_call, Provider, CalendarError, SyncSummary,
}
use shiftmate_web.Calendar.Tables.{
  CalendarSyncRecord, mark_sync_success, mark_sync_failure, sync_id,
}
use shiftmate_web.Calendar.{
  is_pending_delete, to_be_deleted, event_description, event_body, event_id, Effect, and_then,
  Progress, after_call, delete_event, put_event, sync_record,
}

-- The records whose event is to be deleted, and those whose event is to stand.
abbrev pub IsToGo : CalendarSyncRecord → Type 0
IsToGo r = (r.shift_id ≡ none) ⊎ (r.status ≡ pending_delete)

abbrev pub IsToStand : CalendarSyncRecord → Type 0
IsToStand r = ((i : Uuid) × (r.shift_id ≡ some i)) × (r.status ≡ pending_delete → ⊥)

-- No id, or an empty one.
abbrev pub IsUnset : Option Text → Type 0
IsUnset event = (event ≡ none) ⊎ (event ≡ some [])

-- The id of the event of a record: its own, or else that of the shift.
abbrev pub IsEventOf : (Uuid → Text) → CalendarSyncRecord → Text → Type 0
IsEventOf digest r event =
    ((r.external_event_id ≡ some event) × (event ≡ [] → ⊥))
    ⊎ (IsUnset r.external_event_id
        × ((i : Uuid) × (r.shift_id ≡ some i) × (event ≡ codes "shiftmate" ++ digest i)))

-- The body of the event of a record's shift.
pub record IsBodyOf (r : CalendarSyncRecord) (body : EventBody) : Type 0 where
  pub shift : ShiftRecord
  pub joined : r.shift ≡ some shift
  pub summary : body.summary ≡ codes "Shift · " ++ shift.shift_type
  pub description : body.description ≡ event_description shift.notes
  pub start : body.start ≡ shift.start_at
  pub end : body.end ≡ shift.end_at
  pub named : body.shift_id ≡ r.shift_id

-- The call that a record asks for.
abbrev pub IsCallFor : (Uuid → Text) → CalendarSyncRecord → Call → Type 0
IsCallFor digest r (refresh_call token) = ⊥
IsCallFor digest r (upsert_call event body) =
    IsToStand r × (IsEventOf digest r event × IsBodyOf r body)
IsCallFor digest r (delete_call event) = IsToGo r × (r.external_event_id ≡ some event)

-- What becomes of a record: its event stands, it is gone, or the call has failed with a code.
pub data Fate : Type 0 where
  stands : Text → Fate
  gone : Fate
  failed_with : Text → Fate

-- What the row of a record is then.
abbrev pub written : CalendarSyncRecord → Fate → SyncRow → SyncRow
written r (stands event) q = record q {
  external_event_id = some event;
  status = synced;
  last_error_code = none;
}
written r gone q = record q {
  external_event_id = r.external_event_id;
  status = deleted;
  last_error_code = none;
}
written r (failed_with code) q = record q {
  status = sync_failed;
  last_error_code = some code;
  retry_count = suc q.retry_count;
}

abbrev pub counted : Fate → SyncSummary → SyncSummary
counted (stands event) s = record s { synced = suc s.synced }
counted gone s = record s { deleted = suc s.deleted }
counted (failed_with code) s = record s { failed = suc s.failed }

module _ (digest : Uuid → Text) (provider : Provider) where
  -- The calls and the fate of a record in a round, by the provider's reply.
  abbrev pub IsTurn : ℕ → CalendarSyncRecord → List Call → Fate → Type 0
  IsTurn n r calls (stands event) =
      (body : EventBody) × IsCallFor digest r (upsert_call event body)
      × (calls ≡ upsert_call event body ∷ [])
      × (provider.reply n (upsert_call event body) ≡ done)
  IsTurn n r calls gone =
      (IsToGo r × (IsUnset r.external_event_id × (calls ≡ [])))
      ⊎ ((event : Text) × IsCallFor digest r (delete_call event)
          × (calls ≡ delete_call event ∷ [])
          × (provider.reply n (delete_call event) ≡ done))
  IsTurn n r calls (failed_with code) =
      (call : Call) × IsCallFor digest r call
      × (calls ≡ call ∷ [])
      × (provider.reply n call ≡ provider_error code)

  -- A round that ends, on its record.
  pub record Round (n : ℕ) (r : CalendarSyncRecord) (calls : List Call)
      (summary summary' : SyncSummary) (db db' : Db) : Type 0 where
    pub fate : Fate
    pub turn : IsTurn n r calls fate
    pub writes : db' ≡ record db { sync_rows = update sync_id r.id (written r fate) db.sync_rows }
    pub counts : summary' ≡ counted fate summary

  is_to_go : (r : CalendarSyncRecord) → to_be_deleted r ≡ true → IsToGo r
  is_to_go r h = elim (Option-cases r.shift_id) [
    | inl none_here ↦ inl none_here
    | inr (i, here) ↦ inr (pending_status r.status (let h' = rw here at h in h'))
  ]
    where
      pending_status : (s : SyncStatus) → is_pending_delete s ≡ true → s ≡ pending_delete
      pending_status pending_delete e = refl
      pending_status pending e = cc
      pending_status synced e = cc
      pending_status sync_failed e = cc
      pending_status deleted e = cc

  is_to_stand : (r : CalendarSyncRecord) → to_be_deleted r ≡ false → IsToStand r
  is_to_stand r h = elim (Option-cases r.shift_id) [
    | inl none_here ↦ absurd (let h' = rw none_here at h in cc h')
    | inr (i, here) ↦ ((i, here), λ e. let h' = rw (here, e) at h in cc h')
  ]

  module _ (n : ℕ) (r : CalendarSyncRecord) (summary : SyncSummary) (db : Db) where
    -- What a round leaves where its call succeeds.
    abbrev success : Fate → Progress
    success fate = (
      counted fate summary,
      record db { sync_rows = update sync_id r.id (written r fate) db.sync_rows },
    )

    after_call-Round :
        (fate : Fate) (call : Call) (reply : Reply) {summary' : SyncSummary} {db' : Db}
        → provider.reply n call ≡ reply
        → IsCallFor digest r call
        → (reply ≡ done → IsTurn n r (call ∷ []) fate)
        → after_call r.id reply summary db (success fate) ≡ ok (summary', db')
        → Round n r (call ∷ []) summary summary' db db'
    unfolding after_call mark_sync_failure
    after_call-Round fate call done {summary'} {db'} replied asked turn h = record {
      fate = fate;
      turn = turn refl;
      writes = (let e : (success fate).1 ≡ db' = cc h in sym e);
      counts = (let e : (success fate).0 ≡ summary' = cc h in sym e);
    }
    after_call-Round fate call token_revoked replied asked turn h = cc
    after_call-Round fate call (provider_error code) {summary'} {db'} replied asked turn h =
        record {
          fate = failed_with code;
          turn = (call, asked, refl, replied);
          writes = (let e : (success (failed_with code)).1 ≡ db' = cc h in sym e);
          counts = (let e : (success (failed_with code)).0 ≡ summary' = cc h in sym e);
        }

    delete_event-Round :
        (event : Option Text) {calls : List Call} {summary' : SyncSummary} {db' : Db}
        → r.external_event_id ≡ event
        → IsToGo r
        → delete_event digest provider n event r summary db (success gone)
          ≡ (calls, ok (summary', db'))
        → Round n r calls summary summary' db db'
    unfolding delete_event
    delete_event-Round none {calls} {summary'} {db'} e goes h = record {
      fate = gone;
      turn = inl (goes, (inl e, cc h));
      writes = (let w : (success gone).1 ≡ db' = cc h in sym w);
      counts = (let w : (success gone).0 ≡ summary' = cc h in sym w);
    }
    delete_event-Round (some []) {calls} {summary'} {db'} e goes h = record {
      fate = gone;
      turn = inl (goes, (inr e, cc h));
      writes = (let w : (success gone).1 ≡ db' = cc h in sym w);
      counts = (let w : (success gone).0 ≡ summary' = cc h in sym w);
    }
    delete_event-Round (some (c ∷ s)) {calls} {summary'} {db'} e goes h =
        let call = delete_call (c ∷ s) in
        let only : call ∷ [] ≡ calls = cc h in
        subst (λ cs. Round n r cs summary summary' db db') only
          (after_call-Round gone call (provider.reply n call) refl (goes, e)
            (λ replied. inr (c ∷ s, (goes, e), refl, replied)) (cc h))

    put_event-Round :
        (event : Result CalendarError Text) (body : Result CalendarError EventBody)
        {calls : List Call} {summary' : SyncSummary} {db' : Db}
        → IsToStand r
        → ((t : Text) → event ≡ ok t → IsEventOf digest r t)
        → ((b : EventBody) → body ≡ ok b → IsBodyOf r b)
        → put_event digest provider n event body r summary db ≡ (calls, ok (summary', db'))
        → Round n r calls summary summary' db db'
    unfolding put_event mark_sync_success
    put_event-Round (raise e) body to_stand is_event is_body h = cc
    put_event-Round (ok event) (raise e) to_stand is_event is_body h = cc
    put_event-Round (ok event) (ok body) {calls} {summary'} {db'} to_stand is_event is_body h =
        let call = upsert_call event body in
        let asked : IsCallFor digest r call =
          (to_stand, (is_event event refl, is_body body refl)) in
        let only : call ∷ [] ≡ calls = cc h in
        subst (λ cs. Round n r cs summary summary' db db') only
          (after_call-Round (stands event) call (provider.reply n call) refl asked
            (λ replied. (body, asked, refl, replied)) (cc h))

  event_id-IsEventOf :
      (r : CalendarSyncRecord) (event : Option Text) (shift : Option Uuid) (t : Text)
      → r.external_event_id ≡ event
      → r.shift_id ≡ shift
      → event_id digest event shift ≡ ok t
      → IsEventOf digest r t
  event_id-IsEventOf r none none t e i h = cc
  event_id-IsEventOf r none (some i) t e here h = inr (inl e, (i, here, cc h))
  event_id-IsEventOf r (some []) none t e i h = cc
  event_id-IsEventOf r (some []) (some i) t e here h = inr (inr e, (i, here, cc h))
  event_id-IsEventOf r (some (c ∷ s)) shift t e i h =
      let same : c ∷ s ≡ t = cc h in
      inl (e ∙ ap (λ x. some x) same, λ empty. let no : c ∷ s ≡ [] = same ∙ empty in cc no)

  event_body-IsBodyOf :
      (r : CalendarSyncRecord) (body : EventBody) → event_body r ≡ ok body → IsBodyOf r body
  unfolding event_body
  event_body-IsBodyOf r body h = elim (Option-cases r.shift) [
    | inl none_here ↦ absurd (let h' = rw (event_body, none_here) at h in cc h')
    | inr (s, here) ↦
        let h' = rw (event_body, here) at h in
        record {
          shift = s;
          joined = here;
          summary = ground arith;
          description = ground arith;
          start = ground arith;
          end = ground arith;
          named = ground arith;
        }
  ]

  pub sync_record-Round :
      (n : ℕ) (r : CalendarSyncRecord) (summary : SyncSummary) (db : Db) {calls : List Call}
      {summary' : SyncSummary} {db' : Db}
      → sync_record digest provider n r (summary, db) ≡ (calls, ok (summary', db'))
      → Round n r calls summary summary' db db'
  unfolding sync_record mark_sync_success
  sync_record-Round n r summary db h = elim (Bool-cases (to_be_deleted r)) [
    | inl goes ↦
        let h' = rw (sync_record, goes) at h in
        delete_event-Round n r summary db r.external_event_id refl (is_to_go r goes) h'
    | inr stays ↦
        let h' = rw (sync_record, stays) at h in
        put_event-Round n r summary db (event_id digest r.external_event_id r.shift_id)
          (event_body r) (is_to_stand r stays)
          (λ t e. event_id-IsEventOf r r.external_event_id r.shift_id t refl refl e)
          (λ b e. event_body-IsBodyOf r b e) h'
  ]

-- A chain that ends: the first operation does, and the calls are those of both.
pub and_then-eq-ok :
    {A B : Type 0} (first : Effect A) (next : A → Effect B) {calls : List Call} {b : B}
    → and_then first next ≡ (calls, ok b)
    → (cs : List Call) × (a : A) × (more : List Call) × (first ≡ (cs, ok a))
      × (next a ≡ (more, ok b))
      × (calls ≡ cs ++ more)
unfolding and_then
and_then-eq-ok (cs, raise e) next h = cc
and_then-eq-ok (cs, ok a) next {calls} {b} h =
    let outcome : (next a).1 ≡ ok b = cc in
    (cs, a, (next a).0, refl, ap (λ o. ((next a).0, o)) outcome, cc)
