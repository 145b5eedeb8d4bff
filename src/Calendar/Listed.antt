-- ===== src/Calendar/Listed.antt =====
-- The rows that `CalendarService.sync` of backend/app/services/calendar.py prepares, and those that it
-- goes through.
use shiftmate_web.Prelude.{
  ℕ, ◌≡◌, ◌⊎◌, refl, sym, subst, ap, ◌∙◌, Bool, true, false, Option, none, some, List, [], ◌∷◌,
  ◌++◌, arith, ◌==◌, All, any, filter, map, sort_by, Bool-cases, inl, inr,
}
use shiftmate_web.Prelude.Sorting.{All-sort_by, any-sort_by}
use shiftmate_web.Domain.Zone.{Date}
use shiftmate_web.Database.{
  Db, Uuid, ShiftRecord, SyncRow, SyncStatus, pending, synced, pending_delete, sync_failed, deleted,
}
use shiftmate_web.Shifts.{in_range, is_deleted}
use shiftmate_web.Calendar.Tables.{
  CalendarSyncRecord, has_shift, insert_sync_rows, ensure_sync_records, joined, range_condition,
  listed, to_sync_record, sync_before, list_sync_records,
}

-- A row that a synchronisation adds.
abbrev pub IsNewRow : SyncRow → Type 0
IsNewRow q = (q.status ≡ pending) × ((q.external_event_id ≡ none) × (q.retry_count ≡ 0))

-- The rows with those for some shifts: the new ones come in front of the old ones, and each shift has
-- one.
pub record Ensured (shifts : List ShiftRecord) (rows rows' : List SyncRow) : Type 0 where
  pub added : List SyncRow
  pub all_new : All IsNewRow added
  pub in_front : rows' ≡ added ++ rows
  pub each : All (λ s. has_shift s.id rows' ≡ true) shifts

has_shift-append :
    (i : Uuid) (added rows : List SyncRow)
    → has_shift i rows ≡ true
    → has_shift i (added ++ rows) ≡ true
has_shift-append i [] rows h = h
has_shift-append i (q ∷ added) rows h = ground (arith, has_shift-append i added rows h)

append_one :
    (added rows : List SyncRow) (q : SyncRow) → added ++ (q ∷ rows) ≡ (added ++ (q ∷ [])) ++ rows
append_one [] rows q = refl
append_one (x ∷ added) rows q = ap (λ xs. x ∷ xs) (append_one added rows q)

All-snoc :
    (added : List SyncRow) (q : SyncRow)
    → All IsNewRow added
    → IsNewRow q
    → All IsNewRow (added ++ (q ∷ []))
All-snoc [] q a new = (new, tt)
All-snoc (x ∷ added) q a new = (a.0, All-snoc added q a.1 new)

insert_sync_rows-Ensured :
    (mint : Uuid → Uuid) (now : ℕ) (shifts : List ShiftRecord) (rows : List SyncRow)
    → Ensured shifts rows (insert_sync_rows mint now shifts rows)
unfolding insert_sync_rows
insert_sync_rows-Ensured mint now [] rows = record {
  added = [];
  all_new = tt;
  in_front = refl;
  each = tt;
}
insert_sync_rows-Ensured mint now (s ∷ shifts) rows = elim (Bool-cases (has_shift s.id rows)) [
  | inl there ↦
      let e = insert_sync_rows-Ensured mint now shifts rows in
      rw there (record {
        added = e.added;
        all_new = e.all_new;
        in_front = e.in_front;
        each = (rw (e.in_front) (has_shift-append s.id e.added rows there), e.each);
      })
  | inr missing ↦
      let q : SyncRow = record {
        id = mint s.id;
        shift_id = some s.id;
        external_event_id = none;
        status = pending;
        retry_count = 0;
        last_error_code = none;
        created_at = now;
      } in
      let e = insert_sync_rows-Ensured mint now shifts (q ∷ rows) in
      let own : has_shift s.id (q ∷ rows) ≡ true = ground arith in
      rw missing (record {
        added = e.added ++ (q ∷ []);
        all_new = All-snoc e.added q e.all_new (refl, (refl, refl));
        in_front = e.in_front ∙ append_one e.added rows q;
        each = (rw (e.in_front) (has_shift-append s.id e.added (q ∷ rows) own), e.each);
      })
]

pub ensure_sync_records-Ensured :
    (mint : Uuid → Uuid) (now : ℕ) (from to : Option Date) (db : Db)
    → Ensured
        (filter (λ s. in_range from to s.work_date) db.shifts)
        db.sync_rows
        (ensure_sync_records mint now from to db).sync_rows
unfolding ensure_sync_records
ensure_sync_records-Ensured mint now from to db =
    insert_sync_rows-Ensured mint now (filter (λ s. in_range from to s.work_date) db.shifts)
      db.sync_rows

-- A row that is to be gone through: it is not deleted, and it names no shift, or a shift on a day of
-- the range, or there is no range.
abbrev pub IsDue :
    Option Date → Option Date → SyncStatus → Option Uuid → Option ShiftRecord → Type 0
IsDue from to status shift_id shift =
    (status ≡ deleted → ⊥)
    × ((shift_id ≡ none)
        ⊎ (((from ≡ none) × (to ≡ none))
            ⊎ ((s : ShiftRecord) × (shift ≡ some s) × (in_range from to s.work_date ≡ true))))

range-IsDue :
    (from to : Option Date) (shift_id : Option Uuid) (shift : Option ShiftRecord)
    → range_condition from to shift_id shift ≡ true
    → (shift_id ≡ none)
      ⊎ (((from ≡ none) × (to ≡ none))
          ⊎ ((s : ShiftRecord) × (shift ≡ some s) × (in_range from to s.work_date ≡ true)))
range-IsDue from to none shift h = inl refl
range-IsDue none none (some i) shift h = inr (inl (refl, refl))
range-IsDue none (some b) (some i) none h = cc
range-IsDue (some a) none (some i) none h = cc
range-IsDue (some a) (some b) (some i) none h = cc
range-IsDue none (some b) (some i) (some s) h = inr (inr (s, refl, h))
range-IsDue (some a) none (some i) (some s) h = inr (inr (s, refl, h))
range-IsDue (some a) (some b) (some i) (some s) h = inr (inr (s, refl, h))

range-IsDue_not :
    (from to : Option Date) (shift_id : Option Uuid) (shift : Option ShiftRecord)
    → range_condition from to shift_id shift ≡ false
    → (shift_id ≡ none)
      ⊎ (((from ≡ none) × (to ≡ none))
          ⊎ ((s : ShiftRecord) × (shift ≡ some s) × (in_range from to s.work_date ≡ true)))
    → ⊥
range-IsDue_not from to shift_id shift h (inl e) = let h' = rw e at h in cc h'
range-IsDue_not from to none shift h (inr d) = cc h
range-IsDue_not from to (some i) shift h (inr (inl (a, b))) = let h' = rw (a, b) at h in cc h'
range-IsDue_not none none (some i) shift h (inr (inr (s, e, inside))) = cc h
range-IsDue_not none (some b) (some i) shift h (inr (inr (s, e, inside))) =
    let h' = rw e at h in cc (h', inside)
range-IsDue_not (some a) none (some i) shift h (inr (inr (s, e, inside))) =
    let h' = rw e at h in cc (h', inside)
range-IsDue_not (some a) (some b) (some i) shift h (inr (inr (s, e, inside))) =
    let h' = rw e at h in cc (h', inside)

deleted_status : (s : SyncStatus) → is_deleted s ≡ true → s ≡ deleted
deleted_status deleted h = refl
deleted_status pending h = cc
deleted_status synced h = cc
deleted_status sync_failed h = cc
deleted_status pending_delete h = cc

module _ (from to : Option Date) (shifts : List ShiftRecord) where
  abbrev pub IsDueRow : SyncRow → Type 0
  IsDueRow q = IsDue from to q.status q.shift_id (joined q.shift_id shifts)

  abbrev pub IsDueRecord : CalendarSyncRecord → Type 0
  IsDueRecord r = IsDue from to r.status r.shift_id r.shift

  abbrev pub has_record : Uuid → List CalendarSyncRecord → Bool
  has_record i records = any (λ r. i == r.id) records

  listed-IsDueRow : (q : SyncRow) → listed from to shifts q ≡ true → IsDueRow q
  listed-IsDueRow q h =
      let here : is_deleted q.status ≡ false = ground arith in
      let condition : range_condition from to q.shift_id (joined q.shift_id shifts) ≡ true =
        ground arith in
      (
        λ e. let h' = rw e at here in cc h',
        range-IsDue from to q.shift_id (joined q.shift_id shifts) condition,
      )

  unlisted-IsDueRow : (q : SyncRow) → listed from to shifts q ≡ false → IsDueRow q → ⊥
  unlisted-IsDueRow q h (kept, inside) = elim (Bool-cases (is_deleted q.status)) [
    | inl gone ↦ kept (deleted_status q.status gone)
    | inr here ↦
        let condition : range_condition from to q.shift_id (joined q.shift_id shifts) ≡ false =
          ground arith in
        range-IsDue_not from to q.shift_id (joined q.shift_id shifts) condition inside
  ]

  All-IsDueRecord :
      (rows : List SyncRow)
      → All IsDueRecord (map (to_sync_record shifts) (filter (listed from to shifts) rows))
  All-IsDueRecord [] = tt
  All-IsDueRecord (q ∷ rows) = elim (Bool-cases (listed from to shifts q)) [
    | inl here ↦ rw here (listed-IsDueRow q here, All-IsDueRecord rows)
    | inr there ↦ rw there (All-IsDueRecord rows)
  ]

  -- Whether a row is among the records, or is not to be.
  abbrev pub IsListed : List CalendarSyncRecord → SyncRow → Type 0
  IsListed records q = (has_record q.id records ≡ true) ⊎ (IsDueRow q → ⊥)

  -- More records keep what is listed.
  more-IsListed :
      (r : CalendarSyncRecord) (records : List CalendarSyncRecord) (rows : List SyncRow)
      → All (IsListed records) rows
      → All (IsListed (r ∷ records)) rows
  more-IsListed r records [] a = tt
  more-IsListed r records (q ∷ rows) a = (
    elim a.0 [ inl e ↦ inl (ground arith) | inr unasked ↦ inr unasked ],
    more-IsListed r records rows a.1,
  )

  All-IsListed :
      (rows : List SyncRow)
      → All (IsListed (map (to_sync_record shifts) (filter (listed from to shifts) rows))) rows
  All-IsListed [] = tt
  All-IsListed (q ∷ rows) = elim (Bool-cases (listed from to shifts q)) [
    | inl here ↦
        let kept : filter (listed from to shifts) (q ∷ rows)
            ≡ q ∷ filter (listed from to shifts) rows =
          rw here refl in
        subst (λ due. All (IsListed (map (to_sync_record shifts) due)) (q ∷ rows)) (sym kept)
          (inl (ground arith), more-IsListed (to_sync_record shifts q) _ rows (All-IsListed rows))
    | inr there ↦
        let left : filter (listed from to shifts) (q ∷ rows) ≡ filter (listed from to shifts) rows =
          rw there refl in
        subst (λ due. All (IsListed (map (to_sync_record shifts) due)) (q ∷ rows)) (sym left)
          (inr (unlisted-IsDueRow q there), All-IsListed rows)
  ]

  sorted-IsListed :
      (records : List CalendarSyncRecord) (rows : List SyncRow)
      → All (IsListed records) rows
      → All (IsListed (sort_by sync_before records)) rows
  sorted-IsListed records [] a = tt
  sorted-IsListed records (q ∷ rows) a = (
    elim a.0 [
      | inl e ↦ inl (any-sort_by sync_before (λ r. q.id == r.id) records ∙ e)
      | inr unasked ↦ inr unasked
    ],
    sorted-IsListed records rows a.1,
  )

-- The records of a database are to be gone through, and every row that is to be has its record.
pub list_sync_records-AreDue :
    (from to : Option Date) (db : Db)
    → All (IsDueRecord from to db.shifts) (list_sync_records from to db)
      × All (IsListed from to db.shifts (list_sync_records from to db)) db.sync_rows
unfolding list_sync_records
list_sync_records-AreDue from to db = (
  All-sort_by (IsDueRecord from to db.shifts) sync_before _
      (All-IsDueRecord from to db.shifts db.sync_rows),
  sorted-IsListed from to db.shifts _ db.sync_rows (All-IsListed from to db.shifts db.sync_rows),
)
