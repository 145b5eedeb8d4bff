-- ===== src/Shifts.antt =====
-- backend/app/repositories/shifts.py and backend/app/services/shifts.py.
pub mod Stored
pub mod Deletion
mod Tests
use shiftmate_web.Prelude.{
  ℕ, ◌≤◌, Bool, true, false, not, ◌&&◌, ◌||◌, Option, none, some, List, [], ◌∷◌, String, leb, ltb,
  ◌==◌, filter, map, sort_by, if◌then◌else◌,
}
use shiftmate_web.Prelude.Result.{Result, ok, raise, ◌>>=◌, ◌>>◌, raise_if, or_raise, map_error}
use shiftmate_web.Prelude.Text.{Text}
use shiftmate_web.Domain.Zone.{Date, Zones, Datetime, aware}
use shiftmate_web.Domain.Schedule.{ScheduleError, Shift, BreakValue, minutes, make_shift, work_date}
use shiftmate_web.Database.{
  Db, Uuid, Source, manual, ShiftRecord, NewShift, SyncRow, pending_delete, deleted, SyncStatus,
  ItemRow, ImportRow, Profile,
}
use shiftmate_web.Database.Rows.{select, update, delete, has_id}

-- `ProfileNotFoundError`, `ShiftNotFoundError`, and `ShiftServiceError` by its messages.
pub data ShiftError : Type 0 where
  profile_not_found shift_not_found date_range_invalid : ShiftError
  invalid_shift : ScheduleError → ShiftError

abbrev pub shift_id : ShiftRecord → Uuid
shift_id s = s.id

-- `SELECT timezone FROM profiles`.
abbrev pub get_profile_timezone : Db → Option String
get_profile_timezone db = elim db.profile [ none ↦ none | some p ↦ some p.timezone ]

-- `work_date >= :date_from AND work_date <= :date_to`, each where it is given.
unfoldable pub in_range : Option Date → Option Date → Date → Bool
in_range none none day = true
in_range (some from) none day = leb from day
in_range none (some to) day = leb day to
in_range (some from) (some to) day = leb from day && leb day to

-- `ORDER BY start_at, id`.
abbrev pub shift_before : ShiftRecord → ShiftRecord → Bool
shift_before a b = ltb a.start_at b.start_at || (a.start_at == b.start_at && leb a.id b.id)

-- `PostgresShiftRepository.list_shifts`.
unfoldable pub select_shifts : Option Date → Option Date → Db → List ShiftRecord
unfolding in_range
select_shifts from to db =
    sort_by shift_before (filter (λ s. in_range from to s.work_date) db.shifts)

-- `PostgresShiftRepository.get_shift`.
abbrev pub get_shift : Uuid → Db → Option ShiftRecord
get_shift i db = select shift_id i db.shifts

-- `INSERT INTO shifts ... RETURNING`.
unfoldable pub insert_shift : Source → Uuid → ℕ → NewShift → Db → ShiftRecord × Db
insert_shift source new_id now new db =
    let row : ShiftRecord = record {
      id = new_id;
      work_date = new.work_date;
      start_at = new.start_at;
      end_at = new.end_at;
      break_minutes = new.break_minutes;
      shift_type = new.shift_type;
      notes = new.notes;
      source = source;
      created_at = now;
      updated_at = now;
    } in
    (row, record db { shifts = row ∷ db.shifts })

-- The row that `UPDATE shifts SET ...` leaves.
abbrev pub rewritten : ℕ → NewShift → ShiftRecord → ShiftRecord
rewritten now new s = record s {
  work_date = new.work_date;
  start_at = new.start_at;
  end_at = new.end_at;
  break_minutes = new.break_minutes;
  shift_type = new.shift_type;
  notes = new.notes;
  updated_at = now;
}

-- `UPDATE shifts SET ... WHERE id = :shift_id RETURNING`.
unfoldable pub replace_shift : Uuid → ℕ → NewShift → Db → Option (ShiftRecord × Db)
replace_shift i now new db = elim (select shift_id i db.shifts) [
  | none ↦ none
  | some s ↦
      some (
        rewritten now new s,
        record db { shifts = update shift_id i (rewritten now new) db.shifts },
      )
]

-- `x = i`, where `x` may be NULL.
abbrev pub is_id : Option Uuid → Uuid → Bool
is_id none i = false
is_id (some j) i = j == i

abbrev pub is_deleted : SyncStatus → Bool
is_deleted deleted = true
is_deleted _ = false

-- `UPDATE calendar_sync_records SET status = 'pending_delete' ... AND status <> 'deleted'`.
unfoldable pub mark_sync : Uuid → SyncRow → SyncRow
mark_sync i r =
    if is_id r.shift_id i && not (is_deleted r.status)
    then record r { status = pending_delete; last_error_code = none }
    else r

-- The foreign key's ON DELETE SET NULL on a row of `calendar_sync_records`
-- (migrations/versions/20260902_0005_calendar_sync_safety.py).
unfoldable pub unlink_sync : Uuid → SyncRow → SyncRow
unlink_sync i r = if is_id r.shift_id i then record r { shift_id = none } else r

-- The same of an import's item (migrations/versions/20260902_0003_import_commit_link.py).
unfoldable pub unlink_item : Uuid → ItemRow → ItemRow
unlink_item i r = if is_id r.committed_shift_id i then record r { committed_shift_id = none } else r

unfoldable pub unlink_import : Uuid → ImportRow → ImportRow
unfolding unlink_item
unlink_import i r = record r { items = map (unlink_item i) r.items }

-- `PostgresShiftRepository.delete_shift`.
unfoldable pub remove_shift : Uuid → Db → Bool × Db
unfolding mark_sync unlink_sync unlink_import
remove_shift i db =
    let marked = map (mark_sync i) db.sync_rows in
    if has_id shift_id i db.shifts
    then (
      true,
      record db {
        shifts = delete shift_id i db.shifts;
        sync_rows = map (unlink_sync i) marked;
        imports = map (unlink_import i) db.imports;
      },
    )
    else (false, record db { sync_rows = marked })

-- `CreateShiftCommand`.
pub record CreateShiftCommand : Type 0 where
  pub start_at : Datetime
  pub end_at : Datetime
  pub break_minutes : BreakValue
  pub shift_type : Text
  pub notes : Option Text

-- `UpdateShiftCommand`.
pub record UpdateShiftCommand : Type 0 where
  pub start_at : Option Datetime
  pub end_at : Option Datetime
  pub break_minutes : Option BreakValue
  pub shift_type : Option Text
  pub notes : Option Text
  pub notes_supplied : Bool

-- The `NewShift(...)` of a validated shift.
abbrev pub to_new_shift : Zones → Option Text → Shift → NewShift
to_new_shift zones notes s = record {
  work_date = work_date zones s;
  start_at = s.start_at;
  end_at = s.end_at;
  break_minutes = s.break_minutes;
  shift_type = s.shift_type;
  notes = notes;
}

abbrev pub get_or {ℓ} : {A : Type ℓ} → Option A → A → A
get_or none d = d
get_or (some a) d = a

-- `command.shift_type or existing.shift_type`: an empty text is false in Python.
unfoldable pub type_or : Option Text → Text → Text
type_or none d = d
type_or (some []) d = d
type_or (some (c ∷ s)) d = c ∷ s

-- `date_from is not None and date_to is not None and date_to < date_from`.
abbrev pub reversed : Option Date → Option Date → Bool
reversed (some from) (some to) = ltb to from
reversed (some from) none = false
reversed none to = false

-- `ShiftService.list_shifts`.
unfoldable pub list_shifts : Option Date → Option Date → Db → Result ShiftError (List ShiftRecord)
unfolding select_shifts
list_shifts from to db = do
  raise_if (reversed from to) date_range_invalid
  ok (select_shifts from to db)

module _ (zones : Zones) where
  -- `ShiftService.create_shift`.
  unfoldable pub create_shift :
      Uuid → ℕ → CreateShiftCommand → Db → Result ShiftError (ShiftRecord × Db)
  create_shift new_id now command db = do
    timezone ← or_raise (get_profile_timezone db) profile_not_found
    shift ← map_error invalid_shift (
        make_shift zones command.start_at command.end_at command.break_minutes timezone
          command.shift_type)
    ok (insert_shift manual new_id now (to_new_shift zones command.notes shift) db)

  -- The `Shift(...)` of `update_shift`.
  patched : UpdateShiftCommand → ShiftRecord → String → Result ScheduleError Shift
  patched command existing timezone =
      make_shift zones (get_or command.start_at (aware existing.start_at))
        (get_or command.end_at (aware existing.end_at))
        (get_or command.break_minutes (minutes existing.break_minutes)) timezone
        (type_or command.shift_type existing.shift_type)

  -- `ShiftService.update_shift`.
  unfoldable pub update_shift :
      Uuid → ℕ → UpdateShiftCommand → Db → Result ShiftError (ShiftRecord × Db)
  unfolding patched
  update_shift i now command db = do
    existing ← or_raise (get_shift i db) shift_not_found
    timezone ← or_raise (get_profile_timezone db) profile_not_found
    shift ← map_error invalid_shift (patched command existing timezone)
    or_raise
        (replace_shift i now
          (to_new_shift zones (if command.notes_supplied then command.notes else existing.notes)
            shift)
          db)
        shift_not_found

-- `ShiftService.delete_shift`.
unfoldable pub delete_shift : Uuid → Db → Result ShiftError (Unit {0} × Db)
delete_shift i db =
    let (done, db') = remove_shift i db in if done then ok (tt, db') else raise shift_not_found
