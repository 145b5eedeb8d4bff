-- ===== src/Imports.antt =====
-- backend/app/services/imports.py with backend/app/repositories/imports.py: the review of an
-- extracted schedule, from the upload to the shifts that it becomes.
pub mod Normalize
pub mod Tables
pub mod Valid
pub mod Commit
mod Tests
use shiftmate_web.Prelude.{
  ℕ, ◌+◌, ◌%◌, ◌<◌, Bool, true, false, not, ◌&&◌, ◌||◌, Option, none, some, List, [], ◌∷◌, String,
  ltb, ◌==◌, any, find?, filter, map, if◌then◌else◌,
}
use shiftmate_web.Prelude.Result.{Result, ok, raise, ◌>>=◌, ◌>>◌, raise_if, or_raise}
use shiftmate_web.Prelude.Text.{Text, codes}
use shiftmate_web.Domain.Zone.{Date, Zones, date_of, us_per_day}
use shiftmate_web.Database.{
  Db, Uuid, ItemRow, ImportRow, review, committed, valid, ImportStatus, ItemStatus,
}
use shiftmate_web.Shifts.{get_profile_timezone, get_or}
use shiftmate_web.Imports.Normalize.{
  ImportError, ExtractedShift, NewImportItem, normalize_extracted, is_valid,
}
use shiftmate_web.Imports.Normalize.{
  gemini_not_configured, profile_not_found, import_not_found, import_item_not_found,
  import_not_reviewable, import_item_fields_invalid, invalid_item_cannot_be_confirmed,
  import_not_committable, no_confirmed_items, unknown_zone, constraint_violated,
}
use shiftmate_web.Imports.Tables.{
  NewImport, select_import, insert_import, set_extracting, save_extraction, set_failed, write_item,
  commit_items, item_id, committed_ids, in_review,
}

-- The extraction model, not code of the repository: its name, its prompt's version, and what it
-- answers, a list of shifts or an error code.
pub record Extractor : Type 0 where
  pub model_name : Text
  pub prompt_version : Text
  pub extract : Text → String → Result Text (List ExtractedShift)

-- `ImportService.create_draft`.
unfoldable pub create_draft :
    Option Extractor → Uuid → ℕ → NewImport → Db → Result ImportError ((Uuid × String) × Db)
unfolding insert_import set_extracting
create_draft extractor new_id now upload db = do
  e ← or_raise extractor gemini_not_configured
  timezone ← or_raise (get_profile_timezone db) profile_not_found
  ok (
    (new_id, timezone),
    set_extracting new_id now e.model_name e.prompt_version (insert_import new_id now upload db),
  )

-- `[_normalize_extracted(item, timezone) for item in extraction.items]`.
unfoldable pub normalize_all :
    Zones → String → List ExtractedShift → Result ImportError (List NewImportItem)
normalize_all zones timezone [] = ok []
normalize_all zones timezone (x ∷ xs) = do
  y ← normalize_extracted zones timezone x
  ys ← normalize_all zones timezone xs
  ok (y ∷ ys)

-- The `try` of `ImportService.extract`.
abbrev pub extracted :
    Zones
    → String
    → Result Text (List ExtractedShift)
    → Result ImportError (List NewImportItem × Option Text)
extracted zones timezone (raise code) = ok ([], some code)
extracted zones timezone (ok items) = do ys ← normalize_all zones timezone items; ok (ys, none)

-- `ImportService.extract`.
unfoldable pub extract :
    Zones → Option Extractor → Text → String → Result ImportError (List NewImportItem × Option Text)
unfolding normalize_all
extract zones extractor upload timezone = do
  e ← or_raise extractor gemini_not_configured
  extracted zones timezone (e.extract upload timezone)

-- `ImportService.get_import`.
unfoldable pub get_import : Uuid → Db → Result ImportError ImportRow
get_import i db = or_raise (select_import i db) import_not_found

-- `ImportService.complete_extraction`; `ids` are the ids of the items by their index.
unfoldable pub complete_extraction :
    Uuid
    → ℕ
    → (ℕ → Uuid)
    → List NewImportItem
    → Option Text
    → Db
    → Result ImportError (ImportRow × Db)
unfolding set_failed get_import
complete_extraction i now ids items (some code) db =
    let db' = set_failed i now code db in do r ← get_import i db'; ok (r, db')
complete_extraction i now ids items none db = do
  db' ← save_extraction i now ids items db
  r ← get_import i db'
  ok (r, db')

-- `ImportService.create_and_extract`.
unfoldable pub create_and_extract :
    Zones
    → Option Extractor
    → Uuid
    → ℕ
    → (ℕ → Uuid)
    → NewImport
    → Text
    → Db
    → Result ImportError (ImportRow × Db)
unfolding create_draft extract complete_extraction
create_and_extract zones extractor new_id now ids upload file db = do
  (draft, db₁) ← create_draft extractor new_id now upload db
  (items, error_code) ← extract zones extractor file draft.1
  complete_extraction draft.0 now ids items error_code db₁

-- `ImportItemUpdateRequest`: the outer `Option` is whether a field is in `model_fields_set`.
pub record ItemPatch : Type 0 where
  pub work_date : Option (Option Date)
  pub start_time : Option (Option ℕ)
  pub end_time : Option (Option ℕ)
  pub crosses_midnight : Option (Option Bool)
  pub break_minutes : Option (Option ℕ)
  pub shift_type : Option (Option Text)
  pub notes : Option (Option Text)
  pub confirmed : Option (Option Bool)

-- The wall clock of a stored instant, and its time of day. The instants of items are made with the
-- fold 0, so the fold of the time is 0 again.
abbrev pub local_of : Zones → String → Option ℕ → Option ℕ
local_of zones timezone none = none
local_of zones timezone (some t) = some (zones.to_local timezone t)

abbrev pub time_of : Option ℕ → Option ℕ
time_of none = none
time_of (some wall) = some (wall % us_per_day)

-- `current_crosses`.
abbrev pub crosses : Option ℕ → Option ℕ → Bool
crosses (some start) (some end) = ltb (date_of start) (date_of end)
crosses (some start) none = false
crosses none end = false

-- `existing.shift_type or "other"`.
abbrev pub type_or_other : Option Text → Text
type_or_other none = codes "other"
type_or_other (some []) = codes "other"
type_or_other (some (c ∷ s)) = c ∷ s

abbrev pub is_true : Option Bool → Bool
is_true (some true) = true
is_true (some false) = false
is_true none = false

-- The candidate that `update_item` builds of a patch and a stored item.
unfoldable pub candidate : Zones → String → ItemPatch → ItemRow → Result ImportError ExtractedShift
candidate zones timezone patch existing =
    let start = local_of zones timezone existing.start_at in
    let end = local_of zones timezone existing.end_at in
    do
      crosses_midnight ←
          or_raise (get_or patch.crosses_midnight (some (crosses start end)))
            import_item_fields_invalid
      break_minutes ←
          or_raise (get_or patch.break_minutes (some (get_or existing.break_minutes 0)))
            import_item_fields_invalid
      shift_type ←
          or_raise (get_or patch.shift_type (some (type_or_other existing.shift_type)))
            import_item_fields_invalid
      ok (record {
        work_date = get_or patch.work_date existing.work_date;
        start_time = get_or patch.start_time (time_of start);
        end_time = get_or patch.end_time (time_of end);
        crosses_midnight = crosses_midnight;
        break_minutes = break_minutes;
        shift_type = shift_type;
        notes = get_or patch.notes existing.notes;
        needs_review = false;
        warnings = [];
      })

-- The statements of `update_item` after the item is normalized.
store_item : Uuid → Uuid → ℕ → NewImportItem → Bool → Db → Result ImportError (ImportRow × Db)
store_item i item now normalized confirmed db = do
  raise_if (confirmed && not (is_valid normalized.validation_status))
      invalid_item_cannot_be_confirmed
  db' ← write_item i item now normalized confirmed db
  r ← get_import i db'
  ok (r, db')

-- `ImportService.update_item`.
unfoldable pub update_item :
    Zones → Uuid → Uuid → ℕ → ItemPatch → Db → Result ImportError (ImportRow × Db)
unfolding get_import candidate store_item
update_item zones i item now patch db = do
  r ← get_import i db
  raise_if (not (in_review r.status)) import_not_reviewable
  existing ← or_raise (find? (λ x. item_id x == item) r.items) import_item_not_found
  timezone ← or_raise (get_profile_timezone db) profile_not_found
  raise_if (not (zones.known timezone)) unknown_zone
  c ← candidate zones timezone patch existing
  normalized ← normalize_extracted zones timezone c
  store_item i item now normalized (is_true (get_or patch.confirmed (some existing.confirmed))) db

-- The tests of `commit` on the status and on the items.
unfoldable pub commit_checked :
    Uuid → (Uuid → Uuid) → ℕ → ImportRow → Db → Result ImportError (List Uuid × Db)
commit_checked i mint now r db = elim r.status [
  | committed ↦ ok (committed_ids r.items, db)
  | review ↦
      if any (λ x. x.confirmed && is_valid x.validation_status) r.items
      then commit_items i mint now r db
      else raise no_confirmed_items
  | _ ↦ raise import_not_committable
]

-- `ImportService.commit`; `mint` is the id that the database draws for the shift of an item.
unfoldable pub commit : Uuid → (Uuid → Uuid) → ℕ → Db → Result ImportError (List Uuid × Db)
unfolding get_import commit_checked
commit i mint now db = do r ← get_import i db; commit_checked i mint now r db
