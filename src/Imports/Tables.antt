-- ===== src/Imports/Tables.antt =====
-- backend/app/repositories/imports.py: the statements on `shift_imports` and `shift_import_items`.
use shiftmate_web.Prelude.{
  not, ℕ, suc, Bool, true, false, ◌&&◌, Option, none, some, List, [], ◌∷◌, ◌++◌, ltb, ◌==◌, any,
  if◌then◌else◌,
}
use shiftmate_web.Prelude.Result.{Result, ok, raise, ◌>>=◌, or_raise, raise_if, ◌>>◌}
use shiftmate_web.Prelude.Text.{Text}
use shiftmate_web.Domain.Zone.{Date}
use shiftmate_web.Database.{
  Db, Uuid, ItemRow, ImportRow, ImportStatus, uploaded, extracting, review, committed, failed,
  NewShift, import_source,
}
use shiftmate_web.Database.Rows.{select, update, has_id}
use shiftmate_web.Shifts.{insert_shift}
use shiftmate_web.Imports.Normalize.{
  ImportError, NewImportItem, is_valid, import_item_not_found, constraint_violated,
}

-- `NewImport`.
pub record NewImport : Type 0 where
  pub filename : Text
  pub media_type : Text
  pub sha256 : Text

abbrev pub import_id : ImportRow → Uuid
import_id r = r.id

abbrev pub item_id : ItemRow → Uuid
item_id x = x.id

-- `get_import`.
unfoldable pub select_import : Uuid → Db → Option ImportRow
select_import i db = select import_id i db.imports

-- `UPDATE shift_imports SET ... WHERE id = :import_id`, a change of one row.
abbrev pub change_import : Uuid → (ImportRow → ImportRow) → Db → Db
change_import i f db = record db { imports = update import_id i f db.imports }

-- `create_import`: the status is the column's default.
unfoldable pub insert_import : Uuid → ℕ → NewImport → Db → Db
insert_import new_id now new db =
    let row : ImportRow = record {
      id = new_id;
      filename = new.filename;
      media_type = new.media_type;
      sha256 = new.sha256;
      status = uploaded;
      model_name = none;
      prompt_version = none;
      error_code = none;
      created_at = now;
      updated_at = now;
      items = [];
    } in
    record db { imports = row ∷ db.imports }

-- `status IN ('uploaded', 'failed')`.
abbrev pub may_extract : ImportStatus → Bool
may_extract uploaded = true
may_extract failed = true
may_extract _ = false

abbrev pub is_extracting : ImportStatus → Bool
is_extracting extracting = true
is_extracting _ = false

unfoldable pub set_extracting : Uuid → ℕ → Text → Text → Db → Db
set_extracting i now model prompt = change_import i (λ r.
    if may_extract r.status
    then record r {
      status = extracting;
      model_name = some model;
      prompt_version = some prompt;
      error_code = none;
      updated_at = now;
    }
    else r)

unfoldable pub set_failed : Uuid → ℕ → Text → Db → Db
set_failed i now code = change_import i (λ r.
    if is_extracting r.status
    then record r { status = failed; error_code = some code; updated_at = now }
    else r)

-- The constraint `ck_shift_import_items_time_range`
-- (migrations/versions/20260902_0002_remaining_schema.py).
abbrev pub item_accepted : Option ℕ → Option ℕ → Bool
item_accepted (some start) (some end) = ltb start end
item_accepted (some start) none = true
item_accepted none end = true

-- `INSERT INTO shift_import_items`, for the items from an index on.
unfoldable pub insert_items :
    (ℕ → Uuid) → ℕ → List NewImportItem → Result ImportError (List ItemRow)
insert_items ids index [] = ok []
insert_items ids index (x ∷ xs) =
    let rest = insert_items ids (suc index) xs in
    if item_accepted x.start_at x.end_at
    then (do
      rows ← rest
      ok (
          record {
            id = ids index;
            work_date = x.work_date;
            start_at = x.start_at;
            end_at = x.end_at;
            break_minutes = some x.break_minutes;
            shift_type = some x.shift_type;
            notes = x.notes;
            validation_status = x.validation_status;
            needs_review = x.needs_review;
            warnings = x.warnings;
            confirmed = false;
            committed_shift_id = none;
          }
          ∷ rows))
    else raise constraint_violated

-- `save_extraction`: the old items go, the new ones come, and the status is set; an item of an import
-- that is not there meets the foreign key.
unfoldable pub save_extraction :
    Uuid → ℕ → (ℕ → Uuid) → List NewImportItem → Db → Result ImportError Db
unfolding insert_items
save_extraction i now ids items db = do
  rows ← insert_items ids 0 items
  raise_if (any (λ row. true) rows && not (has_id import_id i db.imports)) constraint_violated
  ok (
      change_import i
        (λ r.
          let r' : ImportRow = record r { items = rows } in
          if is_extracting r.status then record r' { status = review; updated_at = now } else r')
        db)

-- What `UPDATE shift_import_items` sets.
abbrev pub rewritten : NewImportItem → Bool → ItemRow → ItemRow
rewritten new confirmed x = record x {
  work_date = new.work_date;
  start_at = new.start_at;
  end_at = new.end_at;
  break_minutes = some new.break_minutes;
  shift_type = some new.shift_type;
  notes = new.notes;
  validation_status = new.validation_status;
  warnings = new.warnings;
  confirmed = confirmed;
}

abbrev pub is_open : ItemRow → Bool
is_open x = elim x.committed_shift_id [ none ↦ true | some s ↦ false ]

-- `WHERE id = :item_id AND committed_shift_id IS NULL`, in the items of the import.
unfoldable pub update_items : Uuid → NewImportItem → Bool → List ItemRow → List ItemRow
update_items item new confirmed [] = []
update_items item new confirmed (x ∷ xs) =
    (if x.id == item && is_open x then rewritten new confirmed x else x)
    ∷ update_items item new confirmed xs

abbrev pub has_open : Uuid → Option ImportRow → Bool
has_open item none = false
has_open item (some r) = any (λ x. x.id == item && is_open x) r.items

-- `update_item`: an error where no row is updated, or where the constraint on the times fails.
unfoldable pub write_item : Uuid → Uuid → ℕ → NewImportItem → Bool → Db → Result ImportError Db
unfolding update_items
write_item i item now new confirmed db =
    if has_open item (select import_id i db.imports)
    then if item_accepted new.start_at new.end_at
      then ok
          (change_import i (λ r. record r { items = update_items item new confirmed r.items }) db)
      else raise constraint_violated
    else raise import_item_not_found

-- `confirmed_at IS NOT NULL AND validation_status = 'valid' AND committed_shift_id IS NULL`.
abbrev pub is_due : ItemRow → Bool
is_due x = x.confirmed && is_valid x.validation_status && is_open x

-- The values of `INSERT INTO shifts`: none where a column that is NOT NULL has no value.
abbrev pub shift_values :
    Option Date → Option ℕ → Option ℕ → Option ℕ → Option Text → Option Text → Option NewShift
shift_values (some day) (some start) (some end) (some pause) (some kind) notes = some (record {
  work_date = day;
  start_at = start;
  end_at = end;
  break_minutes = pause;
  shift_type = kind;
  notes = notes;
})
shift_values _ _ _ _ _ notes = none

abbrev pub to_new_shift : ItemRow → Option NewShift
to_new_shift x = shift_values x.work_date x.start_at x.end_at x.break_minutes x.shift_type x.notes

-- The loop over the rows that are due: each becomes a shift and gets its id, in the order of
-- `item_index`; the ids that are created are returned.
unfoldable pub commit_rows :
    (Uuid → Uuid) → ℕ → List ItemRow → Db → Result ImportError (List Uuid × List ItemRow × Db)
commit_rows mint now [] db = ok ([], [], db)
commit_rows mint now (x ∷ xs) db = elim (is_due x) [
  | false ↦ do (ids, rows, db') ← commit_rows mint now xs db; ok (ids, x ∷ rows, db')
  | true ↦ do
    new ← or_raise (to_new_shift x) constraint_violated
    (ids, rows, db') ← commit_rows mint now xs (insert_shift import_source (mint x.id) now new db).1
    ok (mint x.id ∷ ids, record x { committed_shift_id = some (mint x.id) } ∷ rows, db')
]

-- The ids of the items that are committed.
abbrev pub committed_ids : List ItemRow → List Uuid
committed_ids [] = []
committed_ids (x ∷ xs) = elim x.committed_shift_id [
  | none ↦ committed_ids xs
  | some s ↦ s ∷ committed_ids xs
]

abbrev pub in_review : ImportStatus → Bool
in_review review = true
in_review _ = false

-- `commit`, for an import that is not committed: what the earlier ones have created comes first.
unfoldable pub commit_items :
    Uuid → (Uuid → Uuid) → ℕ → ImportRow → Db → Result ImportError (List Uuid × Db)
unfolding commit_rows
commit_items i mint now r db = do
  (ids, rows, db') ← commit_rows mint now r.items db
  ok (
    committed_ids r.items ++ ids,
    change_import i
        (λ r.
          let r' : ImportRow = record r { items = rows } in
          if in_review r.status then record r' { status = committed; updated_at = now } else r')
        db',
  )
