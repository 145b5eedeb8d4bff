-- ===== src/Imports/Tests.antt =====
-- The theorems on backend/app/services/imports.py at concrete inputs.
use shiftmate_web.Prelude.{
  ◌+◌, ◌*◌, ◌≡◌, refl, false, none, some, List, [], ◌∷◌, length, map, arith,
}
use shiftmate_web.Prelude.Result.{ok, raise}
use shiftmate_web.Prelude.Text.{codes}
use shiftmate_web.Domain.Zone.{us_per_day}
use shiftmate_web.Domain.Schedule.{make_shift}
use shiftmate_web.Database.{Db, Uuid, ShiftRecord, ImportRow, committed, import_source, valid}
use shiftmate_web.Shifts.{insert_shift}
use shiftmate_web.Imports.Normalize.{
  ExtractedShift, NewImportItem, constraint_violated, is_valid, normalize_extracted,
  normalize_parts, normalize_timed, time_warnings, first_warnings, distinct_from, is_ambiguous,
  is_nonexistent,
}
use shiftmate_web.Imports.Tables.{select_import, insert_items, commit_items, commit_rows}
use shiftmate_web.Imports.{commit, get_import, commit_checked}
use shiftmate_web.Shifts.Deletion.{Pairwise}
use shiftmate_web.Imports.Commit.{IsShiftOf, inserted_in, due_items, commit_once}
use shiftmate_web.Imports.Valid.{IsChecked, normalize_extracted-IsChecked, inverted_item_refused}
use shiftmate_web.Examples.{utc, hour, db, shift, item, import_row}

abbrev mint : Uuid → Uuid
mint i = i + 100

abbrev new_shift : ShiftRecord
new_shift = record {
  id = 121;
  work_date = 4;
  start_at = 3 * us_per_day + 9 * hour;
  end_at = 3 * us_per_day + 17 * hour;
  break_minutes = 30;
  shift_type = codes "day";
  notes = none;
  source = import_source;
  created_at = 9;
  updated_at = 9;
}

-- The first item has become a shift; the second is not confirmed.
abbrev done : ImportRow
done = record import_row {
  status = committed;
  updated_at = 9;
  items =
      record item { committed_shift_id = some 121 }
      ∷ record item { id = 22; confirmed = false }
      ∷ [];
}

abbrev after_commit : Db
after_commit = record db { shifts = new_shift ∷ shift ∷ []; imports = done ∷ [] }

abbrev created : List Uuid
created = 121 ∷ []

run_commit : commit 11 mint 9 db ≡ ok (created, after_commit)
unfolding commit get_import select_import commit_checked commit_items commit_rows insert_shift
run_commit = refl

found_import : select_import 11 db ≡ some import_row
unfolding select_import
found_import = refl

commit_once_example :
    (new_shifts : List ShiftRecord) × Pairwise
      (IsShiftOf mint 9)
      (due_items import_row.items)
      new_shifts
    × (after_commit.shifts ≡ inserted_in new_shifts db.shifts)
    × (created ≡ map (λ x. mint x.id) (due_items import_row.items))
    × (length after_commit.shifts ≡ length db.shifts + length created)
    × (commit 11 mint 50 after_commit ≡ ok (created, after_commit))
commit_once_example =
    commit_once 11 mint mint 9 50 db import_row found_import refl (refl, (refl, tt)) run_commit

abbrev read : ExtractedShift
read = record {
  work_date = some 4;
  start_time = some (9 * hour);
  end_time = some (17 * hour);
  crosses_midnight = false;
  break_minutes = 30;
  shift_type = codes "day";
  notes = none;
  needs_review = false;
  warnings = [];
}

abbrev checked : NewImportItem
checked = record {
  needs_review = false;
  work_date = some 4;
  start_at = some (3 * us_per_day + 9 * hour);
  end_at = some (3 * us_per_day + 17 * hour);
  break_minutes = 30;
  shift_type = codes "day";
  notes = none;
  validation_status = valid;
  warnings = [];
}

run_normalize : normalize_extracted utc "UTC" read ≡ ok checked
unfolding normalize_extracted normalize_parts normalize_timed first_warnings distinct_from
    time_warnings is_ambiguous is_nonexistent make_shift
run_normalize = refl

normalize_extracted-IsChecked_example :
    IsChecked utc "UTC" read read.work_date read.start_time read.end_time checked
normalize_extracted-IsChecked_example =
    normalize_extracted-IsChecked utc "UTC" read run_normalize refl

-- The end is before the start, and the next day is not marked.
abbrev inverted : ExtractedShift
inverted = record read { start_time = some (22 * hour); end_time = some (6 * hour) }

inverted_item_refused_example :
    (n : NewImportItem) × (normalize_extracted utc "UTC" inverted ≡ ok n)
    × (is_valid n.validation_status ≡ false)
    × (insert_items (λ i. i) 0 (n ∷ checked ∷ []) ≡ raise constraint_violated)
inverted_item_refused_example =
    inverted_item_refused utc "UTC" inverted 4 (22 * hour) (6 * hour) 0 (λ i. i) (checked ∷ []) refl
      refl refl refl (omega arith)
