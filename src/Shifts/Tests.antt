-- ===== src/Shifts/Tests.antt =====
-- The theorems on backend/app/services/shifts.py at concrete inputs.
use shiftmate_web.Prelude.{◌+◌, ◌*◌, ◌≡◌, refl, true, false, none, some, [], ◌∷◌, arith}
use shiftmate_web.Prelude.Result.{ok}
use shiftmate_web.Prelude.Text.{codes}
use shiftmate_web.Domain.Zone.{aware, us_per_day}
use shiftmate_web.Domain.Schedule.{minutes, make_shift, work_date}
use shiftmate_web.Database.{Db, ShiftRecord, pending_delete, manual}
use shiftmate_web.Database.Rows.{has_id}
use shiftmate_web.Shifts.{
  CreateShiftCommand, UpdateShiftCommand, create_shift, update_shift, delete_shift, insert_shift,
  replace_shift, remove_shift, patched, type_or, mark_sync, unlink_sync, unlink_item, unlink_import,
  shift_id,
}
use shiftmate_web.Shifts.Stored.{AllStored, create_shift-AllStored, update_shift-AllStored}
use shiftmate_web.Shifts.Deletion.{Detached, Pairwise, delete_shift-Detached}
use shiftmate_web.Examples.{utc, hour, db, shift, sync_row}

db_stored : AllStored utc "UTC" db
db_stored = (
  (
    record {
      typed = refl;
      a_day = omega arith;
      known = refl;
      ordered = omega arith;
      fits = omega arith;
      dated = refl;
    },
    tt,
  ),
  refl,
)

abbrev night : CreateShiftCommand
night = record {
  start_at = aware (4 * us_per_day + 22 * hour);
  end_at = aware (5 * us_per_day + 6 * hour);
  break_minutes = minutes 30;
  shift_type = codes "night";
  notes = none;
}

abbrev night_shift : ShiftRecord
night_shift = record {
  id = 8;
  work_date = 5;
  start_at = 4 * us_per_day + 22 * hour;
  end_at = 5 * us_per_day + 6 * hour;
  break_minutes = 30;
  shift_type = codes "night";
  notes = none;
  source = manual;
  created_at = 9;
  updated_at = 9;
}

abbrev after_create : Db
after_create = record db { shifts = night_shift ∷ shift ∷ [] }

run_create : create_shift utc 8 9 night db ≡ ok (night_shift, after_create)
unfolding create_shift make_shift work_date insert_shift
run_create = refl

create_shift-AllStored_example : AllStored utc "UTC" after_create
create_shift-AllStored_example = create_shift-AllStored utc "UTC" db db_stored 8 9 night run_create

abbrev longer : UpdateShiftCommand
longer = record {
  start_at = none;
  end_at = some (aware (2 * us_per_day + 18 * hour));
  break_minutes = none;
  shift_type = none;
  notes = none;
  notes_supplied = false;
}

abbrev long_shift : ShiftRecord
long_shift = record shift { end_at = 2 * us_per_day + 18 * hour; updated_at = 9 }

abbrev after_update : Db
after_update = record db { shifts = long_shift ∷ [] }

run_update : update_shift utc 7 9 longer db ≡ ok (long_shift, after_update)
unfolding update_shift patched type_or make_shift work_date replace_shift
run_update = refl

update_shift-AllStored_example : AllStored utc "UTC" after_update
update_shift-AllStored_example = update_shift-AllStored utc "UTC" db db_stored 7 9 longer run_update

abbrev after_delete : Db
after_delete = record db {
  shifts = [];
  sync_rows = record sync_row { shift_id = none; status = pending_delete } ∷ [];
}

run_delete : delete_shift 7 db ≡ ok (tt, after_delete)
unfolding delete_shift remove_shift mark_sync unlink_sync unlink_import unlink_item
run_delete = refl

delete_shift-Detached_example :
    (has_id shift_id 7 db.shifts ≡ true)
    × (has_id shift_id 7 after_delete.shifts ≡ false)
    × Pairwise (Detached 7) db.sync_rows after_delete.sync_rows
delete_shift-Detached_example = delete_shift-Detached 7 db run_delete
