-- ===== src/Examples.antt =====
-- The data that the tests share: a zone, a profile with a shift, a rate and an import.
use shiftmate_web.Prelude.{ℕ, ◌+◌, ◌*◌, true, false, none, some, [], ◌∷◌}
use shiftmate_web.Prelude.Text.{codes}
use shiftmate_web.Domain.Zone.{Zones, us_per_day}
use shiftmate_web.Database.{
  Db, CalendarConnection, active, Profile, ShiftRecord, PayRateRecord, SyncRow, synced, manual,
  ItemRow, valid, ImportRow, review,
}

-- A zone database in which every zone is UTC.
abbrev pub utc : Zones
utc = record {
  known = λ name. true;
  to_local = λ name instant. instant;
  to_utc = λ name wall fold. wall;
}

abbrev pub hour : ℕ
hour = 3_600_000_000

abbrev pub profile : Profile
profile = record { timezone = "UTC"; currency = codes "TWD" }

-- Nine to five on the third day, with an hour's break.
abbrev pub shift : ShiftRecord
shift = record {
  id = 7;
  work_date = 3;
  start_at = 2 * us_per_day + 9 * hour;
  end_at = 2 * us_per_day + 17 * hour;
  break_minutes = 60;
  shift_type = codes "day";
  notes = none;
  source = manual;
  created_at = 1;
  updated_at = 1;
}

abbrev pub pay_rate : PayRateRecord
pay_rate = record {
  id = 1;
  hourly_rate = record { coefficient = 20_000; scale = 2 };
  effective_from = 1;
  effective_to = some 10;
  created_at = 1;
  updated_at = 1;
}

abbrev pub sync_row : SyncRow
sync_row = record {
  id = 5;
  shift_id = some 7;
  external_event_id = some (codes "event");
  status = synced;
  retry_count = 0;
  last_error_code = none;
  created_at = 1;
}

abbrev pub item : ItemRow
item = record {
  id = 21;
  work_date = some 4;
  start_at = some (3 * us_per_day + 9 * hour);
  end_at = some (3 * us_per_day + 17 * hour);
  break_minutes = some 30;
  shift_type = some (codes "day");
  notes = none;
  validation_status = valid;
  needs_review = true;
  warnings = [];
  confirmed = true;
  committed_shift_id = none;
}

abbrev pub import_row : ImportRow
import_row = record {
  id = 11;
  filename = codes "schedule.pdf";
  media_type = codes "application/pdf";
  sha256 = codes "00";
  status = review;
  model_name = some (codes "model");
  prompt_version = some (codes "1");
  error_code = none;
  created_at = 1;
  updated_at = 1;
  items = item ∷ record item { id = 22; confirmed = false } ∷ [];
}

abbrev pub calendar_connection : CalendarConnection
calendar_connection = record {
  encrypted_refresh_token = codes "sealed";
  scopes = codes "events" ∷ [];
  expires_at = none;
  status = active;
}

abbrev pub db : Db
db = record {
  profile = some profile;
  shifts = shift ∷ [];
  pay_rates = pay_rate ∷ [];
  sync_rows = sync_row ∷ [];
  imports = import_row ∷ [];
  calendar_connection = some calendar_connection;
}
