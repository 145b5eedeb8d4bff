-- ===== src/Calendar/Exports.antt =====
-- backend/app/services/calendar_exports.py, and the answers of backend/app/api/v1/calendar.py.
use shiftmate_web.Prelude.{ℕ, Option}
use shiftmate_web.Prelude.Result.{Result, ok, ◌>>◌, raise_if}
use shiftmate_web.Prelude.Text.{Text, codes}
use shiftmate_web.Domain.Zone.{Date}
use shiftmate_web.Database.{Db}
use shiftmate_web.Shifts.{reversed, select_shifts}
use shiftmate_web.Ics.{Printer, export_shifts_to_ics}
use shiftmate_web.Calendar.Calls.{CalendarError, not_connected, auth_revoked}

-- `CalendarExportError`.
pub data CalendarExportError : Type 0 where
  export_range_invalid : CalendarExportError

-- `CalendarExport`.
pub record CalendarExport : Type 0 where
  pub filename : Text
  pub media_type : Text
  pub content : Text

-- `CalendarExportService.create_export`.
unfoldable pub create_export :
    Printer → Option Date → Option Date → Db → Result CalendarExportError CalendarExport
create_export printer from to db = do
  raise_if (reversed from to) export_range_invalid
  ok (record {
    filename = codes "shiftmate-schedule.ics";
    media_type = codes "text/calendar; charset=utf-8";
    content = export_shifts_to_ics printer (select_shifts from to db) from to;
  })

-- The status of `sync_calendar` for an error of the service.
abbrev pub sync_status_code : CalendarError → ℕ
sync_status_code not_connected = 409
sync_status_code auth_revoked = 409
sync_status_code _ = 503
