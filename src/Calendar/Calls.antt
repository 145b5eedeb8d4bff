-- ===== src/Calendar/Calls.antt =====
-- The calendar provider, as backend/app/services/calendar.py calls it. Its client is
-- backend/app/integrations/google_calendar.py, which speaks to an external service.
use shiftmate_web.Prelude.{ℕ, Option}
use shiftmate_web.Prelude.Text.{Text}
use shiftmate_web.Database.{Uuid}

-- `event_body`'s dictionary.
pub record EventBody : Type 0 where
  pub summary : Text
  pub description : Text
  pub start : ℕ
  pub end : ℕ
  pub shift_id : Option Uuid

pub data Call : Type 0 where
  refresh_call : Text → Call
  upsert_call : Text → EventBody → Call
  delete_call : Text → Call

-- How a call ends: it returns, or raises `GoogleTokenRevokedError` or another `GoogleCalendarError`.
pub data Reply : Type 0 where
  done token_revoked : Reply
  provider_error : Text → Reply

-- `reply n call` is the reply to a call of the round `n`, `refresh` that to the first call; `unseal` is
-- `SecretBox.decrypt`, with no value where it raises.
pub record Provider : Type 0 where
  pub refresh : Text → Reply
  pub reply : ℕ → Call → Reply
  pub unseal : Text → Option Text

-- The codes of `CalendarServiceError`.
pub data CalendarError : Type 0 where
  date_range_invalid not_connected auth_revoked token_invalid sync_record_invalid : CalendarError
  provider_failed : Text → CalendarError

-- `SyncSummary`.
pub record SyncSummary : Type 0 where
  pub synced : ℕ
  pub deleted : ℕ
  pub failed : ℕ
