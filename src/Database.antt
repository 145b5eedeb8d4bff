-- ===== src/Database.antt =====
-- The owner-scoped rows that a request sees: row-level security hides the rows of other users, so
-- each table is the list of the rows of one user. A request runs in one transaction
-- (backend/app/core/database.py): an operation takes the tables and returns them with its result,
-- or raises, and then the transaction is rolled back. Ids that the database draws, and its clock,
-- are arguments.
pub mod Transaction
pub mod Rows
use shiftmate_web.Prelude.{ℕ, Bool, Option, List, String}
use shiftmate_web.Prelude.Text.{Text}
use shiftmate_web.Domain.Zone.{Date}
use shiftmate_web.Domain.Decimal.{Decimal}

abbrev pub Uuid : Type 0
Uuid = ℕ

pub data Source : Type 0 where
  manual import_source calendar : Source

-- backend/app/repositories/shifts.py, `ShiftRecord`.
pub record ShiftRecord : Type 0 where
  pub id : Uuid
  pub work_date : Date
  pub start_at : ℕ
  pub end_at : ℕ
  pub break_minutes : ℕ
  pub shift_type : Text
  pub notes : Option Text
  pub source : Source
  pub created_at : ℕ
  pub updated_at : ℕ

-- `NewShift`.
pub record NewShift : Type 0 where
  pub work_date : Date
  pub start_at : ℕ
  pub end_at : ℕ
  pub break_minutes : ℕ
  pub shift_type : Text
  pub notes : Option Text

-- backend/app/repositories/pay_rates.py, `PayRateRecord`.
pub record PayRateRecord : Type 0 where
  pub id : Uuid
  pub hourly_rate : Decimal
  pub effective_from : Date
  pub effective_to : Option Date
  pub created_at : ℕ
  pub updated_at : ℕ

-- `NewPayRate`.
pub record NewPayRate : Type 0 where
  pub hourly_rate : Decimal
  pub effective_from : Date
  pub effective_to : Option Date

pub data SyncStatus : Type 0 where
  pending synced sync_failed pending_delete deleted : SyncStatus

-- A row of `calendar_sync_records`.
pub record SyncRow : Type 0 where
  pub id : Uuid
  pub shift_id : Option Uuid
  pub external_event_id : Option Text
  pub status : SyncStatus
  pub retry_count : ℕ
  pub last_error_code : Option Text
  pub created_at : ℕ

pub data ImportStatus : Type 0 where
  uploaded extracting review committed failed expired : ImportStatus

-- `unchecked` is 'pending'.
pub data ItemStatus : Type 0 where
  unchecked valid invalid : ItemStatus

-- A row of `shift_import_items`, as `ImportItemRecord` shows it; `confirmed` is whether
-- `confirmed_at` is set.
pub record ItemRow : Type 0 where
  pub id : Uuid
  pub work_date : Option Date
  pub start_at : Option ℕ
  pub end_at : Option ℕ
  pub break_minutes : Option ℕ
  pub shift_type : Option Text
  pub notes : Option Text
  pub validation_status : ItemStatus
  pub needs_review : Bool
  pub warnings : List Text
  pub confirmed : Bool
  pub committed_shift_id : Option Uuid

-- A row of `shift_imports`, with its items in the order of `item_index`.
pub record ImportRow : Type 0 where
  pub id : Uuid
  pub filename : Text
  pub media_type : Text
  pub sha256 : Text
  pub status : ImportStatus
  pub model_name : Option Text
  pub prompt_version : Option Text
  pub error_code : Option Text
  pub created_at : ℕ
  pub updated_at : ℕ
  pub items : List ItemRow

pub data ConnectionStatus : Type 0 where
  active revoked connection_error : ConnectionStatus

-- A row of `calendar_connections`; an owner has one at most.
pub record CalendarConnection : Type 0 where
  pub encrypted_refresh_token : Text
  pub scopes : List Text
  pub expires_at : Option ℕ
  pub status : ConnectionStatus

pub data PolicyStatus : Type 0 where
  indexing ready policy_failed : PolicyStatus

-- backend/app/repositories/policies.py, `PolicyDocumentRecord`, with the checksum of its file.
pub record PolicyDocument : Type 0 where
  pub id : Uuid
  pub title : Text
  pub filename : Text
  pub sha256 : Text
  pub status : PolicyStatus
  pub page_count : ℕ
  pub error_code : Option Text
  pub created_at : ℕ
  pub updated_at : ℕ

-- A row of `policy_chunks`; an embedding is a list of numbers that the program does not look into.
pub record PolicyChunk (Vector : Type 0) : Type 0 where
  pub id : Uuid
  pub document_id : Uuid
  pub content : Text
  pub page_number : ℕ
  pub chunk_index : ℕ
  pub embedding : Vector

pub record Profile : Type 0 where
  pub timezone : String
  pub currency : Text

pub record Db : Type 0 where
  pub profile : Option Profile
  pub shifts : List ShiftRecord
  pub pay_rates : List PayRateRecord
  pub sync_rows : List SyncRow
  pub imports : List ImportRow
  pub calendar_connection : Option CalendarConnection
