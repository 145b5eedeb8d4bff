-- ===== src/Quotas.antt =====
-- The daily quotas: `RequestQuotaGuard` of backend/app/core/quotas.py on the functions of
-- migrations/versions/20260903_0006_security_quotas_and_maintenance.py.
pub mod Counted
mod Tests
use shiftmate_web.Prelude.{
  ℕ, suc, ◌+◌, Bool, true, false, not, ◌&&◌, ◌||◌, List, [], ◌∷◌, ltb, ◌==◌, if◌then◌else◌,
}
use shiftmate_web.Prelude.Result.{Result, ok, raise}
use shiftmate_web.Domain.Zone.{Date}
use shiftmate_web.Database.{Uuid}

-- A row of `owner_daily_quotas` or `app_daily_quotas`, for one name of a quota.
pub record QuotaRow (Key : Type 0) : Type 0 where
  pub key : Key
  pub used_units : ℕ

-- The primary key of the first table, and that of the second.
pub record OwnerDay : Type 0 where
  pub owner : Uuid
  pub usage_date : Date

abbrev pub same_owner_day : OwnerDay → OwnerDay → Bool
same_owner_day a b = a.owner == b.owner && a.usage_date == b.usage_date

-- `QuotaExceededError` by its codes, and the exception of the functions.
pub data QuotaError : Type 0 where
  upload_daily_quota_exceeded gemini_daily_cap_exceeded invalid_quota_request : QuotaError

-- `INSERT ... ON CONFLICT ... DO UPDATE ... WHERE used_units < requested_limit RETURNING used_units`:
-- whether it returns a row, and the rows.
unfoldable pub consume :
    {Key : Type 0} → (Key → Key → Bool) → Key → ℕ → List (QuotaRow Key) → Bool × List (QuotaRow Key)
consume same key limit [] = (true, record { key = key; used_units = 1 } ∷ [])
consume same key limit (r ∷ rows) =
    let (allowed, rest) = consume same key limit rows in
    let stays : Bool × List (QuotaRow _) = (false, r ∷ rows) in
    let counts : Bool × List (QuotaRow _) =
      (true, record r { used_units = suc r.used_units } ∷ rows) in
    if same r.key key
    then (if ltb r.used_units limit then counts else stays)
    else (allowed, r ∷ rest)

-- `IF ... requested_limit < 1 OR requested_limit > ... THEN RAISE EXCEPTION`, with the largest limit.
unfoldable pub checked_consume :
    {Key : Type 0}
    → (Key → Key → Bool)
    → ℕ
    → QuotaError
    → Key
    → ℕ
    → List (QuotaRow Key)
    → Result QuotaError (List (QuotaRow Key))
unfolding consume
checked_consume same largest exceeded key limit rows =
    let (allowed, rows') = consume same key limit rows in
    if ltb limit 1 || ltb largest limit
    then raise invalid_quota_request
    else (if allowed then ok rows' else raise exceeded)

-- `consume_upload`, with `consume_owner_daily_quota`.
unfoldable pub consume_upload :
    OwnerDay → ℕ → List (QuotaRow OwnerDay) → Result QuotaError (List (QuotaRow OwnerDay))
unfolding checked_consume
consume_upload key limit rows =
    checked_consume same_owner_day 100 upload_daily_quota_exceeded key limit rows

-- `consume_gemini_request`, with `consume_app_daily_quota`.
unfoldable pub consume_gemini_request :
    Date → ℕ → List (QuotaRow Date) → Result QuotaError (List (QuotaRow Date))
unfolding checked_consume
consume_gemini_request day limit rows =
    checked_consume ◌==◌ 1000 gemini_daily_cap_exceeded day limit rows

-- Requests in the order of their transactions; each that is refused is rolled back. The list says
-- which are served.
unfoldable pub serve_uploads : ℕ → List OwnerDay → List (QuotaRow OwnerDay) → List Bool
serve_uploads limit [] rows = []
serve_uploads limit (key ∷ keys) rows = elim (consume_upload key limit rows) [
  | ok rows' ↦ true ∷ serve_uploads limit keys rows'
  | raise e ↦ false ∷ serve_uploads limit keys rows
]
