-- ===== src/HttpErrors.antt =====
-- The error answers of backend/app/core/http_security.py; of an answer the code, the status and the
-- headers that the handler sets.
mod Tests
use shiftmate_web.Prelude.{
  ℕ, ◌≡◌, refl, sym, ap, Bool, true, false, not, ◌&&◌, ◌||◌, Option, none, some, List, [], ◌∷◌,
  arith, leb, ◌==◌, all, length, if◌then◌else◌, Bool-cases, inl, inr,
}
use shiftmate_web.Prelude.Text.{Text, codes, text_eq}

abbrev pub is_upper : ℕ → Bool
is_upper c = leb 65 c && leb c 90

abbrev pub is_code_char : ℕ → Bool
is_code_char c = is_upper c || (leb 48 c && leb c 57) || c == 95

-- `SAFE_CODE.fullmatch`: a capital, then 1 to 63 capitals, digits or underscores.
unfoldable pub is_safe_code : Text → Bool
is_safe_code [] = false
is_safe_code (c ∷ s) = is_upper c && all is_code_char s && leb 1 (length s) && leb (length s) 63

-- The headers that an exception or a handler names, with their values; `None` is none.
abbrev pub Headers : Type 0
Headers = Option (List (Text × Text))

-- An exception: an `HTTPException` with its detail, where that is a text, its status and its headers,
-- a `QuotaExceededError` with its code, a `RequestValidationError`, or another.
pub data Failure : Type 0 where
  http_exception : Option Text → ℕ → Headers → Failure
  quota_exceeded : Text → Failure
  request_validation other_failure : Failure

pub record Answer : Type 0 where
  pub detail : Text
  pub status : ℕ
  pub headers : Headers

-- The code for a status, where the detail is not one.
unfoldable pub status_code : ℕ → Text
status_code status =
    if status == 400 || status == 422
    then codes "INVALID_REQUEST"
    else if status == 401
    then codes "UNAUTHORIZED"
    else if status == 403
    then codes "FORBIDDEN"
    else if status == 404
    then codes "NOT_FOUND"
    else if status == 409
    then codes "CONFLICT"
    else if status == 413
    then codes "PAYLOAD_TOO_LARGE"
    else if status == 429
    then codes "RATE_LIMIT_EXCEEDED"
    else if status == 503
    then codes "SERVICE_UNAVAILABLE"
    else codes "REQUEST_FAILED"

abbrev pub internal_error : Answer
internal_error = record { detail = codes "INTERNAL_ERROR"; status = 500; headers = none }

-- `safe_http_error`.
unfoldable pub safe_http_error : Failure → Answer
unfolding is_safe_code status_code
safe_http_error (http_exception none status headers) = record {
  detail = status_code status;
  status = status;
  headers = headers;
}
safe_http_error (http_exception (some text) status headers) = record {
  detail = if is_safe_code text then text else status_code status;
  status = status;
  headers = headers;
}
safe_http_error _ = internal_error

-- `safe_validation_error`.
unfoldable pub safe_validation_error : Failure → Answer
safe_validation_error request_validation = record {
  detail = codes "VALIDATION_ERROR";
  status = 422;
  headers = none;
}
safe_validation_error _ = internal_error

abbrev pub retry_tomorrow : Headers
retry_tomorrow = some ((codes "Retry-After", codes "86400") ∷ [])

-- `quota_exceeded_error`.
unfoldable pub quota_exceeded_error : Failure → Answer
quota_exceeded_error (quota_exceeded code) = record {
  detail = code;
  status = 429;
  headers = retry_tomorrow;
}
quota_exceeded_error _ = record {
  detail = codes "RATE_LIMIT_EXCEEDED";
  status = 429;
  headers = retry_tomorrow;
}

abbrev pub starts_with : Text → Text → Bool
starts_with [] s = true
starts_with (c ∷ p) [] = false
starts_with (c ∷ p) (d ∷ s) = c == d && starts_with p s

-- `_rate_limited_path`.
unfoldable pub rate_limited_path : Text → Bool
rate_limited_path path =
    (starts_with (codes "/api/v1/") path && not (text_eq path (codes "/api/v1/health")))
    || starts_with (codes "/mcp") path

status_code-IsSafe : (status : ℕ) → is_safe_code (status_code status) ≡ true
unfolding is_safe_code status_code
status_code-IsSafe status = ground arith

-- What an exception's answer has beside its code: the status and the headers.
abbrev pub IsPassedOn : Failure → Answer → Type 0
IsPassedOn (http_exception text status headers) answer =
    (answer.status ≡ status) × (answer.headers ≡ headers)
IsPassedOn _ answer = (answer.status ≡ 500) × (answer.headers ≡ none)

-- Whatever the exception, the detail of the answer is a code of capitals, digits and underscores;
-- the status and the headers are those of the exception, unchanged, where it is an `HTTPException`,
-- and otherwise the status is 500 and no headers are given.
pub safe_http_error-IsSafe :
    (error : Failure)
    → (is_safe_code (safe_http_error error).detail ≡ true)
      × IsPassedOn error (safe_http_error error)
unfolding safe_http_error is_safe_code
safe_http_error-IsSafe (http_exception none status headers) =
    (status_code-IsSafe status, (refl, refl))
safe_http_error-IsSafe (http_exception (some text) status headers) =
    elim (Bool-cases (is_safe_code text)) [
      | inl safe ↦ (rw safe safe, (refl, refl))
      | inr unsafe ↦ (rw unsafe (status_code-IsSafe status), (refl, refl))
    ]
safe_http_error-IsSafe (quota_exceeded code) = (refl, (refl, refl))
safe_http_error-IsSafe request_validation = (refl, (refl, refl))
safe_http_error-IsSafe other_failure = (refl, (refl, refl))
