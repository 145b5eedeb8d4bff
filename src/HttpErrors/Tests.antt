-- ===== src/HttpErrors/Tests.antt =====
-- The theorem on the error answers of backend/app/core/http_security.py at a concrete input.
use shiftmate_web.Prelude.{◌≡◌, refl, true, none, some}
use shiftmate_web.Prelude.Text.{codes}
use shiftmate_web.HttpErrors.{
  Failure, http_exception, is_safe_code, safe_http_error, rate_limited_path, IsPassedOn,
  safe_http_error-IsSafe,
}

-- A detail in lower case with spaces is not passed on.
abbrev leaking : Failure
leaking = http_exception (some (codes "no row in table users")) 404 none

safe_http_error-IsSafe_example :
    (is_safe_code (safe_http_error leaking).detail ≡ true)
    × IsPassedOn leaking (safe_http_error leaking)
safe_http_error-IsSafe_example = safe_http_error-IsSafe leaking

limited : rate_limited_path (codes "/api/v1/shifts") ≡ true
unfolding rate_limited_path
limited = refl
