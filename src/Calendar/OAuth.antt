-- ===== src/Calendar/OAuth.antt =====
-- backend/app/services/calendar_security.py and the callback of backend/app/api/v1/calendar.py: how
-- a user connects a calendar. Each user has tables of their own.
use shiftmate_web.Prelude.{
  ℕ, ◌+◌, ◌*◌, ◌/◌, Bool, false, not, ◌&&◌, ◌||◌, Option, [], ◌∷◌, ltb, ◌==◌, all, length,
  if◌then◌else◌,
}
use shiftmate_web.Prelude.Result.{Result, ok, raise, ◌>>=◌, ◌>>◌, raise_if, or_raise, map_error}
use shiftmate_web.Prelude.Text.{Text, text_eq}
use shiftmate_web.Database.{Uuid}

-- `OAuthState`.
pub record OAuthState : Type 0 where
  pub owner_id : Uuid
  pub state : Text
  pub code_verifier : Text
  pub return_path : Text

-- The dictionary that the cookie seals; `issued_at` is in seconds.
pub record Payload : Type 0 where
  pub oauth : OAuthState
  pub issued_at : ℕ

-- `CalendarSecurityError` by its codes, and what is raised besides it: the `ValueError` of `urlparse`
-- and the `TypeError` of `secrets.compare_digest`.
pub data SecurityError : Type 0 where
  secret_too_short sealed_text_invalid state_invalid state_expired state_mismatch redirect_invalid :
      SecurityError
  url_value_error digest_type_error : SecurityError

-- What the code takes from elsewhere: `Fernet` under the key of a secret, `json.dumps` and `json.loads`
-- with the reading of the fields, and whether `urlparse` finds a scheme, a host or a fragment, with no
-- value where it raises.
pub record Library : Type 0 where
  pub encrypt : Text → Text → Text
  pub decrypt : Text → Text → Option Text
  pub dumps : Payload → Text
  pub loads : Text → Option Payload
  pub has_parts : Text → Option Bool

-- 10 minutes, in microseconds.
abbrev pub state_ttl : ℕ
state_ttl = 600_000_000

abbrev pub us_per_second : ℕ
us_per_second = 1_000_000

-- `value.startswith("/")` and `value.startswith("//")`.
abbrev pub starts_slash : Text → Bool
starts_slash [] = false
starts_slash (c ∷ s) = c == 47

abbrev pub starts_slashes : Text → Bool
starts_slashes [] = false
starts_slashes (c ∷ s) = c == 47 && starts_slash s

abbrev pub is_ascii : Text → Bool
is_ascii s = all (λ c. ltb c 128) s

-- `secrets.compare_digest` of texts, which have to be ASCII.
unfoldable pub compare_digest : Text → Text → Result SecurityError Bool
compare_digest a b = if is_ascii a && is_ascii b then ok (text_eq a b) else raise digest_type_error

-- `SecretBox.__init__`.
abbrev pub check_secret : Text → Result SecurityError (Unit {0})
check_secret secret = raise_if (ltb (length secret) 32) secret_too_short

-- `current < issued_at or current - issued_at > STATE_TTL`.
abbrev pub expired : ℕ → ℕ → Bool
expired current issued_at =
    ltb current (issued_at * us_per_second) || ltb (issued_at * us_per_second + state_ttl) current

module _ (library : Library) where
  -- `validate_return_path`.
  unfoldable pub validate_return_path : Text → Result SecurityError Text
  validate_return_path value = do
    parts ← or_raise (library.has_parts value) url_value_error
    raise_if (not (starts_slash value) || starts_slashes value) redirect_invalid
    raise_if parts redirect_invalid
    ok value

  -- `OAuthStateManager.issue`, with the texts that `secrets.token_urlsafe` draws.
  unfoldable pub issue :
      Text → Uuid → Text → Text → Text → ℕ → Result SecurityError (Text × OAuthState)
  issue secret owner_id return_path state verifier now = do
    check_secret secret
    safe_path ← validate_return_path return_path
    let oauth : OAuthState = record {
      owner_id = owner_id;
      state = state;
      code_verifier = verifier;
      return_path = safe_path;
    } in
        ok (
          library.encrypt secret
              (library.dumps (record { oauth = oauth; issued_at = now / us_per_second })),
          oauth,
        )

  -- The `try` of `verify`: whatever fails in it is an invalid state.
  unfoldable pub read_payload : Text → Text → Result SecurityError Payload
  read_payload secret cookie = do
    sealed ← or_raise (library.decrypt secret cookie) state_invalid
    payload ← or_raise (library.loads sealed) state_invalid
    path ← map_error (λ e. state_invalid) (validate_return_path payload.oauth.return_path)
    ok payload

  -- `OAuthStateManager.verify`.
  unfoldable pub verify : Text → Text → Text → ℕ → Result SecurityError OAuthState
  unfolding read_payload
  verify secret cookie returned current = do
    check_secret secret
    payload ← read_payload secret cookie
    raise_if (expired current payload.issued_at) state_expired
    same ← compare_digest payload.oauth.state returned
    raise_if (not same) state_mismatch
    ok payload.oauth
