-- ===== src/Calendar/Callback.antt =====
-- `calendar_callback` of backend/app/api/v1/calendar.py, with what it takes from
-- backend/app/services/calendar.py: the end of the OAuth flow.
use shiftmate_web.Prelude.{
  ℕ, ◌+◌, ◌*◌, Bool, true, false, not, Option, none, some, List, [], ◌∷◌, ◌==◌, any, all,
  if◌then◌else◌,
}
use shiftmate_web.Prelude.Result.{Result, ok, raise, ◌>>=◌, ◌>>◌, raise_if, or_raise, map_error}
use shiftmate_web.Prelude.Text.{Text, codes, text_eq}
use shiftmate_web.Database.{Db, Uuid}
use shiftmate_web.Calendar.Tables.{save_connection}
use shiftmate_web.Calendar.OAuth.{
  OAuthState, SecurityError, digest_type_error, url_value_error, Library, us_per_second,
  check_secret, verify,
}

-- `GoogleToken`.
pub record GoogleToken : Type 0 where
  pub access_token : Text
  pub refresh_token : Option Text
  pub expires_in : Option ℕ
  pub scopes : List Text

abbrev pub events_scope : Text
events_scope = codes "https://www.googleapis.com/auth/calendar.events.owned"

-- `effective_scopes`: no scopes are the scope that was asked for.
abbrev pub effective_scopes : GoogleToken → List Text
effective_scopes token = elim token.scopes [ [] ↦ events_scope ∷ [] | s ∷ rest ↦ s ∷ rest ]

-- `connection_expiry`.
abbrev pub connection_expiry : GoogleToken → ℕ → Option ℕ
connection_expiry token now = elim token.expires_in [
  | none ↦ none
  | some seconds ↦ some (now + seconds * us_per_second)
]

-- The settings that `_oauth_settings` wants; one that is empty is missing.
pub record OAuthSettings : Type 0 where
  pub client_id : Text
  pub client_secret : Text
  pub redirect_uri : Text
  pub state_secret : Text
  pub token_secret : Text

abbrev pub is_empty : Text → Bool
is_empty [] = true
is_empty (c ∷ s) = false

-- `all(values)`.
abbrev pub is_configured : OAuthSettings → Bool
is_configured s =
    all (λ value. not (is_empty value))
      (s.client_id ∷ s.client_secret ∷ s.redirect_uri ∷ s.state_secret ∷ s.token_secret ∷ [])

-- The answer of the request; `server_error` is an exception that no handler takes.
pub data Answer : Type 0 where
  redirect : Text → Answer
  http_error : ℕ → Text → Answer
  state_refused : SecurityError → Answer
  server_error : Answer

-- `GoogleCalendarError` and `CalendarSecurityError` of the second `try`.
pub data ConnectError : Type 0 where
  provider_refused : Text → ConnectError
  scope_missing refresh_token_missing : ConnectError
  box_refused : SecurityError → ConnectError

-- The tables of each user; a transaction sees those of its own.
abbrev pub Owners : Type 0
Owners = Uuid → Db

abbrev pub put_owner : Uuid → Db → Owners → Owners
put_owner owner db owners = λ o. if o == owner then db else owners o

module _ (library : Library) (exchange : Text → Text → Result Text GoogleToken) where
  -- `SecretBox(token_secret).encrypt(token.refresh_token) if token.refresh_token else None`.
  unfoldable pub sealed_token : Text → Option Text → Result ConnectError (Option Text)
  sealed_token secret none = ok none
  sealed_token secret (some []) = ok none
  sealed_token secret (some (c ∷ s)) = do
    map_error box_refused (check_secret secret)
    ok (some (library.encrypt secret (c ∷ s)))

  -- The second `try` of the callback: the exchange of the code and the transaction of the user whom
  -- the state names.
  unfoldable pub connect :
      OAuthSettings → Text → OAuthState → ℕ → Owners → Result ConnectError Owners
  unfolding sealed_token
  connect settings code verified now owners = do
    token ← map_error provider_refused (exchange code verified.code_verifier)
    raise_if (not (any (text_eq events_scope) (effective_scopes token))) scope_missing
    sealed ← sealed_token settings.token_secret token.refresh_token
    saved ←
        or_raise
          (save_connection sealed (effective_scopes token) (connection_expiry token now)
            (owners verified.owner_id))
          refresh_token_missing
    ok (put_owner verified.owner_id saved.1 owners)

  -- What the `except` clauses make of an error of `verify`.
  abbrev pub refusal : SecurityError → Answer
  refusal digest_type_error = server_error
  refusal url_value_error = server_error
  refusal e = state_refused e

  -- `RedirectResponse(verified.return_path, ...)`, or the redirect of the last `except` clause.
  abbrev pub finish : Text → Owners → Result ConnectError Owners → Answer × Owners
  finish path owners (ok owners') = (redirect path, owners')
  finish path owners (raise e) = (redirect (codes "/?calendar=error"), owners)

  abbrev pub after_verify :
      OAuthSettings → Text → ℕ → Owners → Result SecurityError OAuthState → Answer × Owners
  after_verify settings code now owners (raise e) = (refusal e, owners)
  after_verify settings code now owners (ok verified) =
      finish verified.return_path owners (connect settings code verified now owners)

  -- `if not oauth_cookie`.
  abbrev pub with_cookie : OAuthSettings → Text → Text → ℕ → Owners → Option Text → Answer × Owners
  with_cookie settings code state now owners none =
      (http_error 400 (codes "OAUTH_STATE_MISSING"), owners)
  with_cookie settings code state now owners (some []) =
      (http_error 400 (codes "OAUTH_STATE_MISSING"), owners)
  with_cookie settings code state now owners (some (c ∷ s)) =
      after_verify settings code now owners (verify library settings.state_secret (c ∷ s) state now)

  -- `calendar_callback`.
  unfoldable pub calendar_callback :
      OAuthSettings → Text → Text → Option Text → ℕ → Owners → Answer × Owners
  unfolding connect
  calendar_callback settings code state cookie now owners =
      if is_configured settings
      then with_cookie settings code state now owners cookie
      else (http_error 503 (codes "CALENDAR_NOT_CONFIGURED"), owners)
