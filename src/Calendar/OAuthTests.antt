-- ===== src/Calendar/OAuthTests.antt =====
-- A library as backend/app/services/calendar_security.py expects one, and the OAuth flow at concrete
-- inputs.
use shiftmate_web.Prelude.{
  ℕ, zero, suc, ◌≡◌, ◌⊎◌, ◌↔◌, ◌≤◌, ◌+◌, ◌*◌, ◌/◌, refl, false, Option, none, some, [], ◌∷◌, arith,
}
use shiftmate_web.Prelude.Result.{Result, ok}
use shiftmate_web.Prelude.Text.{Text, codes}
use shiftmate_web.Database.{Uuid, active}
use shiftmate_web.Calendar.OAuth.{
  OAuthState, Payload, Library, issue, verify, validate_return_path, read_payload, compare_digest,
  us_per_second, state_ttl,
}
use shiftmate_web.Calendar.Callback.{
  GoogleToken, OAuthSettings, redirect, Owners, put_owner, connect, sealed_token, calendar_callback,
  events_scope,
}
use shiftmate_web.Calendar.Connected.{IsConnected, calendar_callback-IsConnected}
use shiftmate_web.Calendar.Cookie.{issue-verify}
use shiftmate_web.Calendar.Tables.{save_connection}
use shiftmate_web.Examples.{db}

-- A text up to its end, and what follows it.
abbrev write : Text → Text → Text
write [] rest = 0 ∷ rest
write (c ∷ s) rest = suc c ∷ write s rest

abbrev read : Text → Text × Text
read [] = ([], [])
read (zero ∷ rest) = ([], rest)
read (suc c ∷ rest) = let (s, rest') = read rest in (c ∷ s, rest')

read-write : (s rest : Text) → read (write s rest) ≡ (s, rest)
read-write [] rest = refl
read-write (c ∷ s) rest = rw (read-write s rest) refl

abbrev dumps : Payload → Text
dumps p =
    p.issued_at
    ∷ p.oauth.owner_id
    ∷ write p.oauth.state (write p.oauth.code_verifier (write p.oauth.return_path []))

abbrev read_texts : ℕ → Uuid → Text → Payload
read_texts issued_at owner_id text =
    let (state, rest) = read text in
    let (verifier, rest') = read rest in
    let (path, end) = read rest' in
    record {
      oauth = record {
        owner_id = owner_id;
        state = state;
        code_verifier = verifier;
        return_path = path;
      };
      issued_at = issued_at;
    }

abbrev loads : Text → Option Payload
loads [] = none
loads (issued_at ∷ []) = none
loads (issued_at ∷ owner_id ∷ text) = some (read_texts issued_at owner_id text)

abbrev library : Library
library = record {
  encrypt = λ secret value. value;
  decrypt = λ secret value. some value;
  dumps = dumps;
  loads = loads;
  has_parts = λ value. some false;
}

loads-dumps : (p : Payload) → loads (dumps p) ≡ some p
loads-dumps p =
    rw
      (
        read-write p.oauth.state (write p.oauth.code_verifier (write p.oauth.return_path [])),
        read-write p.oauth.code_verifier (write p.oauth.return_path []),
        read-write p.oauth.return_path [],
      )
      refl

abbrev secret : Text
secret = codes "a secret of thirty-two characters"

abbrev oauth : OAuthState
oauth = record {
  owner_id = 4;
  state = codes "drawn";
  code_verifier = codes "proof";
  return_path = codes "/settings";
}

abbrev cookie : Text
cookie = dumps (record { oauth = oauth; issued_at = 5 })

issued :
    issue library secret 4 (codes "/settings") (codes "drawn") (codes "proof") 5_400_000
    ≡ ok (cookie, oauth)
unfolding issue validate_return_path
issued = refl

issue-verify_example : (verify library secret cookie (codes "drawn") 600_000_000 ≡ ok oauth) ↔ (
    (600_000_000 ≤ 5_400_000 / us_per_second * us_per_second + state_ttl)
    × (codes "drawn" ≡ codes "drawn"))
issue-verify_example =
    issue-verify library (λ s v. refl) loads-dumps secret 4 (codes "/settings") (codes "drawn")
      (codes "proof") (codes "drawn") 5_400_000 600_000_000 issued refl refl (omega arith)

abbrev settings : OAuthSettings
settings = record {
  client_id = codes "id";
  client_secret = codes "s";
  redirect_uri = codes "uri";
  state_secret = secret;
  token_secret = secret;
}

abbrev exchange : Text → Text → Result Text GoogleToken
exchange code verifier = ok (record {
  access_token = codes "a";
  refresh_token = some (codes "r");
  expires_in = none;
  scopes = [];
})

abbrev owners : Owners
owners owner = record db { calendar_connection = none }

abbrev connected_owners : Owners
connected_owners =
    put_owner 4
      (record db {
        calendar_connection = some (record {
          encrypted_refresh_token = codes "r";
          scopes = events_scope ∷ [];
          expires_at = none;
          status = active;
        });
      })
      owners

connected_once :
    calendar_callback library exchange settings
      (codes "code")
      (codes "drawn")
      (some cookie)
      6_000_000
      owners
    ≡ (redirect (codes "/settings"), connected_owners)
unfolding calendar_callback connect sealed_token save_connection verify read_payload
    validate_return_path compare_digest
connected_once = refl

calendar_callback-IsConnected_example :
    (connected_owners ≡ owners)
    ⊎ IsConnected library secret
        (codes "drawn")
        (some cookie)
        6_000_000
        owners
        connected_owners
        (redirect (codes "/settings"))
calendar_callback-IsConnected_example =
    calendar_callback-IsConnected library exchange settings (codes "code") (codes "drawn")
      (some cookie) 6_000_000 owners connected_once
