-- ===== src/Auth.antt =====
-- backend/app/core/auth.py and backend/app/mcp/auth.py: who a request is from.
use shiftmate_web.Prelude.{not, Option, none, some, List, [], ◌∷◌, any}
use shiftmate_web.Prelude.Result.{Result, ok, raise, ◌>>=◌, ◌>>◌, raise_if, or_raise}
use shiftmate_web.Prelude.Text.{Text, codes, text_eq}
use shiftmate_web.Database.{Uuid}

-- `AuthenticatedUser`.
pub record AuthenticatedUser : Type 0 where
  pub id : Uuid
  pub role : Text

-- The claims that the code reads.
pub record Claims : Type 0 where
  pub sub : Text
  pub role : Text

-- `InvalidAccessToken` and `McpAuthenticationError`.
pub data AuthError : Type 0 where
  invalid_access_token mcp_authentication_error : AuthError

-- `AccessToken` of the MCP library, as the code fills it.
pub record AccessToken : Type 0 where
  pub scopes : List Text
  pub subject : Option Text

-- The library's `jwt.decode` with the signing key of a token, where neither raises; how Python reads
-- and prints an id.
pub record TokenLibrary : Type 0 where
  pub decode : Text → Option Claims
  pub read_uuid : Text → Option Uuid
  pub show_uuid : Uuid → Text

abbrev pub authenticated : Text
authenticated = codes "authenticated"

abbrev pub read_scope : Text
read_scope = codes "shiftmate:read"

module _ (library : TokenLibrary) where
  -- `SupabaseJwtVerifier.verify`.
  unfoldable pub verify : Text → Result AuthError AuthenticatedUser
  verify token = do
    claims ← or_raise (library.decode token) invalid_access_token
    raise_if (not (text_eq claims.role authenticated)) invalid_access_token
    id ← or_raise (library.read_uuid claims.sub) invalid_access_token
    ok (record { id = id; role = claims.role })

  -- `SupabaseMcpTokenVerifier.verify_token`, where the URL is set.
  unfoldable pub verify_token : Text → Option AccessToken
  unfolding verify
  verify_token token = elim (verify token) [
    | raise e ↦ none
    | ok user ↦
        some (record { scopes = read_scope ∷ []; subject = some (library.show_uuid user.id) })
  ]

  -- The token of `require_user`: that of the HTTP context, or else that of the process.
  unfoldable pub current_token : Option AccessToken → Option Text → Option AccessToken
  unfolding verify_token
  current_token (some token) stdio = some token
  current_token none none = none
  current_token none (some []) = none
  current_token none (some (c ∷ s)) = verify_token (c ∷ s)

  -- `TransportPrincipalProvider.require_user`.
  unfoldable pub require_user :
      Option AccessToken → Option Text → Result AuthError AuthenticatedUser
  unfolding current_token
  require_user context stdio = do
    token ← or_raise (current_token context stdio) mcp_authentication_error
    raise_if (not (any (text_eq read_scope) token.scopes)) mcp_authentication_error
    subject ← or_raise token.subject mcp_authentication_error
    id ← or_raise (library.read_uuid subject) mcp_authentication_error
    ok (record { id = id; role = authenticated })
