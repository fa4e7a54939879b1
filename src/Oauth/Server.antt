-- ===== src/Oauth/Server.antt =====
-- internal/oauth/server.go: what its handlers share. SHA-256, base64, the URL parser and printer of
-- Go's standard library, and the server's base URL are the fields of `Env`.
use Prim.Native.String.{len, ◌++◌}
use telegram_gateway.Base.{
  ℕ, String, Bool, true, false, Option, none, some, List, [], ◌∷◌, ◌&&◌, ◌||◌, ◌==◌, ◌+◌, ltb, leb,
  not, is_empty, all_chars, fields, text_eq, if◌then◌else◌, find_row,
}
use telegram_gateway.Schema.{Db, Uuid, Digest, Time, OauthClient, day}
use telegram_gateway.Access.Scopes.{Normalized, normalized, refused, normalize_scopes}

-- The parts of a parsed URL that the code reads; `rest` is the path, the query and the fragment.
pub record Url : Type 0 where
  pub scheme : String
  pub has_user : Bool
  pub host : String
  pub hostname : String
  pub fragment : String
  pub rest : String

pub record Env : Type 0 where
  pub sha256 : String → Digest
  pub base64_url : Digest → String
  pub parse_url : String → Option Url
  pub url_string : Url → String
  pub base : String
  pub uuid_text : Uuid → String

pub data Response : Type 0 where
  -- {"error": code} with a status
  fail : ℕ → String → Response
  -- 200: access token, refresh token, scopes
  issued : String → String → List String → Response
  -- 200: {}
  empty_ok : Response
  -- 201: client id, and the secret if there is one
  registered : String → Option String → Response
  -- 303 to the login page
  login_redirect : Response
  -- 200: the consent form of a request id, with its CSRF value, for scopes
  consent_form : String → String → List String → Response
  -- 303 to the redirect URI with state, and a code or error=access_denied
  redirect_code : String → String → String → Response
  redirect_denied : String → String → Response

abbrev pub invalid_grant : Response
invalid_grant = fail 400 "invalid_grant"

abbrev pub server_error : Response
server_error = fail 500 "server_error"

abbrev pub unavailable : Response
unavailable = fail 503 "temporarily_unavailable"

abbrev pub invalid_request : Response
invalid_request = fail 400 "invalid_request"

abbrev pub all_scopes : List String
all_scopes =
    "profile:read" ∷ "chats:list" ∷ "chat:read" ∷ "messages:read" ∷ "messages:search"
    ∷ "contacts:read" ∷ "members:read" ∷ "media:read" ∷ "messages:send" ∷ []

abbrev of_normalized : Normalized → Option (List String)
of_normalized (normalized scopes) = some scopes
of_normalized (refused e) = none

-- `none` is the error.
unfoldable pub parse_scopes : String → Option (List String)
parse_scopes raw =
    if is_empty raw then some all_scopes else of_normalized (normalize_scopes (fields raw))

-- subtle.ConstantTimeCompare(hash(v), expected) == 1; a NULL hash has no bytes.
abbrev pub equal_hash : Digest → Option Digest → Bool
equal_hash h none = false
equal_hash h (some expected) = h == expected

abbrev is_name_char : ℕ → Bool
is_name_char c =
    (leb b'A' c && leb c b'Z')
    || (leb b'a' c && leb c b'z')
    || (leb b'0' c && leb c b'9')
    || c == b'_'
    || c == b'-'

-- ^[A-Za-z0-9_-]{43}$
unfoldable pub challenge_pattern : String → Bool
challenge_pattern s = len s == 43 && all_chars is_name_char s

-- ^[A-Za-z0-9._~-]{43,128}$
unfoldable pub verifier_pattern : String → Bool
verifier_pattern s =
    (leb 43 (len s) && leb (len s) 128)
    && all_chars (λ c. is_name_char c || c == b'.' || c == b'~') s

abbrev loopback : String → Bool
loopback host = text_eq host "127.0.0.1" || (text_eq host "::1" || text_eq host "localhost")

module _ (env : Env) where
  open env use {sha256, parse_url, url_string, base}

  abbrev valid_parsed : Option Url → Bool
  valid_parsed none = false
  valid_parsed (some u) =
      if u.has_user || (not (is_empty u.fragment) || is_empty u.host)
      then false
      else if text_eq u.scheme "https"
      then true
      else if text_eq u.scheme "http"
      then text_eq u.hostname "[::1]" || loopback u.hostname
      else false

  unfoldable pub valid_redirect : String → Bool
  valid_redirect raw = not (ltb 2048 (len raw)) && valid_parsed (parse_url raw)

  abbrev without_port : Url → Url
  without_port u = record u { host = u.hostname }

  abbrev match_parsed : Option Url → Option Url → Bool
  match_parsed none b = false
  match_parsed (some a) none = false
  match_parsed (some a) (some b) =
      (text_eq a.scheme "http" && (text_eq b.scheme "http" && text_eq a.hostname b.hostname))
      && (loopback a.hostname
          && text_eq (url_string (without_port a)) (url_string (without_port b)))

  unfoldable pub redirect_matches : String → String → Bool
  redirect_matches listed actual =
      text_eq listed actual || match_parsed (parse_url listed) (parse_url actual)

  unfoldable pub valid_resource : String → Bool
  valid_resource v = is_empty v || text_eq v (base ++ "/mcp")

  -- activated_at IS NOT NULL OR created_at > NOW() - interval '24 hours'
  abbrev pub is_current : Time → OauthClient → Bool
  is_current now c = elim c.activated_at [ some t ↦ true | none ↦ ltb now (c.created_at + day) ]

  -- the row that `getClient` reads
  abbrev pub client_row : Time → String → Db → Option OauthClient
  client_row now id db = find_row (λ c. text_eq c.id id && is_current now c) db.oauth_clients
