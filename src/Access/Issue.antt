-- ===== src/Access/Issue.antt =====
-- internal/access/repository.go: `CreateClient`, `IssueToken`, `RevokeToken`. `strings.ToUpper` is
-- the argument `to_upper`.
use telegram_gateway.Base.{
  String, Bool, true, Option, none, some, ◌∷◌, ◌&&◌, ◌==◌, not, is_empty, if◌then◌else◌, List,
  trim_space, text_eq, find_row, any_row, update_where,
}
use telegram_gateway.Base.Handler.{Handler, ◌>>=◌, ◌>>◌, query, expect, stop_if, pure, respond}
use telegram_gateway.Schema.{
  Db, Uuid, Digest, Time, TelegramAccount, GatewayClient, ClientType, mcp, api, is_active,
}
use telegram_gateway.Access.Scopes.{Normalized, normalized, refused, normalize_scopes}
use telegram_gateway.Access.Token.{GeneratedToken, generate_token}
use telegram_gateway.Access.Grants.{
  AccessError, database_error, cannot_access_account, no_rows, expiry_in_past, invalid_name,
  invalid_client_type, bad_scopes, unexpired, or_now,
}

-- JOIN telegram_accounts ta ON … ta.user_id = gc.user_id … ta.status = 'active'
abbrev pub owned_active : Uuid → GatewayClient → TelegramAccount → Bool
owned_active account g a = a.id == account && (a.user_id == g.user_id && is_active a.status)

-- FROM gateway_clients gc … WHERE gc.id = client AND gc.status = 'active'
abbrev pub may_issue : Uuid → Uuid → List TelegramAccount → GatewayClient → Bool
may_issue client account accounts g =
    g.id == client && (g.enabled && any_row (owned_active account g) accounts)

-- INSERT INTO access_tokens … SELECT …: the client whose row the SELECT gives, and the table with
-- the token added for that client's user.
unfoldable pub insert_access_token :
    Uuid → Uuid → Uuid → GeneratedToken → List String → Option Time → Db → Option GatewayClient × Db
insert_access_token id client account token scopes expires db =
    elim (find_row (may_issue client account db.accounts) db.gateway_clients) [
      | none ↦ (none, db)
      | some g ↦ (
        some g,
        record db {
          access_tokens =
              record {
                id = id;
                client_id = client;
                account_id = account;
                user_id = g.user_id;
                token_prefix = token.prefix;
                token_hash = token.hash;
                scopes = scopes;
                expires_at = expires;
                revoked_at = none;
              }
              ∷ db.access_tokens;
        },
      )
    ]

abbrev pub valid_scopes : Normalized → Handler AccessError Db (List String)
valid_scopes (normalized scopes) = pure scopes
valid_scopes (refused e) = respond (bad_scopes e)

module _ (sha256 : String → Digest) where
  -- `id` is the row's generated uuid and `random` the token's random text.
  unfoldable pub issue_token :
      Time
      → Uuid
      → String
      → Uuid
      → Uuid
      → List String
      → Option Time
      → Handler AccessError Db GeneratedToken
  unfolding insert_access_token
  issue_token now id random client account requested expires = do
    scopes ← valid_scopes (normalize_scopes requested)
    stop_if (not (unexpired expires now)) expiry_in_past
    token ← expect database_error (generate_token sha256 random)
    row ← query database_error (insert_access_token id client account token scopes expires)
    expect cannot_access_account row
    pure token

-- `RowsAffected() == 0` is the error `no_rows`.
unfoldable pub revoke_token : Time → Uuid → Uuid → Handler AccessError Db Unit
revoke_token now token client = do
  let covered = λ (t : telegram_gateway.Schema.AccessToken). t.id == token && t.client_id == client
  found ← query database_error (λ db. (
    any_row covered db.access_tokens,
    record db {
      access_tokens =
          update_where covered (λ t. record t { revoked_at = or_now t.revoked_at now })
            db.access_tokens;
    },
  ))
  stop_if (not found) no_rows

-- client_type, trimmed and in upper case
abbrev client_type_of : String → Option ClientType
client_type_of t = if text_eq t "MCP" then some mcp else if text_eq t "API" then some api else none

-- `user` is `none` for an empty user id.
unfoldable pub create_client :
    (String → String) → Uuid → Option Uuid → String → String → Handler AccessError Db Uuid
create_client to_upper id user raw_name raw_type = do
  let name = trim_space raw_name
  owner ← expect invalid_name user
  stop_if (is_empty name) invalid_name
  kind ← expect invalid_client_type (client_type_of (to_upper (trim_space raw_type)))
  query database_error (λ db. (
    id,
    record db {
      gateway_clients =
          record { id = id; user_id = owner; name = name; client_type = kind; enabled = true }
          ∷ db.gateway_clients;
    },
  ))
