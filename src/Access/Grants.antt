-- ===== src/Access/Grants.antt =====
-- internal/access/repository.go: bearer authentication, token issue, and revocation of a grant.
pub mod Revocation
use text.Mathlib.Text.{starts_with}
use telegram_gateway.Base.{
  String, Bool, true, false, Option, none, some, List, [], ◌∷◌, ◌&&◌, ◌==◌, ltb, is_empty,
  if◌then◌else◌, trim_space, find_row, any_row, update_where, delete_where, count_where,
}
use telegram_gateway.Base.Handler.{Handler, ◌>>=◌, ◌>>◌, query, expect, stop_if, pure, respond}
use telegram_gateway.Schema.{
  Db, Uuid, Digest, Time, TelegramAccount, GatewayClient, AccessToken, OauthCode, RefreshToken,
  ClientType, is_active,
}
use telegram_gateway.Access.Scopes.{
  ScopeError, Normalized, normalized, refused, validate_scopes, normalize_scopes,
}
use telegram_gateway.Access.Token.{GeneratedToken, token_prefix}

-- SELECT user_id FROM telegram_accounts WHERE id=$1
abbrev pub owner_of : Uuid → List TelegramAccount → Option Uuid
owner_of account accounts = elim (find_row (λ a. a.id == account) accounts) [
  | none ↦ none
  | some a ↦ some a.user_id
]

-- SQL's =, which NULL does not satisfy
abbrev pub sql_eq : Option Uuid → Uuid → Bool
sql_eq none b = false
sql_eq (some a) b = a == b

-- COALESCE(t, NOW())
abbrev pub or_now : Option Time → Time → Option Time
or_now none now = some now
or_now (some t) now = some t

abbrev pub is_none {ℓ} : {A : Type ℓ} → Option A → Bool
is_none none = true
is_none (some a) = false

abbrev pub in_token_grant : Uuid → Uuid → AccessToken → Bool
in_token_grant account client t = t.account_id == account && t.client_id == client

abbrev pub in_refresh_grant : Uuid → Uuid → RefreshToken → Bool
in_refresh_grant account client t = t.account_id == account && t.gateway_client_id == client

abbrev pub in_code_grant : Uuid → Uuid → OauthCode → Bool
in_code_grant account client c = c.account_id == account && c.gateway_client_id == client

module _ {R : Type 0} where
  -- The four statements of `RevokeGrant`; `failed` is what the caller answers when one fails.
  unfoldable pub revoke_grant : R → Time → Uuid → Uuid → Handler R Db Unit
  revoke_grant failed now account client = do
    query failed (λ db. (
      tt,
      record db {
        gateway_clients =
            update_where (λ g. g.id == client && sql_eq (owner_of account db.accounts) g.user_id)
              (λ g. record g { enabled = false }) db.gateway_clients;
      },
    ))
    query failed (λ db. (
      tt,
      record db {
        access_tokens =
            update_where (in_token_grant account client)
              (λ t. record t { revoked_at = or_now t.revoked_at now }) db.access_tokens;
      },
    ))
    query failed (λ db. (
      tt,
      record db {
        refresh_tokens =
            update_where (in_refresh_grant account client)
              (λ t. record t { revoked_at = or_now t.revoked_at now }) db.refresh_tokens;
      },
    ))
    query failed (λ db. (
      tt,
      record db { oauth_codes = delete_where (in_code_grant account client) db.oauth_codes },
    ))

pub data AccessError : Type 0 where
  invalid_bearer database_error cannot_access_account no_rows expiry_in_past : AccessError
  invalid_name invalid_client_type : AccessError
  bad_scopes : ScopeError → AccessError

pub record Principal : Type 0 where
  pub user_id : Uuid
  pub client_id : Uuid
  pub client_type : ClientType
  pub account_id : Uuid
  pub scopes : List String

-- expires_at IS NULL OR expires_at > NOW()
abbrev pub unexpired : Option Time → Time → Bool
unexpired none now = true
unexpired (some t) now = ltb now t

-- JOIN gateway_clients gc ON gc.id = at.client_id AND gc.user_id = at.user_id … gc.status = 'active'
abbrev pub client_joins : AccessToken → GatewayClient → Bool
client_joins t g = g.id == t.client_id && (g.user_id == t.user_id && g.enabled)

-- JOIN telegram_accounts ta ON ta.id = at.account_id AND ta.user_id = at.user_id … ta.status = 'active'
abbrev pub account_joins : AccessToken → TelegramAccount → Bool
account_joins t a = a.id == t.account_id && (a.user_id == t.user_id && is_active a.status)

abbrev pub is_live : Db → Time → Digest → AccessToken → Bool
is_live db now hash t =
    t.token_hash == hash
    && (is_none t.revoked_at
        && (unexpired t.expires_at now
            && (any_row (client_joins t) db.gateway_clients
                && any_row (account_joins t) db.accounts)))

-- the row of the query of `AuthenticateBearer`: the token and the client that it joins
unfoldable pub bearer_row : Db → Time → Digest → Option (AccessToken × GatewayClient)
bearer_row db now hash = elim (find_row (is_live db now hash) db.access_tokens) [
  | none ↦ none
  | some t ↦ elim (find_row (client_joins t) db.gateway_clients) [
    | none ↦ none
    | some g ↦ some (t, g)
  ]
]

abbrev pub check_scopes : Option ScopeError → Handler AccessError Db Unit
check_scopes none = pure tt
check_scopes (some e) = respond (bad_scopes e)

module _ (sha256 : String → Digest) where
  unfoldable pub authenticate_bearer : Time → String → Handler AccessError Db Principal
  authenticate_bearer now raw = do
    let plaintext = trim_space raw
    stop_if (is_empty plaintext) invalid_bearer
    stop_if (if starts_with plaintext token_prefix then false else true) invalid_bearer
    row ← query database_error (λ db. (bearer_row db now (sha256 plaintext), db))
    (t, g) ← expect invalid_bearer row
    check_scopes (validate_scopes t.scopes)
    pure (record {
      user_id = g.user_id;
      client_id = t.client_id;
      client_type = g.client_type;
      account_id = t.account_id;
      scopes = t.scopes;
    })
