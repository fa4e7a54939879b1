-- ===== src/Schema.antt =====
-- The tables of the database that the access and OAuth code reads and writes (migrations/, and the
-- queries of internal/access and internal/oauth). A uuid is read as its number, a SHA-256 digest as
-- a 256-bit number, and a timestamp as a number of microseconds.
use telegram_gateway.Base.{ℕ, String, Bool, true, false, Option, List}

abbrev pub Uuid : Type 0
Uuid = ℕ

abbrev pub Digest : Type 0
Digest = ℕ

abbrev pub Time : Type 0
Time = ℕ

abbrev pub minute : ℕ
minute = 60000000

abbrev pub hour : ℕ
hour = 3600000000

abbrev pub day : ℕ
day = 86400000000

-- telegram_accounts.status
pub data AccountStatus : Type 0 where
  pending active disconnected blocked : AccountStatus

abbrev pub is_active : AccountStatus → Bool
is_active active = true
is_active _ = false

pub record TelegramAccount : Type 0 where
  pub id : Uuid
  pub user_id : Uuid
  pub status : AccountStatus

pub data ClientType : Type 0 where
  mcp api : ClientType

-- `enabled` is gateway_clients.status = 'active'; false is 'disabled'.
pub record GatewayClient : Type 0 where
  pub id : Uuid
  pub user_id : Uuid
  pub name : String
  pub client_type : ClientType
  pub enabled : Bool

pub record AccessToken : Type 0 where
  pub id : Uuid
  pub client_id : Uuid
  pub account_id : Uuid
  pub user_id : Uuid
  pub token_prefix : String
  pub token_hash : Digest
  pub scopes : List String
  pub expires_at : Option Time
  pub revoked_at : Option Time

pub record OauthClient : Type 0 where
  pub id : String
  pub name : String
  pub redirect_uris : List String
  pub secret_hash : Option Digest
  pub auth_method : String
  pub activated_at : Option Time
  pub created_at : Time

pub record OauthRequest : Type 0 where
  pub id : String
  pub client_id : String
  pub redirect_uri : String
  pub state : String
  pub challenge : String
  pub scopes : List String
  pub csrf_hash : Digest
  pub expires_at : Time
  pub user_id : Uuid
  pub account_id : Uuid

pub record OauthCode : Type 0 where
  pub code_hash : Digest
  pub client_id : String
  pub gateway_client_id : Uuid
  pub account_id : Uuid
  pub redirect_uri : String
  pub challenge : String
  pub scopes : List String
  pub expires_at : Time

pub record RefreshToken : Type 0 where
  pub token_hash : Digest
  pub client_id : String
  pub gateway_client_id : Uuid
  pub account_id : Uuid
  pub scopes : List String
  pub expires_at : Time
  pub revoked_at : Option Time

-- What internal/audit appends, as the OAuth code calls it (Audit.antt models the log itself).
pub record AuditEntry : Type 0 where
  pub account_id : Uuid
  pub action : String
  pub resource_id : Uuid

pub record Db : Type 0 where
  pub accounts : List TelegramAccount
  pub gateway_clients : List GatewayClient
  pub access_tokens : List AccessToken
  pub oauth_clients : List OauthClient
  pub oauth_requests : List OauthRequest
  pub oauth_codes : List OauthCode
  pub refresh_tokens : List RefreshToken
  pub audit_logs : List AuditEntry
