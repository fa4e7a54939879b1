-- ===== src/Oauth/Revoke/Ends.antt =====
-- What a revocation that was answered 200 leaves.
use telegram_gateway.Base.{List, true, ◌≡◌, some}
use telegram_gateway.Schema.{Db, Uuid, Time, OauthClient, AuditEntry}
use telegram_gateway.Access.Grants.Revocation.{GrantEnded}
use telegram_gateway.Oauth.Server.{Env, client_row}
use telegram_gateway.Oauth.Clients.{TokenForm, presented_id, credentials_match}
use telegram_gateway.Oauth.Revoke.{grant_of_token}

pub GrantEnded-audit :
    (a g : Uuid) (d : Db) (l : List AuditEntry)
    → GrantEnded a g d
    → GrantEnded a g (record d { audit_logs = l })
GrantEnded-audit a g d l e = record {
  access = e.access;
  refresh = e.refresh;
  codes = e.codes;
  disabled = e.disabled;
}

module _ (env : Env) where
  open env use {sha256}

  -- A token revocation that was carried out: the client that authenticated, the grant that its token
  -- names, and the end of that grant.
  pub record Revoked (now : Time) (form : TokenForm) (d d' : Db) : Type 0 where
    pub client : OauthClient
    pub known : client_row env now (presented_id form) d ≡ some client
    pub authentic : credentials_match env client form ≡ true
    pub account : Uuid
    pub gateway_client : Uuid
    pub names : grant_of_token (sha256 form.token) client.id d ≡ some (account, gateway_client)
    pub ended : GrantEnded account gateway_client d'
