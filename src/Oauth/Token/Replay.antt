-- ===== src/Oauth/Token/Replay.antt =====
-- A refresh token that was used before proves that its grant was stolen: the grant ends.
use telegram_gateway.Base.{String, ◌≡◌, true, ◌&&◌, [], ◌∷◌, arith, some, find_row}
use telegram_gateway.Base.Handler.{World, go, ◌>>=◌}
use telegram_gateway.Schema.{Db, Time, RefreshToken, OauthClient}
use telegram_gateway.Access.Grants.{revoke_grant}
use telegram_gateway.Access.Grants.Revocation.{
  GrantEnded, revoke_grant-GrantEnded, revoke_grant-runs,
}
use telegram_gateway.Oauth.Server.{Env, invalid_grant, unavailable, client_row, valid_resource}
use telegram_gateway.Oauth.Clients.{TokenForm, presented_id, credentials_match}
use telegram_gateway.Oauth.Clients.Authentic.{authenticate_client-runs}
use telegram_gateway.Oauth.Token.{
  Fresh, replayed, of_refresh, redeem_refresh, exchange, token, grant_type_of, refresh_token,
}

module _ (env : Env) where
  open env use {sha256}

  exchange-replayed :
      (now : Time) (fresh : Fresh) (client : String) (form : TokenForm) (t : RefreshToken)
      (r : Time) (w : World Db)
      → w.faults ≡ []
      → grant_type_of form.grant_type ≡ refresh_token
      → find_row (of_refresh (sha256 form.refresh_token) client) w.db.refresh_tokens ≡ some t
      → t.revoked_at ≡ some r
      → exchange env now fresh client form w ≡ (
        go (replayed t.account_id t.gateway_client_id),
        (revoke_grant unavailable now t.account_id t.gateway_client_id w).1,
      )
  unfolding exchange redeem_refresh ◌>>=◌
  exchange-replayed now fresh client form t r w quiet kind row dead =
      ground (arith, revoke_grant-runs unavailable now t.account_id t.gateway_client_id w)

  -- With no database error, a request of an authenticated client that presents a refresh token which
  -- is already revoked is answered invalid_grant, and the token's whole grant is ended: every access
  -- and refresh token of it is revoked, its codes are gone and its client is disabled.
  pub token_replay_ends_grant :
      (now : Time) (fresh : Fresh) (form : TokenForm) (c : OauthClient) (t : RefreshToken)
      (r : Time) (w : World Db)
      → w.faults ≡ []
      → grant_type_of form.grant_type ≡ refresh_token
      → (form.parsed && valid_resource env form.resource) ≡ true
      → client_row env now (presented_id form) w.db ≡ some c
      → credentials_match env c form ≡ true
      → find_row (of_refresh (sha256 form.refresh_token) c.id) w.db.refresh_tokens ≡ some t
      → t.revoked_at ≡ some r
      → (w' : World Db) × (token env now fresh form w ≡ (go invalid_grant, w'))
        × GrantEnded t.account_id t.gateway_client_id w'.db
  unfolding token ◌>>=◌
  token_replay_ends_grant now fresh form c t r w quiet kind ok known authentic row dead =
      let run = revoke_grant-runs unavailable now t.account_id t.gateway_client_id w quiet in
      let ended =
        revoke_grant-GrantEnded unavailable now t.account_id t.gateway_client_id w _ run.0 in
      let u = (revoke_grant unavailable now t.account_id t.gateway_client_id w).1 in
      (
        record u {
          db = record u.db {
            audit_logs =
                record {
                  account_id = t.account_id;
                  action = "OAUTH_REFRESH_REPLAY_REVOKED";
                  resource_id = t.gateway_client_id;
                }
                ∷ u.db.audit_logs;
          };
        },
        ground (
          arith,
          run.1,
          authenticate_client-runs env now form c w quiet known authentic,
          exchange-replayed now fresh c.id form t r w quiet kind row dead,
        ),
        record {
          access = ended.0.access;
          refresh = ended.0.refresh;
          codes = ended.0.codes;
          disabled = ended.0.disabled;
        },
      )
