-- ===== src/Oauth/Clients/Authentic.antt =====
-- What a client is that the token endpoints authenticate.
use telegram_gateway.Base.{◌≡◌, true, some, arith, Option-cases, inl, inr, []}
use telegram_gateway.Base.Handler.{World, go, ◌>>=◌}
use telegram_gateway.Schema.{Db, Time, OauthClient}
use telegram_gateway.Oauth.Server.{Env, client_row}
use telegram_gateway.Oauth.Clients.{TokenForm, presented_id, credentials_match, authenticate_client}

module _ (env : Env) where
  pub authenticate_client-go :
      (now : Time) (form : TokenForm) (c : OauthClient) (w w' : World Db)
      → authenticate_client env now form w ≡ (go c, w')
      → (client_row env now (presented_id form) w.db ≡ some c)
        × (credentials_match env c form ≡ true)
        × (w'.db ≡ w.db)
  unfolding authenticate_client ◌>>=◌
  authenticate_client-go now form c w w' h =
      elim (Option-cases (client_row env now (presented_id form) w.db)) [
        | inl e ↦ absurd (ground arith)
        | inr (b, e) ↦ (ground arith, ground arith, ground arith)
      ]

  -- With a known client, its credentials and no database error, authentication succeeds.
  pub authenticate_client-runs :
      (now : Time) (form : TokenForm) (c : OauthClient) (w : World Db)
      → w.faults ≡ []
      → client_row env now (presented_id form) w.db ≡ some c
      → credentials_match env c form ≡ true
      → authenticate_client env now form w ≡ (go c, w)
  unfolding authenticate_client ◌>>=◌
  authenticate_client-runs now form c w quiet row ok = ground arith
