-- ===== src/Oauth/Token/Exchange.antt =====
-- The steps of the transaction of `token`, and what issuing leaves alone.
use telegram_gateway.Base.{
  String, ◌≡◌, ◌∙◌, false, ◌&&◌, text_eq, ◌+◌, ◌*◌, true, none, some, List, ◌∷◌, arith, any_row,
  ◌==◌, find_row, Option-cases, inl, inr,
}
use telegram_gateway.Base.Handler.{World, go, pure, ◌>>=◌}
use telegram_gateway.Base.Handler.Inversion.{
  parts, >>=-go, committed, in_tx-go, query-noop, stop_if-keeps,
}
use telegram_gateway.Schema.{Db, Uuid, Time, hour, day, RefreshToken, GatewayClient, OauthClient}
use telegram_gateway.Access.Token.{GeneratedToken, generate_token}
use telegram_gateway.Access.Issue.{insert_access_token, may_issue}
use telegram_gateway.Oauth.Server.{Env, issued, is_current}
use telegram_gateway.Oauth.Clients.Authentic.{authenticate_client-go}
use telegram_gateway.Oauth.Clients.{TokenForm, presented_id, credentials_match}
use telegram_gateway.Oauth.Token.{
  Fresh, GrantType, authorization_code, refresh_token, unsupported, grant_type_of, granted,
  replayed, replay, fresh_grant, Redeemed, TxResult, discover, redeem, issue, issue_for, exchange,
  finish, token,
}

module _ (env : Env) where
  open env use {sha256}

  discover-keeps :
      (k : GrantType) (client : String) (form : TokenForm) (x : Uuid × Uuid) (w w' : World Db)
      → discover env k client form w ≡ (go x, w')
      → w'.db ≡ w.db
  unfolding ◌>>=◌
  discover-keeps authorization_code client form x w w' h = ground arith
  discover-keeps refresh_token client form x w w' h = ground arith
  discover-keeps unsupported client form x w w' h = absurd (cc)

  -- Redeeming, then issuing, from a database that finding the grant and locking it left alone.
  pub data Exchanged (now : Time) (fresh : Fresh) (client : String) (form : TokenForm)
      (r : TxResult) (w w' : World Db) : Type 0 where
    exchanged :
        (z : Redeemed) (u v : World Db)
        → u.db ≡ w.db
        → redeem env (grant_type_of form.grant_type) now client form u ≡ (go z, v)
        → issue_for env now fresh client z v ≡ (go r, w')
        → Exchanged now fresh client form r w w'

  pub exchange-Exchanged :
      (now : Time) (fresh : Fresh) (client : String) (form : TokenForm) (r : TxResult)
      (w w' : World Db)
      → exchange env now fresh client form w ≡ (go r, w')
      → Exchanged now fresh client form r w w'
  unfolding exchange
  exchange-Exchanged now fresh client form r w w' h = elim (>>=-go _ _ _ _ _ h) [
    | parts x u₁ e₁ h₁ ↦ elim (>>=-go _ _ _ _ _ h₁) [
      | parts y u₂ e₂ h₂ ↦ elim (>>=-go _ _ _ _ _ h₂) [
        | parts z u₃ e₃ h₃ ↦
            exchanged z u₂ u₃
              (query-noop _ y u₁ u₂ e₂
                ∙ discover-keeps (grant_type_of form.grant_type) client form x w u₁ e₁)
              e₃ h₃
      ]
    ]
  ]

  pub issue_for-fresh :
      (now : Time) (fresh : Fresh) (client : String) (a g : Uuid) (scopes : List String)
      (r : TxResult) (w w' : World Db)
      → issue_for env now fresh client (fresh_grant a g scopes) w ≡ (go r, w')
      → (t : String × String) × (r ≡ granted a g scopes t.0 t.1)
        × (issue env now fresh client g a scopes w ≡ (go t, w'))
  unfolding pure
  issue_for-fresh now fresh client a g scopes r w w' h = elim (>>=-go _ _ _ _ _ h) [
    | parts t u e k ↦ (t, ground arith, ground arith)
  ]

  pub issue_for-replay :
      (now : Time) (fresh : Fresh) (client : String) (a g : Uuid) (r : TxResult) (w w' : World Db)
      → issue_for env now fresh client (replay a g) w ≡ (go r, w')
      → (r ≡ replayed a g) × (w' ≡ w)
  unfolding pure
  issue_for-replay now fresh client a g r w w' h = (ground arith, ground arith)

  -- What `issue` writes: one access token of an enabled client of an active account, and one refresh
  -- token, both with the scopes it was given.
  pub record Issuing (now : Time) (fresh : Fresh) (client : String) (g a : Uuid)
      (scopes : List String) (t : String × String) (d d' : Db) : Type 0 where
    pub made : GeneratedToken
    pub generated : generate_token sha256 fresh.random ≡ some made
    pub owner : GatewayClient
    pub owned : find_row (may_issue g a d.accounts) d.gateway_clients ≡ some owner
    pub answer : t ≡ (made.plaintext, fresh.refresh)
    pub access_tokens :
        d'.access_tokens
        ≡ record {
          id = fresh.id;
          client_id = g;
          account_id = a;
          user_id = owner.user_id;
          token_prefix = made.prefix;
          token_hash = made.hash;
          scopes = scopes;
          expires_at = some (now + hour);
          revoked_at = none;
        }
          ∷ d.access_tokens
    pub refresh_tokens :
        d'.refresh_tokens
        ≡ record {
          token_hash = sha256 fresh.refresh;
          client_id = client;
          gateway_client_id = g;
          account_id = a;
          scopes = scopes;
          expires_at = now + 30 * day;
          revoked_at = none;
        }
          ∷ d.refresh_tokens
    pub new_hash :
        any_row (λ (x : RefreshToken). x.token_hash == sha256 fresh.refresh) d.refresh_tokens
        ≡ false
    pub codes : d'.oauth_codes ≡ d.oauth_codes
    pub clients : d'.gateway_clients ≡ d.gateway_clients

  pub issue-Issuing :
      (now : Time) (fresh : Fresh) (client : String) (g a : Uuid) (scopes : List String)
      (t : String × String) (w w' : World Db)
      → issue env now fresh client g a scopes w ≡ (go t, w')
      → Issuing now fresh client g a scopes t w.db w'.db
  unfolding issue insert_access_token ◌>>=◌
  issue-Issuing now fresh client g a scopes t w w' h =
      elim (Option-cases (generate_token sha256 fresh.random)) [
        | inl e ↦ absurd (ground arith)
        | inr (m, e) ↦
            elim (Option-cases (find_row (may_issue g a w.db.accounts) w.db.gateway_clients)) [
              | inl n ↦ absurd (ground arith)
              | inr (o, n) ↦ record {
                made = m;
                generated = e;
                owner = o;
                owned = n;
                answer = ground arith;
                access_tokens = ground arith;
                refresh_tokens = ground arith;
                new_hash = ground arith;
                codes = ground arith;
                clients = ground arith;
              }
            ]
      ]

  -- A request that was answered with tokens: its client, and the committed transaction behind it.
  pub data Answered (now : Time) (fresh : Fresh) (form : TokenForm) (access refresh : String)
      (scopes : List String) (d d' : Db) : Type 0 where
    answered :
        (c : OauthClient) (a g : Uuid) (v u : World Db)
        → v.db ≡ d
        → find_row
            (λ (x : OauthClient). text_eq x.id (presented_id form) && is_current env now x)
            d.oauth_clients
          ≡ some c
        → credentials_match env c form ≡ true
        → exchange env now fresh c.id form v ≡ (go (granted a g scopes access refresh), u)
        → d' ≡ record u.db {
          audit_logs =
              record { account_id = a; action = "OAUTH_TOKEN_ISSUED"; resource_id = g }
              ∷ u.db.audit_logs;
        }
        → Answered now fresh form access refresh scopes d d'

  finish-issued :
      (r : TxResult) (access refresh : String) (scopes : List String) (w w' : World Db)
      → finish env r w ≡ (go (issued access refresh scopes), w')
      → (a : Uuid) × (g : Uuid) × (r ≡ granted a g scopes access refresh)
        × (w'.db ≡ record w.db {
          audit_logs =
              record { account_id = a; action = "OAUTH_TOKEN_ISSUED"; resource_id = g }
              ∷ w.db.audit_logs;
        })
  unfolding ◌>>=◌
  finish-issued (replayed a g) access refresh scopes w w' h = absurd (ground arith)
  finish-issued (granted a g s t u) access refresh scopes w w' h =
      (a, g, ground arith, ground arith)

  pub token-Answered :
      (now : Time) (fresh : Fresh) (form : TokenForm) (access refresh : String)
      (scopes : List String) (w w' : World Db)
      → token env now fresh form w ≡ (go (issued access refresh scopes), w')
      → Answered now fresh form access refresh scopes w.db w'.db
  unfolding token
  token-Answered now fresh form access refresh scopes w w' h = elim (>>=-go _ _ _ _ _ h) [
    | parts x u₁ e₁ h₁ ↦ elim (>>=-go _ _ _ _ _ h₁) [
      | parts c u₂ e₂ h₂ ↦ elim (>>=-go _ _ _ _ _ h₂) [
        | parts r u₃ e₃ h₃ ↦ elim (in_tx-go _ _ _ _ _ _ e₃) [
          | committed v u same run stored ↦
              let same₁ = stop_if-keeps _ _ _ w u₁ e₁ in
              let (row, ok, same₂) = authenticate_client-go env now form c u₁ u₂ e₂ in
              let (a, g, result, final) = finish-issued r access refresh scopes u₃ w' h₃ in
              answered c a g v u (same ∙ same₂ ∙ same₁) (ground arith) ok (ground arith)
                (ground arith)
        ]
      ]
    ]
  ]
