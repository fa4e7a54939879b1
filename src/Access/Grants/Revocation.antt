-- ===== src/Access/Grants/Revocation.antt =====
-- What a live bearer token means, and that revoking a grant ends every token of it.
use telegram_gateway.Base.{
  String, ◌≡◌, ◌≢◌, sym, ◌∙◌, refl, ◌==◌, ◌&&◌, [], false, All-deleted, delete_where, update_where,
  true, none, some, List, arith, Memᴰ, All, Option-cases, inl, inr, trim_space, find_row, any_row,
  find_row_sound, find_row_mem, All_mem, All-update_where_covered,
}
use mathlib.Core.Path.{subst, subst₂}
use telegram_gateway.Base.Handler.{World, go, ◌>>=◌}
use telegram_gateway.Schema.{
  Db, Uuid, Digest, Time, AccessToken, GatewayClient, RefreshToken, TelegramAccount,
}
use telegram_gateway.Access.Scopes.{validate_scopes}
use telegram_gateway.Access.Grants.{
  is_live, client_joins, account_joins, bearer_row, unexpired, Principal, authenticate_bearer,
  revoke_grant, in_token_grant, in_refresh_grant, in_code_grant, sql_eq, owner_of, or_now,
}

bearer_row_sound :
    (db : Db) (now : Time) (hash : Digest) (t : AccessToken) (g : GatewayClient)
    → bearer_row db now hash ≡ some (t, g)
    → (find_row (is_live db now hash) db.access_tokens ≡ some t)
      × (find_row (client_joins t) db.gateway_clients ≡ some g)
unfolding bearer_row
bearer_row_sound db now hash t g h = (ground arith, ground arith)

-- What stands behind an authenticated principal.
pub record Backed (db : Db) (now : Time) (hash : Digest) (p : Principal) : Type 0 where
  pub token : AccessToken
  pub stored : Memᴰ token db.access_tokens
  pub same_hash : token.token_hash ≡ hash
  pub not_revoked : token.revoked_at ≡ none
  pub in_time : unexpired token.expires_at now ≡ true
  pub client : GatewayClient
  pub client_stored : Memᴰ client db.gateway_clients
  pub client_enabled : client.enabled ≡ true
  pub account_active : any_row (account_joins token) db.accounts ≡ true
  pub of_client : p.client_id ≡ token.client_id
  pub client_id : client.id ≡ p.client_id
  pub of_account : p.account_id ≡ token.account_id
  pub of_user : (p.user_id ≡ token.user_id) × (p.user_id ≡ client.user_id)
  pub granted : p.scopes ≡ token.scopes
  pub known_scopes : validate_scopes p.scopes ≡ none

module _ (sha256 : String → Digest) where
  pub authenticate_bearer_row :
      (now : Time) (raw : String) (w w' : World Db) (p : Principal)
      → authenticate_bearer sha256 now raw w ≡ (go p, w')
      → (t : AccessToken) × (g : GatewayClient) × (bearer_row w.db now (sha256 (trim_space raw))
          ≡ some (t, g))
        × (p ≡ record {
          user_id = g.user_id;
          client_id = t.client_id;
          client_type = g.client_type;
          account_id = t.account_id;
          scopes = t.scopes;
        })
        × (validate_scopes t.scopes ≡ none)
        × (w'.db ≡ w.db)
  unfolding authenticate_bearer ◌>>=◌
  authenticate_bearer_row now raw w w' p h =
      elim (Option-cases (bearer_row w.db now (sha256 (trim_space raw)))) [
        | inl e ↦ absurd (ground arith)
        | inr ((t, g), e) ↦ (t, g, e, ground arith, ground arith, ground arith)
      ]

  pub authenticate_bearer_sound :
      (now : Time) (raw : String) (w w' : World Db) (p : Principal)
      → authenticate_bearer sha256 now raw w ≡ (go p, w')
      → Backed w.db now (sha256 (trim_space raw)) p × (w'.db ≡ w.db)
  authenticate_bearer_sound now raw w w' p h =
      let (t, g, row, made, known, same) = authenticate_bearer_row now raw w w' p h in
      let (found, joined) = bearer_row_sound w.db now (sha256 (trim_space raw)) t g row in
      let live =
        find_row_sound (is_live w.db now (sha256 (trim_space raw))) w.db.access_tokens found in
      let joins = find_row_sound (client_joins t) w.db.gateway_clients joined in
      (
        record {
          token = t;
          stored =
              find_row_mem (is_live w.db now (sha256 (trim_space raw))) w.db.access_tokens found;
          same_hash = ground arith;
          not_revoked = ground arith;
          in_time = ground arith;
          client = g;
          client_stored = find_row_mem (client_joins t) w.db.gateway_clients joined;
          client_enabled = ground arith;
          account_active = ground arith;
          of_client = ground arith;
          client_id = ground arith;
          of_account = ground arith;
          of_user = (ground arith, ground arith);
          granted = ground arith;
          known_scopes = ground arith;
        },
        same,
      )

abbrev pub IsRevokedIn : Uuid → Uuid → AccessToken → Type 0
IsRevokedIn account client t = t.account_id ≡ account → t.client_id ≡ client → t.revoked_at ≢ none

abbrev pub IsRefreshRevokedIn : Uuid → Uuid → RefreshToken → Type 0
IsRefreshRevokedIn account client t =
    t.account_id ≡ account → t.gateway_client_id ≡ client → t.revoked_at ≢ none

abbrev pub IsDisabledFor : Uuid → Uuid → List TelegramAccount → GatewayClient → Type 0
IsDisabledFor account client accounts g =
    g.id ≡ client → sql_eq (owner_of account accounts) g.user_id ≡ true → g.enabled ≡ false

-- Nothing is left of a grant: its tokens are revoked, its codes gone, and its client disabled.
pub record GrantEnded (account client : Uuid) (d : Db) : Type 0 where
  pub access : All (IsRevokedIn account client) d.access_tokens
  pub refresh : All (IsRefreshRevokedIn account client) d.refresh_tokens
  pub codes : All (λ c. in_code_grant account client c ≡ false) d.oauth_codes
  pub disabled : All (IsDisabledFor account client d.accounts) d.gateway_clients

module _ (now : Time) (account client : Uuid) where
  revoked_access :
      (ts : List AccessToken)
      → All (IsRevokedIn account client) (
          update_where
            (in_token_grant account client)
            (λ t. record t { revoked_at = or_now t.revoked_at now })
            ts)
  revoked_access ts =
      All-update_where_covered (IsRevokedIn account client) (in_token_grant account client)
        (λ t. record t { revoked_at = or_now t.revoked_at now }) ts (λ t e a c n. ground arith)
        (λ t e a c n. ground arith)

  revoked_refresh :
      (ts : List RefreshToken)
      → All (IsRefreshRevokedIn account client) (
          update_where
            (in_refresh_grant account client)
            (λ t. record t { revoked_at = or_now t.revoked_at now })
            ts)
  revoked_refresh ts =
      All-update_where_covered (IsRefreshRevokedIn account client) (in_refresh_grant account client)
        (λ t. record t { revoked_at = or_now t.revoked_at now }) ts (λ t e a c n. ground arith)
        (λ t e a c n. ground arith)

disabled_clients :
    (account client : Uuid) (accounts : List TelegramAccount) (gs : List GatewayClient)
    → All (IsDisabledFor account client accounts) (
        update_where
          (λ g. g.id == client && sql_eq (owner_of account accounts) g.user_id)
          (λ g. record g { enabled = false })
          gs)
disabled_clients account client accounts gs =
    All-update_where_covered (IsDisabledFor account client accounts)
      (λ g. g.id == client && sql_eq (owner_of account accounts) g.user_id)
      (λ g. record g { enabled = false }) gs (λ g e i o. refl) (λ g e i o. ground arith)

-- A revocation that went through: nothing of the grant is left, and nobody else's account changed.
pub revoke_grant-GrantEnded :
    {R : Type 0} (failed : R) (now : Time) (account client : Uuid) (w w' : World Db)
    → revoke_grant failed now account client w ≡ (go tt, w')
    → GrantEnded account client w'.db × (w'.db.accounts ≡ w.db.accounts)
unfolding revoke_grant ◌>>=◌
revoke_grant-GrantEnded failed now account client w w' h =
    let accounts : w'.db.accounts ≡ w.db.accounts = ground arith in
    let clients : w'.db.gateway_clients
        ≡ update_where (λ g. g.id == client && sql_eq (owner_of account w.db.accounts) g.user_id)
            (λ g. record g { enabled = false }) w.db.gateway_clients =
      ground arith in
    let access : w'.db.access_tokens
        ≡ update_where (in_token_grant account client)
            (λ t. record t { revoked_at = or_now t.revoked_at now }) w.db.access_tokens =
      ground arith in
    let refresh : w'.db.refresh_tokens
        ≡ update_where (in_refresh_grant account client)
            (λ t. record t { revoked_at = or_now t.revoked_at now }) w.db.refresh_tokens =
      ground arith in
    let codes : w'.db.oauth_codes ≡ delete_where (in_code_grant account client) w.db.oauth_codes =
      ground arith in
    (
      record {
        access =
            subst (All (IsRevokedIn account client)) (sym access)
              (revoked_access now account client w.db.access_tokens);
        refresh =
            subst (All (IsRefreshRevokedIn account client)) (sym refresh)
              (revoked_refresh now account client w.db.refresh_tokens);
        codes =
            subst (All (λ c. in_code_grant account client c ≡ false)) (sym codes)
              (All-deleted (in_code_grant account client) w.db.oauth_codes);
        disabled =
            subst₂ (λ a g. All (IsDisabledFor account client a) g) (sym accounts) (sym clients)
              (disabled_clients account client w.db.accounts w.db.gateway_clients);
      },
      accounts,
    )

-- With no database error a revocation goes through.
pub revoke_grant-runs :
    {R : Type 0} (failed : R) (now : Time) (account client : Uuid) (w : World Db)
    → w.faults ≡ []
    → (revoke_grant failed now account client w
        ≡ (go tt, (revoke_grant failed now account client w).1))
      × ((revoke_grant failed now account client w).1.faults ≡ [])
unfolding revoke_grant ◌>>=◌
revoke_grant-runs failed now account client w h = (ground arith, ground arith)

module _ (sha256 : String → Digest) where
  -- After a revocation of the grant of an account and a client that went through, no bearer
  -- authenticates as that account and that client, at any later time and whatever has happened in
  -- between, provided that no unrevoked access token of that account and client has been issued anew.
  pub revoke_grant_ends_tokens :
      {R : Type 0} (failed : R) (now later : Time) (account client : Uuid) (raw : String)
      (w w' u u' : World Db) (p : Principal)
      → revoke_grant failed now account client w ≡ (go tt, w')
      → ((t : AccessToken)
          → Memᴰ t u.db.access_tokens
          → t.account_id ≡ account
          → t.client_id ≡ client
          → t.revoked_at ≡ none
          → Memᴰ t w'.db.access_tokens)
      → p.account_id ≡ account
      → p.client_id ≡ client
      → authenticate_bearer sha256 later raw u ≢ (go p, u')
  revoke_grant_ends_tokens failed now later account client raw w w' u u' p r none_new a c h =
      let (ended, _) = revoke_grant-GrantEnded failed now account client w w' r in
      let (b, _) = authenticate_bearer_sound sha256 later raw u u' p h in
      let of_account = sym b.of_account ∙ a in
      let of_client = sym b.of_client ∙ c in
      All_mem (IsRevokedIn account client) b.token w'.db.access_tokens ended.access
        (none_new b.token b.stored of_account of_client b.not_revoked) of_account of_client
        b.not_revoked
