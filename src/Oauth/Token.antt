-- ===== src/Oauth/Token.antt =====
-- internal/oauth/server.go: `token` and `issue`. The random texts and the new row's uuid are the
-- fields of `Fresh`. The advisory lock of `LockGrant` makes the transactions of one grant take
-- place one after the other, which is how their steps stand here.
mod Exchange
pub mod Code
pub mod Refresh
pub mod Replay
use telegram_gateway.Base.{
  ℕ, String, Bool, true, false, Option, none, some, List, [], ◌∷◌, ◌&&◌, ◌||◌, ◌==◌, ◌+◌, ◌*◌, ltb,
  leb, not, is_empty, text_eq, if◌then◌else◌, find_row, any_row, delete_where, update_where,
}
use telegram_gateway.Base.Handler.{
  Handler, ◌>>=◌, ◌>>◌, query, expect, stop_if, pure, respond, in_tx,
}
use telegram_gateway.Schema.{
  Db, Uuid, Digest, Time, OauthClient, OauthCode, RefreshToken, AuditEntry, hour, day,
}
use telegram_gateway.Access.Scopes.{has_scope}
use telegram_gateway.Access.Token.{GeneratedToken, generate_token}
use telegram_gateway.Access.Grants.{revoke_grant, is_none}
use telegram_gateway.Access.Issue.{insert_access_token}
use telegram_gateway.Oauth.Server.{
  Env, Response, fail, issued, invalid_grant, server_error, unavailable, parse_scopes,
  valid_resource, verifier_pattern,
}
use telegram_gateway.Oauth.Clients.{TokenForm, authenticate_client}

pub record Fresh : Type 0 where
  pub id : Uuid
  pub random : String
  pub refresh : String

pub data GrantType : Type 0 where
  authorization_code refresh_token unsupported : GrantType

unfoldable pub grant_type_of : String → GrantType
grant_type_of t =
    if text_eq t "authorization_code"
    then authorization_code
    else if text_eq t "refresh_token"
    then refresh_token
    else unsupported

-- What the transaction leaves for the rest of the handler: account and gateway client, and for a
-- grant the scopes and the two tokens.
pub data TxResult : Type 0 where
  replayed : Uuid → Uuid → TxResult
  granted : Uuid → Uuid → List String → String → String → TxResult

-- What redeeming a code or a refresh token gives.
pub data Redeemed : Type 0 where
  replay : Uuid → Uuid → Redeemed
  fresh_grant : Uuid → Uuid → List String → Redeemed

-- the answer to a failed Commit
abbrev on_lost : TxResult → Response
on_lost (replayed account client) = unavailable
on_lost (granted account client scopes access refresh) = server_error

abbrev pub write_audit : Uuid → String → Uuid → Handler Response Db Unit
write_audit account action client = query unavailable (λ db. (
  tt,
  record db {
    audit_logs =
        record { account_id = account; action = action; resource_id = client } ∷ db.audit_logs;
  },
))

abbrev pub of_code : Digest → String → OauthCode → Bool
of_code hash client c = c.code_hash == hash && text_eq c.client_id client

abbrev pub of_live_code : Time → Digest → String → OauthCode → Bool
of_live_code now hash client c = of_code hash client c && ltb now c.expires_at

abbrev pub of_refresh : Digest → String → RefreshToken → Bool
of_refresh hash client t = t.token_hash == hash && text_eq t.client_id client

abbrev pub contains_all : List String → List String → Bool
contains_all allowed [] = true
contains_all allowed (v ∷ narrow) =
    let rest = contains_all allowed narrow in if has_scope allowed v then rest else false

-- The scopes of a refresh: those of the token, or a requested part of them.
unfoldable pub narrowed : List String → String → Option (List String)
narrowed scopes requested =
    if is_empty requested then some scopes else elim (parse_scopes requested) [
      | none ↦ none
      | some narrow ↦ if contains_all scopes narrow then some narrow else none
    ]

-- INSERT INTO oauth_refresh_tokens: a hash that is there already breaks the primary key.
abbrev pub insert_refresh : RefreshToken → Db → Bool × Db
insert_refresh t db =
    if any_row (λ (d : RefreshToken). d.token_hash == t.token_hash) db.refresh_tokens
    then (false, db)
    else (true, record db { refresh_tokens = t ∷ db.refresh_tokens })

module _ (env : Env) where
  open env use {sha256, base64_url}

  -- The query that finds the grant before it is locked.
  abbrev grant_of_code : String → TokenForm → Db → Option (Uuid × Uuid)
  grant_of_code client form db =
      elim (find_row (of_code (sha256 form.code) client) db.oauth_codes) [
        | none ↦ none
        | some c ↦ some (c.account_id, c.gateway_client_id)
      ]

  abbrev grant_of_refresh : String → TokenForm → Db → Option (Uuid × Uuid)
  grant_of_refresh client form db =
      elim (find_row (of_refresh (sha256 form.refresh_token) client) db.refresh_tokens) [
        | none ↦ none
        | some t ↦ some (t.account_id, t.gateway_client_id)
      ]

  abbrev discover : GrantType → String → TokenForm → Handler Response Db (Uuid × Uuid)
  discover authorization_code client form = do
    row ← query invalid_grant (λ db. (grant_of_code client form db, db))
    expect invalid_grant row
  discover refresh_token client form = do
    row ← query invalid_grant (λ db. (grant_of_refresh client form db, db))
    expect invalid_grant row
  discover unsupported client form = respond (fail 400 "unsupported_grant_type")

  -- redirect URI, verifier and S256 challenge
  unfoldable pub proof_holds : OauthCode → TokenForm → Bool
  proof_holds c form =
      text_eq c.redirect_uri form.redirect_uri
      && (verifier_pattern form.code_verifier
          && text_eq c.challenge (base64_url (sha256 form.code_verifier)))

  unfoldable pub redeem_code : Time → String → TokenForm → Handler Response Db Redeemed
  redeem_code now client form = do
    row ←
        query invalid_grant
          (λ db. (find_row (of_live_code now (sha256 form.code) client) db.oauth_codes, db))
    c ← expect invalid_grant row
    stop_if (not (proof_holds c form)) invalid_grant
    query server_error (λ db. (
      tt,
      record db {
        oauth_codes = delete_where (λ d. d.code_hash == sha256 form.code) db.oauth_codes;
      },
    ))
    pure (fresh_grant c.account_id c.gateway_client_id c.scopes)

  abbrev rotate : Time → TokenForm → RefreshToken → Handler Response Db Redeemed
  rotate now form t = do
    stop_if (leb t.expires_at now) invalid_grant
    scopes ← expect (fail 400 "invalid_scope") (narrowed t.scopes form.scope)
    query server_error (λ db. (
      tt,
      record db {
        refresh_tokens =
            update_where (λ d. d.token_hash == sha256 form.refresh_token)
              (λ d. record d { revoked_at = some now }) db.refresh_tokens;
      },
    ))
    pure (fresh_grant t.account_id t.gateway_client_id scopes)

  abbrev end_replayed : Time → RefreshToken → Handler Response Db Redeemed
  end_replayed now t = do
    revoke_grant unavailable now t.account_id t.gateway_client_id
    pure (replay t.account_id t.gateway_client_id)

  unfoldable pub redeem_refresh : Time → String → TokenForm → Handler Response Db Redeemed
  redeem_refresh now client form = do
    row ←
        query invalid_grant
          (λ db. (find_row (of_refresh (sha256 form.refresh_token) client) db.refresh_tokens, db))
    t ← expect invalid_grant row
    if is_none t.revoked_at then rotate now form t else end_replayed now t

  abbrev redeem : GrantType → Time → String → TokenForm → Handler Response Db Redeemed
  redeem authorization_code now client form = redeem_code now client form
  redeem refresh_token now client form = redeem_refresh now client form
  redeem unsupported now client form = respond (fail 400 "unsupported_grant_type")

  -- `issue`; the caller answers each of its errors with invalid_grant.
  unfoldable pub issue :
      Time → Fresh → String → Uuid → Uuid → List String → Handler Response Db (String × String)
  issue now fresh client gateway_client account scopes = do
    token ← expect invalid_grant (generate_token sha256 fresh.random)
    row ←
        query invalid_grant
          (insert_access_token fresh.id gateway_client account token scopes (some (now + hour)))
    expect invalid_grant row
    inserted ← query invalid_grant (
        insert_refresh (record {
          token_hash = sha256 fresh.refresh;
          client_id = client;
          gateway_client_id = gateway_client;
          account_id = account;
          scopes = scopes;
          expires_at = now + 30 * day;
          revoked_at = none;
        }))
    stop_if (not inserted) invalid_grant
    pure (token.plaintext, fresh.refresh)

  abbrev issue_for : Time → Fresh → String → Redeemed → Handler Response Db TxResult
  issue_for now fresh client (replay account gateway_client) =
      pure (replayed account gateway_client)
  issue_for now fresh client (fresh_grant account gateway_client scopes) = do
    (access, refresh) ← issue now fresh client gateway_client account scopes
    pure (granted account gateway_client scopes access refresh)

  -- The transaction: find the grant, lock it, redeem, issue.
  unfoldable pub exchange : Time → Fresh → String → TokenForm → Handler Response Db TxResult
  exchange now fresh client form = do
    let kind = grant_type_of form.grant_type
    discover kind client form
    query unavailable (λ db. (tt, db))
    redeemed ← redeem kind now client form
    issue_for now fresh client redeemed

  abbrev finish : TxResult → Handler Response Db Response
  finish (replayed account client) = do
    write_audit account "OAUTH_REFRESH_REPLAY_REVOKED" client
    pure invalid_grant
  finish (granted account client scopes access refresh) = do
    write_audit account "OAUTH_TOKEN_ISSUED" client
    pure (issued access refresh scopes)

  unfoldable pub token : Time → Fresh → TokenForm → Handler Response Db Response
  token now fresh form = do
    stop_if (not (form.parsed && valid_resource env form.resource)) (fail 400 "invalid_target")
    c ← authenticate_client env now form
    result ← in_tx server_error on_lost (exchange now fresh c.id form)
    finish result
