-- ===== src/Oauth/Revoke.antt =====
-- internal/oauth/server.go: `revoke`.
pub mod Ends
use telegram_gateway.Base.{
  ℕ, String, Bool, true, false, Option, none, some, List, ◌&&◌, ◌==◌, not, text_eq, find_row,
  any_row,
}
use telegram_gateway.Base.Handler.{Handler, ◌>>=◌, ◌>>◌, query, stop_if, pure, respond, in_tx}
use telegram_gateway.Schema.{Db, Uuid, Digest, Time, AccessToken, RefreshToken}
use telegram_gateway.Access.Grants.{revoke_grant}
use telegram_gateway.Oauth.Server.{Env, Response, empty_ok, invalid_request, unavailable}
use telegram_gateway.Oauth.Clients.{TokenForm, authenticate_client}
use telegram_gateway.Oauth.Token.{of_refresh, write_audit}

-- a.token_hash=$1 AND EXISTS (a refresh token of this client for the same grant)
abbrev pub of_access : Digest → String → List RefreshToken → AccessToken → Bool
of_access hash client refreshes t =
    t.token_hash == hash
    && any_row
        (λ r.
          text_eq r.client_id client
          && (r.gateway_client_id == t.client_id && r.account_id == t.account_id))
        refreshes

-- The UNION of the two queries: the grant of a refresh token, or that of an access token.
abbrev pub grant_of_token : Digest → String → Db → Option (Uuid × Uuid)
grant_of_token hash client db = elim (find_row (of_refresh hash client) db.refresh_tokens) [
  | some r ↦ some (r.account_id, r.gateway_client_id)
  | none ↦ elim (find_row (of_access hash client db.refresh_tokens) db.access_tokens) [
    | some t ↦ some (t.account_id, t.client_id)
    | none ↦ none
  ]
]

-- A token that names no grant of the client is answered 200 before anything is written.
abbrev revoke_found : Time → Option (Uuid × Uuid) → Handler Response Db (Uuid × Uuid)
revoke_found now none = respond empty_ok
revoke_found now (some (account, client)) = do
  query unavailable (λ db. (tt, db))
  revoke_grant unavailable now account client
  pure (account, client)

unfoldable pub revoke_tx : Time → String → Digest → Handler Response Db (Uuid × Uuid)
revoke_tx now client hash = do
  grant ← query unavailable (λ db. (grant_of_token hash client db, db))
  revoke_found now grant

module _ (env : Env) where
  open env use {sha256}

  unfoldable pub revoke : Time → TokenForm → Handler Response Db Response
  revoke now form = do
    stop_if (not form.parsed) invalid_request
    c ← authenticate_client env now form
    (account, client) ←
        in_tx unavailable (λ _. unavailable) (revoke_tx now c.id (sha256 form.token))
    write_audit account "OAUTH_GRANT_REVOKED" client
    pure empty_ok
