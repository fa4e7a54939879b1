-- ===== src/Oauth/Consent.antt =====
-- internal/oauth/server.go: `authorize` and `consent`. The principal is the answer of
-- `webauth.Authenticate` for the browser (`none` where it refuses), and `auth` is `none` where the
-- server has no login service. The random texts and uuids are arguments.
pub mod Grant
use Prim.Native.String.{len}
use telegram_gateway.Base.{
  ℕ, String, Bool, true, false, Option, none, some, List, [], ◌∷◌, ◌&&◌, ◌||◌, ◌==◌, ◌+◌, ◌*◌, ltb,
  leb, not, is_empty, text_eq, if◌then◌else◌, find_row, any_row, delete_where, update_where,
}
use telegram_gateway.Base.Handler.{
  Handler, ◌>>=◌, ◌>>◌, query, attempt, expect, stop_if, pure, respond, in_tx,
}
use telegram_gateway.Schema.{
  Db, Uuid, Digest, Time, TelegramAccount, GatewayClient, OauthClient, OauthRequest, OauthCode, mcp,
  is_active, minute,
}
use telegram_gateway.Access.Grants.{or_now}
use telegram_gateway.Oauth.Server.{
  Env, Response, fail, login_redirect, consent_form, redirect_code, redirect_denied, server_error,
  unavailable, invalid_request, client_row, redirect_matches, valid_redirect, valid_resource,
  challenge_pattern, parse_scopes,
}

pub record BrowserPrincipal : Type 0 where
  pub user_id : Uuid
  pub account_id : Uuid

pub record AuthorizeQuery : Type 0 where
  pub client_id : String
  pub redirect_uri : String
  pub response_type : String
  pub code_challenge_method : String
  pub code_challenge : String
  pub resource : String
  pub state : String
  pub scope : String

abbrev any_text : (String → Bool) → List String → Bool
any_text = any_row

module _ (env : Env) where
  open env use {sha256, base, uuid_text}

  unfoldable pub redirect_allowed : OauthClient → String → Bool
  redirect_allowed c redirect =
      any_text (λ v. redirect_matches env v redirect) c.redirect_uris && valid_redirect env redirect

  unfoldable pub well_formed : AuthorizeQuery → Bool
  well_formed q =
      text_eq q.response_type "code"
      && (text_eq q.code_challenge_method "S256"
          && (challenge_pattern q.code_challenge
              && (valid_resource env q.resource && not (ltb 4096 (len q.state)))))

  abbrev store_request :
      Time
      → String
      → String
      → OauthClient
      → AuthorizeQuery
      → List String
      → BrowserPrincipal
      → Handler Response Db Unit
  store_request now id csrf c q scopes p = do
    query unavailable (λ db. (tt, db))
    row ← query (fail 400 "invalid_client") (λ db. (client_row env now c.id db, db))
    expect (fail 400 "invalid_client") row
    query server_error (λ db. (
      tt,
      record db {
        oauth_requests =
            record {
              id = id;
              client_id = c.id;
              redirect_uri = q.redirect_uri;
              state = q.state;
              challenge = q.code_challenge;
              scopes = scopes;
              csrf_hash = sha256 csrf;
              expires_at = now + 10 * minute;
              user_id = p.user_id;
              account_id = p.account_id;
            }
            ∷ db.oauth_requests;
      },
    ))

  unfoldable pub authorize :
      Time
      → String
      → String
      → Option (Option BrowserPrincipal)
      → AuthorizeQuery
      → Handler Response Db Response
  authorize now id csrf auth q = do
    row ← query (fail 400 "invalid_client") (λ db. (client_row env now q.client_id db, db))
    c ← expect (fail 400 "invalid_client") row
    stop_if (not (redirect_allowed c q.redirect_uri)) (fail 400 "invalid_redirect_uri")
    stop_if (not (well_formed q)) invalid_request
    scopes ← expect (fail 400 "invalid_scope") (parse_scopes q.scope)
    login ← expect unavailable auth
    p ← expect login_redirect login
    in_tx unavailable (λ _. unavailable) (store_request now id csrf c q scopes p)
    pure (consent_form id csrf scopes)

-- `cookie` is the value of the cookie tgw_oauth_<the first 12 characters of the request's id>.
pub record ConsentForm : Type 0 where
  pub parsed : Bool
  pub request_id : String
  pub csrf : String
  pub decision : String
  pub account_id : String
  pub cookie : Option String
  pub origin : String

-- The row inserted by INSERT INTO gateway_clients … SELECT … FROM telegram_accounts ta CROSS JOIN
-- oauth_clients oc WHERE ….
unfoldable pub new_client : Uuid → BrowserPrincipal → String → Db → Option GatewayClient
new_client id p client db =
    if any_row
      (λ (a : TelegramAccount).
        a.id == p.account_id && (a.user_id == p.user_id && is_active a.status))
      db.accounts
    then elim (find_row (λ (c : OauthClient). text_eq c.id client) db.oauth_clients) [
      | none ↦ none
      | some c ↦ some (record {
        id = id;
        user_id = p.user_id;
        name = c.name;
        client_type = mcp;
        enabled = true;
      })
    ]
    else none

abbrev add_client : Option GatewayClient → Db → Db
add_client none db = db
add_client (some g) db = record db { gateway_clients = g ∷ db.gateway_clients }

abbrev pub of_live_request : Time → String → OauthRequest → Bool
of_live_request now id r = text_eq r.id id && ltb now r.expires_at

module _ (env : Env) where
  open env use {sha256, base, uuid_text}

  unfoldable pub bound_to : OauthRequest → BrowserPrincipal → ConsentForm → Bool
  bound_to r p form = elim form.cookie [
    | none ↦ false
    | some cookie ↦
        (r.user_id == p.user_id && r.account_id == p.account_id)
        && (sha256 cookie == r.csrf_hash && sha256 form.csrf == r.csrf_hash)
  ]

  -- The transaction of an approval; `id` is the new gateway client and `code` the new code.
  unfoldable pub approve :
      Time → Uuid → String → OauthRequest → BrowserPrincipal → Handler Response Db Unit
  approve now id code r p = do
    query unavailable (λ db. (tt, db))
    query server_error (λ db. (
      tt,
      record db {
        oauth_clients =
            update_where (λ c. text_eq c.id r.client_id)
              (λ c. record c {
                activated_at = some (elim c.activated_at [ none ↦ now | some t ↦ t ]);
              })
              db.oauth_clients;
      },
    ))
    deleted ← query invalid_request (λ db. (
      any_row (of_live_request now r.id) db.oauth_requests,
      record db { oauth_requests = delete_where (of_live_request now r.id) db.oauth_requests },
    ))
    stop_if (not deleted) invalid_request
    made ←
        query (fail 400 "access_denied")
          (λ db. (new_client id p r.client_id db, add_client (new_client id p r.client_id db) db))
    g ← expect (fail 400 "access_denied") made
    query server_error (λ db. (
      tt,
      record db {
        oauth_codes =
            record {
              code_hash = sha256 code;
              client_id = r.client_id;
              gateway_client_id = g.id;
              account_id = p.account_id;
              redirect_uri = r.redirect_uri;
              challenge = r.challenge;
              scopes = r.scopes;
              expires_at = now + 5 * minute;
            }
            ∷ db.oauth_codes;
      },
    ))

  abbrev deny : OauthRequest → Handler Response Db Response
  deny r = do
    attempt tt (λ db. record db {
      oauth_requests = delete_where (λ d. text_eq d.id r.id) db.oauth_requests;
    })
    pure (redirect_denied r.redirect_uri r.state)

  abbrev allow :
      Time
      → Uuid
      → String
      → OauthRequest
      → BrowserPrincipal
      → ConsentForm
      → Handler Response Db Response
  allow now id code r p form = do
    stop_if (not (text_eq form.account_id (uuid_text p.account_id))) (fail 403 "access_denied")
    in_tx server_error (λ _. server_error) (approve now id code r p)
    query unavailable (λ db. (
      tt,
      record db {
        audit_logs =
            record { account_id = p.account_id; action = "OAUTH_CONSENT_GRANTED"; resource_id = id }
            ∷ db.audit_logs;
      },
    ))
    pure (redirect_code r.redirect_uri r.state code)

  unfoldable pub consent :
      Time
      → Uuid
      → String
      → Option (Option BrowserPrincipal)
      → ConsentForm
      → Handler Response Db Response
  consent now id code auth form = do
    login ← expect unavailable auth
    p ← expect (fail 401 "login_required") login
    stop_if (not form.parsed) invalid_request
    stop_if (ltb (len form.request_id) 12) invalid_request
    row ←
        query invalid_request
          (λ db. (find_row (of_live_request now form.request_id) db.oauth_requests, db))
    r ← expect invalid_request row
    stop_if (not (bound_to r p form)) invalid_request
    stop_if (not (is_empty form.origin || text_eq form.origin base)) (fail 403 "access_denied")
    if text_eq form.decision "allow" then allow now id code r p form else deny r
