-- ===== src/Examples/Grants.antt =====
-- The end of a grant, and an approval, on the database of Examples/Oauth.
use telegram_gateway.Base.{String, ◌≡◌, ◌≢◌, refl, true, Option, none, some, [], ◌∷◌, Memᴰ}
use telegram_gateway.Base.Handler.{World, go, ◌>>=◌}
use telegram_gateway.Schema.{Db, AccessToken, mcp, OauthClient}
use telegram_gateway.Access.Scopes.{
  normalize_scopes, validate_scopes, first_unsupported, is_allowed, sort, distinct, normalized,
}
use telegram_gateway.Access.Scopes.Normal.{normalize_scopes_exact, IsDistinct}
use telegram_gateway.Access.Scopes.{has_scope}
use telegram_gateway.Access.Grants.{Principal, authenticate_bearer, revoke_grant}
use telegram_gateway.Access.Grants.Revocation.{GrantEnded, revoke_grant_ends_tokens}
use telegram_gateway.Oauth.Server.{Response, invalid_grant, valid_resource, empty_ok, redirect_code}
use telegram_gateway.Oauth.Clients.{TokenForm, credentials_match, cleanup_registrations, prune}
use telegram_gateway.Oauth.Clients.Pruning.{cleanup_keeps_used, requested}
use telegram_gateway.Oauth.Token.{token, grant_type_of}
use telegram_gateway.Oauth.Token.Replay.{token_replay_ends_grant}
use telegram_gateway.Oauth.Revoke.{revoke}
use telegram_gateway.Oauth.Consent.{
  BrowserPrincipal, ConsentForm, consent, approve, bound_to, new_client,
}
use telegram_gateway.Oauth.Consent.Grant.{Consented, consent_sound}
use telegram_gateway.Examples.Oauth.{env, db, code_form, fresh}
use Prim.Native.String.{len}

two_scopes :
    normalize_scopes ("media:read" ∷ "chat:read" ∷ "media:read" ∷ [])
    ≡ normalized ("chat:read" ∷ "media:read" ∷ [])
unfolding normalize_scopes validate_scopes first_unsupported is_allowed sort distinct
two_scopes = refl

normalize_scopes_exact_example :
    ((t : String)
      → has_scope ("chat:read" ∷ "media:read" ∷ []) t
        ≡ has_scope ("media:read" ∷ "chat:read" ∷ "media:read" ∷ []) t)
    × ((t : String) → has_scope ("chat:read" ∷ "media:read" ∷ []) t ≡ true → is_allowed t ≡ true)
    × IsDistinct ("chat:read" ∷ "media:read" ∷ [])
normalize_scopes_exact_example =
    normalize_scopes_exact ("media:read" ∷ "chat:read" ∷ "media:read" ∷ [])
      ("chat:read" ∷ "media:read" ∷ []) two_scopes

abbrev bearer_db : Db
bearer_db = record db {
  access_tokens =
      record {
        id = 9;
        client_id = 2;
        account_id = 1;
        user_id = 7;
        token_prefix = "tgw_aaaa";
        token_hash = 8;
        scopes = "chat:read" ∷ [];
        expires_at = some 100;
        revoked_at = none;
      }
      ∷ [];
}

abbrev bearer_world : World Db
bearer_world = record { db = bearer_db; faults = [] }

abbrev principal : Principal
principal = record {
  user_id = 7;
  client_id = 2;
  client_type = mcp;
  account_id = 1;
  scopes = "chat:read" ∷ [];
}

ended_world : World Db
ended_world = (revoke_grant {R = Response} empty_ok 20 1 2 bearer_world).1

revoked_once : revoke_grant {R = Response} empty_ok 20 1 2 bearer_world ≡ (go tt, ended_world)
unfolding revoke_grant ended_world ◌>>=◌
revoked_once = refl

-- After the revocation and a cleanup of registrations.
abbrev cleaned_world : World Db
cleaned_world = record { db = prune 25 1000 ended_world.db; faults = [] }

no_token_since :
    (t : AccessToken)
    → Memᴰ t cleaned_world.db.access_tokens
    → t.account_id ≡ 1
    → t.client_id ≡ 2
    → t.revoked_at ≡ none
    → Memᴰ t ended_world.db.access_tokens
unfolding prune
no_token_since t m a c r = m

revoke_grant_ends_tokens_example :
    authenticate_bearer len 30 "tgw_aaaa" cleaned_world ≢ (go principal, cleaned_world)
revoke_grant_ends_tokens_example =
    revoke_grant_ends_tokens len empty_ok 20 30 1 2 "tgw_aaaa" bearer_world ended_world
      cleaned_world cleaned_world principal revoked_once no_token_since refl refl

abbrev replay_db : Db
replay_db = record bearer_db {
  refresh_tokens =
      record {
        token_hash = 7;
        client_id = "client";
        gateway_client_id = 2;
        account_id = 1;
        scopes = "chat:read" ∷ [];
        expires_at = 100;
        revoked_at = some 5;
      }
      ∷ [];
}

abbrev replay_form : TokenForm
replay_form = record code_form {
  grant_type = "refresh_token";
  refresh_token = "refresh";
  token = "refresh";
}

abbrev replay_world : World Db
replay_world = record { db = replay_db; faults = [] }

token_replay_ends_grant_example :
    (w' : World Db) × (token env 10 fresh replay_form replay_world ≡ (go invalid_grant, w'))
    × GrantEnded 1 2 w'.db
unfolding grant_type_of valid_resource credentials_match
token_replay_ends_grant_example =
    token_replay_ends_grant env 10 fresh replay_form _ _ 5 replay_world refl refl refl refl refl
      refl refl

after_revoke : World Db
after_revoke = (revoke env 10 replay_form replay_world).1

abbrev client : OauthClient
client = record {
  id = "client";
  name = "app";
  redirect_uris = "https://app.test/cb" ∷ [];
  secret_hash = none;
  auth_method = "none";
  activated_at = some 5;
  created_at = 5;
}

abbrev consent_db : Db
consent_db = record db {
  oauth_requests =
      record {
        id = "request-identifier";
        client_id = "client";
        redirect_uri = "https://app.test/cb";
        state = "state";
        challenge = "challenge";
        scopes = "chat:read" ∷ [];
        csrf_hash = 4;
        expires_at = 100;
        user_id = 7;
        account_id = 1;
      }
      ∷ [];
}

abbrev consent_world : World Db
consent_world = record { db = consent_db; faults = [] }

abbrev never_consented : OauthClient
never_consented = record client { activated_at = none }

abbrev requested_world : World Db
requested_world = record {
  db = record consent_db { oauth_clients = never_consented ∷ [] };
  faults = [];
}

cleanup_keeps_used_example :
    Memᴰ never_consented (cleanup_registrations 900000000000 requested_world).1.db.oauth_clients
cleanup_keeps_used_example =
    cleanup_keeps_used 900000000000 requested_world never_consented (Memᴰ.head refl)
      (requested _ (Memᴰ.head refl) refl)

abbrev consent_form : ConsentForm
consent_form = record {
  parsed = true;
  request_id = "request-identifier";
  csrf = "csrf";
  decision = "allow";
  account_id = "account";
  cookie = some "csrf";
  origin = "";
}

abbrev login : Option (Option BrowserPrincipal)
login = some (some (record { user_id = 7; account_id = 1 }))

after_consent : World Db
after_consent = (consent env 10 3 "new-code" login consent_form consent_world).1

consented_once :
    consent env 10 3 "new-code" login consent_form consent_world
    ≡ (go (redirect_code "https://app.test/cb" "state" "new-code"), after_consent)
unfolding consent after_consent approve bound_to new_client ◌>>=◌
consented_once = refl

consent_sound_example : Consented env 10 3 "new-code" login consent_form consent_db after_consent.db
consent_sound_example =
    consent_sound env 10 3 "new-code" login consent_form "https://app.test/cb" "state" "new-code"
      consent_world after_consent consented_once
