-- ===== src/Examples/Oauth.antt =====
-- The authorization server on a small database. The hash of a text is its length here.
use Prim.Native.String.{len}
use telegram_gateway.Base.{
  ◌≡◌, Memᴰ, ◌≢◌, refl, true, false, none, some, [], ◌∷◌, trim_space, fields,
}
use telegram_gateway.Base.Handler.{World, go, ◌>>=◌}
use telegram_gateway.Schema.{Db, OauthCode, RefreshToken, active, mcp}
use telegram_gateway.Oauth.Server.{Env, issued, parse_scopes, valid_resource, verifier_pattern}
use telegram_gateway.Oauth.Clients.{TokenForm, credentials_match, authenticate_client, prune}
use telegram_gateway.Oauth.Token.{
  Fresh, token, exchange, redeem_code, redeem_refresh, issue, proof_holds, grant_type_of, narrowed,
  authorization_code, refresh_token,
}
use telegram_gateway.Oauth.Token.Code.{Redeems, token_code_sound, token_code_single_use}
use telegram_gateway.Oauth.Token.Refresh.{Refreshes, token_refresh_sound, token_refresh_single_use}
use telegram_gateway.Access.Token.{generate_token}
use telegram_gateway.Access.Scopes.{
  normalize_scopes, validate_scopes, first_unsupported, is_allowed, sort, distinct,
}
use telegram_gateway.Access.Issue.{insert_access_token}

abbrev pub env : Env
env = record {
  sha256 = len;
  base64_url = λ d. "challenge";
  parse_url = λ s. none;
  url_string = λ u. "";
  base = "https://gateway.test";
  uuid_text = λ u. "account";
}

abbrev pub db : Db
db = record {
  accounts = record { id = 1; user_id = 7; status = active } ∷ [];
  gateway_clients =
      record { id = 2; user_id = 7; name = "app"; client_type = mcp; enabled = true } ∷ [];
  access_tokens = [];
  oauth_clients =
      record {
        id = "client";
        name = "app";
        redirect_uris = "https://app.test/cb" ∷ [];
        secret_hash = none;
        auth_method = "none";
        activated_at = some 5;
        created_at = 5;
      }
      ∷ [];
  oauth_requests = [];
  oauth_codes =
      record {
        code_hash = 4;
        client_id = "client";
        gateway_client_id = 2;
        account_id = 1;
        redirect_uri = "https://app.test/cb";
        challenge = "challenge";
        scopes = "chat:read" ∷ "media:read" ∷ [];
        expires_at = 100;
      }
      ∷ [];
  refresh_tokens = [];
  audit_logs = [];
}

abbrev start : World Db
start = record { db = db; faults = false ∷ [] }

abbrev pub code_form : TokenForm
code_form = record {
  parsed = true;
  resource = "";
  client_id = "client";
  client_secret = "";
  basic = none;
  grant_type = "authorization_code";
  code = "code";
  redirect_uri = "https://app.test/cb";
  code_verifier = "abcdefghijklmnopqrstuvwxyzabcdefghijklmnopqrstuvwxyz";
  refresh_token = "";
  scope = "";
  token = "";
}

abbrev pub fresh : Fresh
fresh = record { id = 3; random = "randomtext"; refresh = "refresh-token" }

after_code : World Db
after_code = (token env 10 fresh code_form start).1

exchanged_once :
    token env 10 fresh code_form start
    ≡ (go (issued "tgw_randomtext" "refresh-token" ("chat:read" ∷ "media:read" ∷ [])), after_code)
unfolding token ◌>>=◌ after_code authenticate_client credentials_match exchange redeem_code issue
    proof_holds grant_type_of insert_access_token generate_token valid_resource verifier_pattern
    trim_space
exchanged_once = refl

code_kind : grant_type_of code_form.grant_type ≡ authorization_code
unfolding grant_type_of
code_kind = refl

token_code_sound_example : Redeems env 10 code_form ("chat:read" ∷ "media:read" ∷ []) db
token_code_sound_example =
    token_code_sound env 10 fresh code_form "tgw_randomtext" "refresh-token"
      ("chat:read" ∷ "media:read" ∷ []) start after_code code_kind exchanged_once

-- The same code again, after the first exchange and a cleanup of registrations.
abbrev again : World Db
again = record { db = prune 20 1000 after_code.db; faults = [] }

no_code_since :
    (o : OauthCode)
    → Memᴰ o again.db.oauth_codes
    → o.code_hash ≡ env.sha256 "code"
    → Memᴰ o after_code.db.oauth_codes
unfolding prune
no_code_since o m e = m

token_code_single_use_example :
    token env 20 fresh code_form again
    ≢ (go (issued "tgw_randomtext" "refresh-token" ("chat:read" ∷ [])), again)
token_code_single_use_example =
    token_code_single_use env 10 20 fresh fresh code_form code_form "tgw_randomtext" "refresh-token"
      "tgw_randomtext" "refresh-token" ("chat:read" ∷ "media:read" ∷ []) ("chat:read" ∷ []) start
      after_code again again code_kind code_kind refl exchanged_once no_code_since

abbrev refresh_db : Db
refresh_db = record db {
  gateway_clients =
      record { id = 2; user_id = 7; name = "app"; client_type = mcp; enabled = true } ∷ [];
  refresh_tokens =
      record {
        token_hash = 7;
        client_id = "client";
        gateway_client_id = 2;
        account_id = 1;
        scopes = "chat:read" ∷ "media:read" ∷ [];
        expires_at = 100;
        revoked_at = none;
      }
      ∷ [];
}

abbrev refresh_form : TokenForm
refresh_form = record code_form {
  grant_type = "refresh_token";
  refresh_token = "refresh";
  scope = "chat:read";
}

abbrev refresh_start : World Db
refresh_start = record { db = refresh_db; faults = [] }

after_refresh : World Db
after_refresh = (token env 10 fresh refresh_form refresh_start).1

refreshed_once :
    token env 10 fresh refresh_form refresh_start
    ≡ (go (issued "tgw_randomtext" "refresh-token" ("chat:read" ∷ [])), after_refresh)
unfolding token ◌>>=◌ after_refresh authenticate_client credentials_match exchange redeem_refresh
    issue narrowed grant_type_of insert_access_token generate_token valid_resource trim_space fields
    parse_scopes normalize_scopes validate_scopes first_unsupported is_allowed sort distinct
refreshed_once = refl

refresh_kind : grant_type_of refresh_form.grant_type ≡ refresh_token
unfolding grant_type_of
refresh_kind = refl

token_refresh_sound_example : Refreshes env 10 refresh_form ("chat:read" ∷ []) refresh_db
token_refresh_sound_example =
    token_refresh_sound env 10 fresh refresh_form "tgw_randomtext" "refresh-token"
      ("chat:read" ∷ []) refresh_start after_refresh refresh_kind refreshed_once

abbrev refresh_again : World Db
refresh_again = record { db = prune 20 1000 after_refresh.db; faults = [] }

no_refresh_since :
    (t : RefreshToken)
    → Memᴰ t refresh_again.db.refresh_tokens
    → t.token_hash ≡ env.sha256 refresh_form.refresh_token
    → t.revoked_at ≡ none
    → Memᴰ t after_refresh.db.refresh_tokens
unfolding prune
no_refresh_since t m e r = m

token_refresh_single_use_example :
    token env 20 fresh refresh_form refresh_again
    ≢ (go (issued "tgw_randomtext" "refresh-token" ("chat:read" ∷ [])), refresh_again)
token_refresh_single_use_example =
    token_refresh_single_use env 10 20 fresh fresh refresh_form refresh_form "tgw_randomtext"
      "refresh-token" "tgw_randomtext" "refresh-token" ("chat:read" ∷ []) ("chat:read" ∷ [])
      refresh_start after_refresh refresh_again refresh_again refresh_kind refresh_kind refl
      refreshed_once no_refresh_since
