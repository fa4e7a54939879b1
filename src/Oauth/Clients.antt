-- ===== src/Oauth/Clients.antt =====
-- internal/oauth/server.go (`register`, `authenticateClient`) and internal/oauth/registration.go.
-- A pruning statement deletes the rows that `unused` and `stale` select; rows that another
-- transaction holds locked (SKIP LOCKED) do not occur, since `lockRegistrations` serialises it.
pub mod Authentic
pub mod Pruning
use Prim.Native.String.{len}
use telegram_gateway.Base.{
  ℕ, String, Bool, true, false, Option, none, some, List, [], ◌∷◌, ◌&&◌, ◌||◌, ◌==◌, ◌+◌, ltb, leb,
  not, is_empty, text_eq, if◌then◌else◌, find_row, any_row, length, count_where, delete_where,
}
use telegram_gateway.Base.Handler.{
  Handler, ◌>>=◌, ◌>>◌, query, expect, stop_if, pure, respond, in_tx,
}
use telegram_gateway.Schema.{Db, Uuid, Digest, Time, OauthClient, day}
use telegram_gateway.Oauth.Server.{
  Env, Response, fail, registered, server_error, unavailable, client_row, equal_hash,
  valid_redirect,
}
use text.Mathlib.Text.{is_lt}
use Prim.Native.String.{compare}

-- The form of a request to the token and revocation endpoints, with HTTP basic credentials.
pub record TokenForm : Type 0 where
  pub parsed : Bool
  pub resource : String
  pub client_id : String
  pub client_secret : String
  pub basic : Option (String × String)
  pub grant_type : String
  pub code : String
  pub redirect_uri : String
  pub code_verifier : String
  pub refresh_token : String
  pub scope : String
  pub token : String

abbrev pub presented_id : TokenForm → String
presented_id form = elim form.basic [ none ↦ form.client_id | some (user, password) ↦ user ]

abbrev presented_secret : TokenForm → String
presented_secret form = elim form.basic [
  | none ↦ form.client_secret
  | some (user, password) ↦ password
]

abbrev is_basic : TokenForm → Bool
is_basic form = elim form.basic [ none ↦ false | some b ↦ true ]

module _ (env : Env) where
  open env use {sha256}

  -- the switch on the client's authentication method
  unfoldable pub credentials_match : OauthClient → TokenForm → Bool
  credentials_match c form =
      let secret = presented_secret form in
      if text_eq c.auth_method "none"
      then is_empty secret && not (is_basic form)
      else if text_eq c.auth_method "client_secret_basic"
      then is_basic form && equal_hash (sha256 secret) c.secret_hash
      else if text_eq c.auth_method "client_secret_post"
      then not (is_basic form) && equal_hash (sha256 secret) c.secret_hash
      else false

  -- Every error of `authenticateClient` is answered the same.
  unfoldable pub authenticate_client : Time → TokenForm → Handler Response Db OauthClient
  authenticate_client now form = do
    let refusal = fail 401 "invalid_client"
    row ← query refusal (λ db. (client_row env now (presented_id form) db, db))
    c ← expect refusal row
    stop_if (not (credentials_match c form)) refusal
    pure c

-- A registration that nothing refers to: `activated_at IS NULL AND NOT EXISTS …`.
unfoldable pub is_unused : Db → OauthClient → Bool
is_unused db c = elim c.activated_at [
  | some t ↦ false
  | none ↦
      not (any_row (λ r. text_eq r.client_id c.id) db.oauth_requests)
      && (not (any_row (λ r. text_eq r.client_id c.id) db.oauth_codes)
          && not (any_row (λ r. text_eq r.client_id c.id) db.refresh_tokens))
]

-- `c` stands before `d` in ORDER BY created_at DESC, id DESC.
abbrev pub comes_before : OauthClient → OauthClient → Bool
comes_before c d =
    ltb d.created_at c.created_at || (d.created_at == c.created_at && is_lt (compare d.id c.id))

-- row_number() OVER (ORDER BY …) among the unused registrations
abbrev pub position : Db → OauthClient → ℕ
position db c = count_where (λ d. is_unused db d && comes_before d c) db.oauth_clients + 1

-- created_at < NOW() - interval '24 hours' OR position > keep
unfoldable pub is_stale : Time → ℕ → Db → OauthClient → Bool
is_stale now keep db c =
    is_unused db c && (ltb (c.created_at + day) now || ltb keep (position db c))

unfoldable pub prune : Time → ℕ → Db → Db
prune now keep db = record db {
  oauth_clients = delete_where (is_stale now keep db) db.oauth_clients;
}

-- The two statements of `pruneRegistrations`, the advisory lock first.
unfoldable pub prune_registrations : Response → Time → ℕ → Handler Response Db Unit
prune_registrations failed now keep = do
  query failed (λ db. (tt, db))
  query failed (λ db. (tt, prune now keep db))

unfoldable pub cleanup_registrations : Time → Handler Response Db Unit
cleanup_registrations now =
    in_tx unavailable (λ _. unavailable) (prune_registrations unavailable now 1000)

pub record Registration : Type 0 where
  pub decoded : Bool
  pub name : String
  pub redirects : List String
  pub method : String
  pub grant_types : List String
  pub response_types : List String

abbrev all_true : (String → Bool) → List String → Bool
all_true test [] = true
all_true test (x ∷ xs) = let rest = all_true test xs in if test x then rest else false

abbrev or_text : String → String → String
or_text s d = if is_empty s then d else s

abbrev is_method : String → Bool
is_method m =
    text_eq m "none" || (text_eq m "client_secret_post" || text_eq m "client_secret_basic")

module _ (env : Env) where
  open env use {sha256}

  -- `id` and `secret` are the random texts of the new registration.
  unfoldable pub register : Time → String → String → Registration → Handler Response Db Response
  register now id secret form = do
    let bad_metadata = fail 400 "invalid_client_metadata"
    stop_if
        (not form.decoded
          || (ltb (length form.redirects) 1
              || (ltb 10 (length form.redirects) || ltb 200 (len form.name))))
        bad_metadata
    stop_if (not (all_true (valid_redirect env) form.redirects)) (fail 400 "invalid_redirect_uri")
    stop_if
        (not (
          all_true (λ v. text_eq v "authorization_code" || text_eq v "refresh_token")
            form.grant_types))
        bad_metadata
    stop_if (not (all_true (λ v. text_eq v "code") form.response_types)) bad_metadata
    let method = or_text form.method "none"
    stop_if (not (is_method method)) bad_metadata
    let public_client = text_eq method "none"
    in_tx unavailable (λ _. unavailable)
        (do
          prune_registrations unavailable now 999
          query server_error (λ db. (
            tt,
            record db {
              oauth_clients =
                  record {
                    id = id;
                    name = or_text form.name "MCP client";
                    redirect_uris = form.redirects;
                    secret_hash = if public_client then none else some (sha256 secret);
                    auth_method = method;
                    activated_at = none;
                    created_at = now;
                  }
                  ∷ db.oauth_clients;
            },
          )))
    pure (registered id (if public_client then none else some secret))
