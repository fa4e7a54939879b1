-- ===== src/Oauth/Consent/Grant.antt =====
-- What an approved consent form was, and what it leaves.
use telegram_gateway.Base.{
  String, is_empty, ◌||◌, ◌≡◌, ◌∙◌, ap, ◌==◌, ◌+◌, ◌*◌, ◌<◌, ◌&&◌, true, Option, none, some, ◌∷◌,
  arith, find_row, any_row, delete_where, find_row_sound, find_row_mem, Memᴰ, find_row-delete_where,
  Option-cases, Bool-cases, inl, inr, text_eq, eq_iff, if◌then◌else◌,
}
use telegram_gateway.Base.Handler.{World, Handler, go, expect, query, pure, stop_if, ◌>>=◌, ◌>>◌}
use telegram_gateway.Base.Handler.Inversion.{parts, >>=-go, committed, in_tx-go, stop_if-keeps}
use telegram_gateway.Schema.{Db, Uuid, Time, OauthRequest, TelegramAccount, is_active, minute}
use telegram_gateway.Oauth.Server.{Env, Response, unavailable, redirect_code, redirect_denied}
use telegram_gateway.Oauth.Consent.{
  BrowserPrincipal, ConsentForm, of_live_request, new_client, bound_to, approve, allow, deny,
  consent,
}

module _ (env : Env) where
  open env use {sha256, base, uuid_text}

  -- What an approval behind a redirect with a code was: a live request of the browser's own user and
  -- account, whose CSRF value both the form and the cookie hold, approved for an active account; the
  -- request is consumed, and the one new code carries its client, redirect URI, challenge and scopes.
  pub record Consented (now : Time) (id : Uuid) (code : String)
      (auth : Option (Option BrowserPrincipal)) (form : ConsentForm) (d d' : Db) : Type 0 where
    pub principal : BrowserPrincipal
    pub signed_in : auth ≡ some (some principal)
    pub request : OauthRequest
    pub stored : Memᴰ request d.oauth_requests
    pub requested : request.id ≡ form.request_id
    pub in_time : now < request.expires_at
    pub own : (request.user_id ≡ principal.user_id) × (request.account_id ≡ principal.account_id)
    pub cookie : String
    pub cookie_sent : form.cookie ≡ some cookie
    pub csrf : (sha256 cookie ≡ request.csrf_hash) × (sha256 form.csrf ≡ request.csrf_hash)
    pub same_origin : (is_empty form.origin || text_eq form.origin base) ≡ true
    pub allowed : form.decision ≡ "allow"
    pub same_account : form.account_id ≡ uuid_text principal.account_id
    pub active :
        any_row
          (λ (a : TelegramAccount).
            a.id == principal.account_id && (a.user_id == principal.user_id && is_active a.status))
          d.accounts
        ≡ true
    pub consumed : find_row (of_live_request now form.request_id) d'.oauth_requests ≡ none
    pub codes :
        d'.oauth_codes
        ≡ record {
          code_hash = sha256 code;
          client_id = request.client_id;
          gateway_client_id = id;
          account_id = principal.account_id;
          redirect_uri = request.redirect_uri;
          challenge = request.challenge;
          scopes = request.scopes;
          expires_at = now + 5 * minute;
        }
          ∷ d.oauth_codes

  approve-Approved :
      (now : Time) (id : Uuid) (code : String) (r : OauthRequest) (p : BrowserPrincipal)
      (w w' : World Db) (x : Unit {0})
      → approve env now id code r p w ≡ (go x, w')
      → (any_row
            (λ (a : TelegramAccount).
              a.id == p.account_id && (a.user_id == p.user_id && is_active a.status))
            w.db.accounts
          ≡ true)
        × (w'.db.oauth_requests ≡ delete_where (of_live_request now r.id) w.db.oauth_requests)
        × (w'.db.oauth_codes
            ≡ record {
              code_hash = sha256 code;
              client_id = r.client_id;
              gateway_client_id = id;
              account_id = p.account_id;
              redirect_uri = r.redirect_uri;
              challenge = r.challenge;
              scopes = r.scopes;
              expires_at = now + 5 * minute;
            }
              ∷ w.db.oauth_codes)
  unfolding approve new_client ◌>>=◌
  approve-Approved now id code r p w w' x h = (ground arith, ground arith, ground arith)

  audited :
      (now : Time) (id : Uuid) (code : String) (r : OauthRequest) (p : BrowserPrincipal)
      (w w' : World Db) (x : Response)
      → (query unavailable (λ db. (
        tt {0},
        record db {
          audit_logs =
              record {
                account_id = p.account_id;
                action = "OAUTH_CONSENT_GRANTED";
                resource_id = id;
              }
              ∷ db.audit_logs;
        },
      ))
            >> pure (redirect_code r.redirect_uri r.state code))
          w
        ≡ (go x, w')
      → (w'.db.oauth_requests ≡ w.db.oauth_requests) × (w'.db.oauth_codes ≡ w.db.oauth_codes)
  unfolding ◌>>=◌
  audited now id code r p w w' x h = (ground arith, ground arith)

  allow-go :
      (now : Time) (id : Uuid) (code : String) (r : OauthRequest) (p : BrowserPrincipal)
      (form : ConsentForm) (w w' : World Db) (x : Response)
      → allow env now id code r p form w ≡ (go x, w')
      → (text_eq form.account_id (uuid_text p.account_id) ≡ true)
        × (any_row
              (λ (a : TelegramAccount).
                a.id == p.account_id && (a.user_id == p.user_id && is_active a.status))
              w.db.accounts
            ≡ true)
        × (w'.db.oauth_requests ≡ delete_where (of_live_request now r.id) w.db.oauth_requests)
        × (w'.db.oauth_codes
            ≡ record {
              code_hash = sha256 code;
              client_id = r.client_id;
              gateway_client_id = id;
              account_id = p.account_id;
              redirect_uri = r.redirect_uri;
              challenge = r.challenge;
              scopes = r.scopes;
              expires_at = now + 5 * minute;
            }
              ∷ w.db.oauth_codes)
  unfolding stop_if query pure
  allow-go now id code r p form w w' x h = elim (>>=-go _ _ _ _ _ h) [
    | parts _ u₁ e₁ h₁ ↦ elim (>>=-go _ _ _ _ _ h₁) [
      | parts _ u₂ e₂ h₂ ↦ elim (in_tx-go _ _ _ _ _ _ e₂) [
        | committed v u same run stored ↦
            let same₁ = stop_if-keeps _ _ _ w u₁ e₁ in
            let (active, consumed, codes) = approve-Approved now id code r p v u tt run in
            let final = audited now id code r p u₂ w' x h₂ in
            (ground arith, ground arith, ground (arith, final.0), ground (arith, final.1))
      ]
    ]
  ]

  deny-answer :
      (r : OauthRequest) (u w' : World Db) (x : Response)
      → deny env r u ≡ (go x, w')
      → x ≡ redirect_denied r.redirect_uri r.state
  unfolding ◌>>=◌
  deny-answer r u w' x h = ground arith

  -- The checks before the decision.
  record Checked (now : Time) (auth : Option (Option BrowserPrincipal)) (form : ConsentForm)
      (p : BrowserPrincipal) (r : OauthRequest) (d : Db) : Type 0 where
    signed_in : auth ≡ some (some p)
    found : find_row (of_live_request now form.request_id) d.oauth_requests ≡ some r
    bound : bound_to env r p form ≡ true
    same_origin : (is_empty form.origin || text_eq form.origin base) ≡ true

  abbrev decide :
      Time
      → Uuid
      → String
      → ConsentForm
      → OauthRequest
      → BrowserPrincipal
      → Handler Response Db Response
  decide now id code form r p =
      if text_eq form.decision "allow" then allow env now id code r p form else deny env r

  data Front (now : Time) (id : Uuid) (code : String) (auth : Option (Option BrowserPrincipal))
      (form : ConsentForm) (x : Response) (w w' : World Db) : Type 0 where
    front :
        (p : BrowserPrincipal) (r : OauthRequest) (u : World Db)
        → u.db ≡ w.db
        → Checked now auth form p r w.db
        → decide now id code form r p u ≡ (go x, w')
        → Front now id code auth form x w w'

  consent-Front :
      (now : Time) (id : Uuid) (code : String) (auth : Option (Option BrowserPrincipal))
      (form : ConsentForm) (x : Response) (w w' : World Db)
      → consent env now id code auth form w ≡ (go x, w')
      → Front now id code auth form x w w'
  unfolding consent expect query stop_if
  consent-Front now id code auth form x w w' h = elim (>>=-go _ _ _ _ _ h) [
    | parts login u₁ e₁ h₁ ↦ elim (>>=-go _ _ _ _ _ h₁) [
      | parts p u₂ e₂ h₂ ↦ elim (>>=-go _ _ _ _ _ h₂) [
        | parts _ u₃ e₃ h₃ ↦ elim (>>=-go _ _ _ _ _ h₃) [
          | parts _ u₄ e₄ h₄ ↦ elim (>>=-go _ _ _ _ _ h₄) [
            | parts row u₅ e₅ h₅ ↦ elim (>>=-go _ _ _ _ _ h₅) [
              | parts r u₆ e₆ h₆ ↦ elim (>>=-go _ _ _ _ _ h₆) [
                | parts _ u₇ e₇ h₇ ↦ elim (>>=-go _ _ _ _ _ h₇) [
                  | parts _ u₈ e₈ h₈ ↦
                      front p r u₈ (ground arith)
                        (record {
                          signed_in = ground arith;
                          found = ground arith;
                          bound = ground arith;
                          same_origin = ground arith;
                        })
                        h₈
                ]
              ]
            ]
          ]
        ]
      ]
    ]
  ]

  -- A consent form is answered with a code only where it approves a live request of the signed-in
  -- user's own account, with the request's CSRF value in both the form and the cookie, and from the
  -- server's own origin or without an Origin header; then the request is consumed, and one code is added, with its contents.
  pub consent_sound :
      (now : Time) (id : Uuid) (code : String) (auth : Option (Option BrowserPrincipal))
      (form : ConsentForm) (uri state code' : String) (w w' : World Db)
      → consent env now id code auth form w ≡ (go (redirect_code uri state code'), w')
      → Consented now id code auth form w.db w'.db
  unfolding bound_to
  consent_sound now id code auth form uri state code' w w' h =
      elim (consent-Front now id code auth form _ w w' h) [
        | front p r u same checked rest ↦ elim (Bool-cases (text_eq form.decision "allow")) [
          | inr other ↦ absurd (cc (deny-answer r u w' _ (rw other at rest)))
          | inl allowed ↦ elim (Option-cases form.cookie) [
            | inl missing ↦ absurd (ground (arith, checked.bound))
            | inr (k, sent) ↦
                let (own, active, consumed, codes) =
                  allow-go now id code r p form u w' _ (rw allowed at rest) in
                let live =
                  find_row_sound (of_live_request now form.request_id) w.db.oauth_requests
                    checked.found in
                let named : r.id ≡ form.request_id = ground (arith, eq_iff r.id form.request_id) in
                record {
                  principal = p;
                  signed_in = checked.signed_in;
                  request = r;
                  stored =
                      find_row_mem (of_live_request now form.request_id) w.db.oauth_requests
                        checked.found;
                  requested = named;
                  in_time = ground arith;
                  own = (ground (arith, checked.bound), ground (arith, checked.bound));
                  cookie = k;
                  cookie_sent = sent;
                  csrf = (ground (arith, checked.bound), ground (arith, checked.bound));
                  same_origin = checked.same_origin;
                  allowed = (eq_iff form.decision "allow").0 allowed;
                  same_account = (eq_iff form.account_id (uuid_text p.account_id)).0 own;
                  active = ground (arith, active);
                  consumed =
                      ap (find_row (of_live_request now form.request_id)) consumed
                      ∙ find_row-delete_where (of_live_request now form.request_id)
                          (of_live_request now r.id) u.db.oauth_requests (λ o e. rw named e);
                  codes = ground (arith, codes);
                }
          ]
        ]
      ]
