-- ===== src/Oauth/Token/Code.antt =====
-- The exchange of an authorization code.
use mathlib.Core.Path.{subst}
use telegram_gateway.Base.{
  String, ◌≡◌, ◌≢◌, ◌∙◌, ap, sym, ◌==◌, ◌<◌, ◌&&◌, true, some, List, arith, find_row, delete_where,
  find_row_sound, find_row_mem, Memᴰ, All_mem, All-deleted, false, Option-cases, inl, inr, text_eq,
  eq_iff,
}
use telegram_gateway.Base.Handler.{World, go, ◌>>=◌}
use telegram_gateway.Schema.{Db, Time, OauthCode, OauthClient}
use telegram_gateway.Oauth.Server.{Env, issued, is_current, verifier_pattern}
use telegram_gateway.Oauth.Clients.{TokenForm, presented_id, credentials_match}
use telegram_gateway.Oauth.Token.{
  Fresh, granted, fresh_grant, Redeemed, of_live_code, proof_holds, redeem_code, exchange, token,
  grant_type_of, authorization_code, TxResult,
}
use telegram_gateway.Oauth.Token.Exchange.{
  exchanged, exchange-Exchanged, issue_for-fresh, issue-Issuing, answered, token-Answered,
}

module _ (env : Env) where
  open env use {sha256, base64_url}

  -- What a redeemed code was.
  pub record CodeRedeemed (now : Time) (client : String) (form : TokenForm) (r : Redeemed)
      (d d' : Db) : Type 0 where
    pub code : OauthCode
    pub found : find_row (of_live_code now (sha256 form.code) client) d.oauth_codes ≡ some code
    pub proof : proof_holds env code form ≡ true
    pub result : r ≡ fresh_grant code.account_id code.gateway_client_id code.scopes
    pub consumed :
        d'.oauth_codes ≡ delete_where (λ c. c.code_hash == sha256 form.code) d.oauth_codes

  redeem_code-CodeRedeemed :
      (now : Time) (client : String) (form : TokenForm) (r : Redeemed) (w w' : World Db)
      → redeem_code env now client form w ≡ (go r, w')
      → CodeRedeemed now client form r w.db w'.db
  unfolding redeem_code ◌>>=◌
  redeem_code-CodeRedeemed now client form r w w' h =
      elim (Option-cases (find_row (of_live_code now (sha256 form.code) client) w.db.oauth_codes)) [
        | inl e ↦ absurd (ground arith)
        | inr (c, e) ↦ record {
          code = c;
          found = e;
          proof = ground arith;
          result = ground arith;
          consumed = ground arith;
        }
      ]

  -- What an exchange under the code grant type did, when its transaction went on.
  pub record CodeExchanged (now : Time) (fresh : Fresh) (client : String) (form : TokenForm)
      (r : TxResult) (d d' : Db) : Type 0 where
    pub code : OauthCode
    pub found : find_row (of_live_code now (sha256 form.code) client) d.oauth_codes ≡ some code
    pub proof : proof_holds env code form ≡ true
    pub tokens : String × String
    pub result : r ≡ granted code.account_id code.gateway_client_id code.scopes tokens.0 tokens.1
    pub consumed :
        d'.oauth_codes ≡ delete_where (λ c. c.code_hash == sha256 form.code) d.oauth_codes

  pub exchange-CodeExchanged :
      (now : Time) (fresh : Fresh) (client : String) (form : TokenForm) (r : TxResult)
      (w w' : World Db)
      → grant_type_of form.grant_type ≡ authorization_code
      → exchange env now fresh client form w ≡ (go r, w')
      → CodeExchanged now fresh client form r w.db w'.db
  exchange-CodeExchanged now fresh client form r w w' kind h =
      elim (exchange-Exchanged env now fresh client form r w w' h) [
        | exchanged z u v same redeemed issuing ↦
            let run : redeem_code env now client form u ≡ (go z, v) = rw kind at redeemed in
            let c = redeem_code-CodeRedeemed now client form z u v run in
            let (t, made, rest) =
              issue_for-fresh env now fresh client c.code.account_id c.code.gateway_client_id
                c.code.scopes r v w' (rw c.result at issuing) in
            let i =
              issue-Issuing env now fresh client c.code.gateway_client_id c.code.account_id
                c.code.scopes t v w' rest in
            record {
              code = c.code;
              found =
                  ap
                    (λ (d : Db).
                      find_row (of_live_code now (sha256 form.code) client) d.oauth_codes)
                    (sym same)
                  ∙ c.found;
              proof = c.proof;
              tokens = t;
              result = made;
              consumed =
                  i.codes
                  ∙ (c.consumed
                      ∙ ap
                          (λ (d : Db).
                            delete_where (λ (x : OauthCode). x.code_hash == sha256 form.code)
                              d.oauth_codes)
                          same);
            }
      ]

  -- What a code that was redeemed for tokens was: a live row of the table that belongs to the client
  -- which authenticated, whose redirect URI and S256 challenge the request meets.
  pub record Redeems (now : Time) (form : TokenForm) (scopes : List String) (d : Db) : Type 0 where
    pub client : OauthClient
    pub known :
        find_row (λ x. text_eq x.id (presented_id form) && is_current env now x) d.oauth_clients
        ≡ some client
    pub authentic : credentials_match env client form ≡ true
    pub code : OauthCode
    pub stored : Memᴰ code d.oauth_codes
    pub of_request : (code.code_hash ≡ sha256 form.code) × (code.client_id ≡ client.id)
    pub in_time : now < code.expires_at
    pub same_redirect : code.redirect_uri ≡ form.redirect_uri
    pub verifier : verifier_pattern form.code_verifier ≡ true
    pub challenge : code.challenge ≡ base64_url (sha256 form.code_verifier)
    pub same_scopes : scopes ≡ code.scopes

  -- A request under the code grant type is answered with tokens only for a code that is stored,
  -- unexpired and issued to the client that authenticated, with its redirect URI and a well-formed
  -- verifier whose S256 digest is the stored challenge; and the scopes are those of the code.
  pub token_code_sound :
      (now : Time) (fresh : Fresh) (form : TokenForm) (access refresh : String)
      (scopes : List String) (w w' : World Db)
      → grant_type_of form.grant_type ≡ authorization_code
      → token env now fresh form w ≡ (go (issued access refresh scopes), w')
      → Redeems now form scopes w.db
  unfolding proof_holds
  token_code_sound now fresh form access refresh scopes w w' kind h =
      elim (token-Answered env now fresh form access refresh scopes w w' h) [
        | answered c a g v u same row ok run final ↦
            let x = exchange-CodeExchanged now fresh c.id form _ v u kind run in
            let sound =
              find_row_sound (of_live_code now (sha256 form.code) c.id) v.db.oauth_codes x.found in
            record {
              client = c;
              known = row;
              authentic = ok;
              code = x.code;
              stored =
                  subst (λ (d : Db). Memᴰ x.code d.oauth_codes) same
                    (find_row_mem (of_live_code now (sha256 form.code) c.id) v.db.oauth_codes
                      x.found);
              of_request = (ground arith, ground (arith, eq_iff x.code.client_id c.id));
              in_time = ground arith;
              same_redirect = ground (arith, eq_iff x.code.redirect_uri form.redirect_uri);
              verifier = ground (arith, x.proof);
              challenge = ground (
                arith,
                x.proof,
                eq_iff x.code.challenge (base64_url (sha256 form.code_verifier)),
              );
              same_scopes = ground (arith, x.result);
            }
      ]

  -- After a request under the code grant type was answered with tokens, no later request with the
  -- same code is, whoever sends it and whatever else it holds, and whatever has happened in between,
  -- provided that no code with the same digest has been stored anew.
  pub token_code_single_use :
      (now later : Time) (fresh fresh' : Fresh) (form form' : TokenForm)
      (access refresh access' refresh' : String) (scopes scopes' : List String)
      (w w' u u' : World Db)
      → grant_type_of form.grant_type ≡ authorization_code
      → grant_type_of form'.grant_type ≡ authorization_code
      → form'.code ≡ form.code
      → token env now fresh form w ≡ (go (issued access refresh scopes), w')
      → ((o : OauthCode)
          → Memᴰ o u.db.oauth_codes
          → o.code_hash ≡ sha256 form.code
          → Memᴰ o w'.db.oauth_codes)
      → token env later fresh' form' u ≢ (go (issued access' refresh' scopes'), u')
  token_code_single_use now later fresh fresh' form form' access refresh access' refresh' scopes
        scopes' w w' u u' kind kind' reused first none_new second =
      elim (token-Answered env now fresh form access refresh scopes w w' first) [
        | answered c a g v v' same row ok run final ↦
            let x = exchange-CodeExchanged now fresh c.id form _ v v' kind run in
            let y =
              token_code_sound later fresh' form' access' refresh' scopes' u u' kind' second in
            let of_code : y.code.code_hash ≡ sha256 form.code = y.of_request.0 ∙ ap sha256 reused in
            let left : Memᴰ y.code (
                delete_where (λ (o : OauthCode). o.code_hash == sha256 form.code)
                  v.db.oauth_codes) =
              subst (Memᴰ y.code) (ap (λ (d : Db). d.oauth_codes) final ∙ x.consumed)
                (none_new y.code y.stored of_code) in
            let gone =
              All_mem (λ (o : OauthCode). (o.code_hash == sha256 form.code) ≡ false) y.code _
                (All-deleted (λ (o : OauthCode). o.code_hash == sha256 form.code) v.db.oauth_codes)
                left in
            absurd (ground (arith, gone, of_code))
      ]
