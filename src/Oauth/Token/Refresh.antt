-- ===== src/Oauth/Token/Refresh.antt =====
-- The exchange of a refresh token: rotation, and what a rotated token may hold.
use mathlib.Core.Path.{subst}
use telegram_gateway.Base.{
  String, ◌≡◌, ◌≢◌, ◌∙◌, ap, sym, ◌==◌, ◌<◌, ◌+◌, ◌*◌, ◌&&◌, true, false, none, some, List, [], ◌∷◌,
  arith, find_row, any_row, update_where, find_row_sound, find_row_mem, mem-update_where,
  any_row-false, if◌then◌else◌, Memᴰ, All, All_mem, All-update_where_covered, Option-cases,
  Bool-cases, inl, inr, text_eq, eq_iff,
}
use telegram_gateway.Base.Handler.{World, go, ◌>>=◌}
use telegram_gateway.Schema.{Db, Uuid, Time, Digest, RefreshToken, OauthClient, day}
use telegram_gateway.Access.Scopes.{has_scope}
use telegram_gateway.Oauth.Server.{Env, issued, is_current}
use telegram_gateway.Oauth.Clients.{TokenForm, presented_id, credentials_match}
use telegram_gateway.Oauth.Token.{
  Fresh, granted, fresh_grant, replay, replayed, of_refresh, contains_all, narrowed, redeem_refresh,
  exchange, token, grant_type_of, refresh_token,
}
use telegram_gateway.Oauth.Token.Exchange.{
  exchanged, exchange-Exchanged, issue_for-fresh, issue_for-replay, issue-Issuing, answered,
  token-Answered,
}

contains_all_sound :
    (allowed narrow : List String) (s : String)
    → contains_all allowed narrow ≡ true
    → has_scope narrow s ≡ true
    → has_scope allowed s ≡ true
unfolding has_scope
contains_all_sound allowed [] s h m = absurd (cc)
contains_all_sound allowed (v ∷ narrow) s h m = elim (Bool-cases (has_scope allowed v)) [
  | inl e ↦ elim (Bool-cases (text_eq v s)) [
    | inl same ↦ subst (λ x. has_scope allowed x ≡ true) ((eq_iff v s).0 same) e
    | inr other ↦ contains_all_sound allowed narrow s (rw e at h) (rw other at m)
  ]
  | inr e ↦ absurd (ground arith)
]

-- A refresh never widens the scopes.
pub narrowed_sound :
    (scopes : List String) (requested : String) (narrow : List String) (s : String)
    → narrowed scopes requested ≡ some narrow
    → has_scope narrow s ≡ true
    → has_scope scopes s ≡ true
unfolding narrowed
narrowed_sound scopes requested narrow s h m = ground (arith, contains_all_sound scopes narrow s)

module _ (env : Env) where
  open env use {sha256}

  pub record RefreshRedeemed (now : Time) (client : String) (form : TokenForm) (a g : Uuid)
      (scopes : List String) (d d' : Db) : Type 0 where
    pub old : RefreshToken
    pub found : find_row (of_refresh (sha256 form.refresh_token) client) d.refresh_tokens ≡ some old
    pub not_revoked : old.revoked_at ≡ none
    pub in_time : now < old.expires_at
    pub part : narrowed old.scopes form.scope ≡ some scopes
    pub of_grant : (a ≡ old.account_id) × (g ≡ old.gateway_client_id)
    pub rotated :
        d'.refresh_tokens
        ≡ update_where
            (λ x. x.token_hash == sha256 form.refresh_token)
            (λ x. record x { revoked_at = some now })
            d.refresh_tokens

  redeem_refresh-RefreshRedeemed :
      (now : Time) (client : String) (form : TokenForm) (a g : Uuid) (scopes : List String)
      (w w' : World Db)
      → redeem_refresh env now client form w ≡ (go (fresh_grant a g scopes), w')
      → RefreshRedeemed now client form a g scopes w.db w'.db
  unfolding redeem_refresh ◌>>=◌
  redeem_refresh-RefreshRedeemed now client form a g scopes w w' h =
      elim (Option-cases
        (find_row (of_refresh (sha256 form.refresh_token) client) w.db.refresh_tokens)) [
          | inl e ↦ absurd (ground arith)
          | inr (t, e) ↦ elim (Option-cases (t.revoked_at)) [
            | inl live ↦ elim (Option-cases (narrowed t.scopes form.scope)) [
              | inl bad ↦ absurd (ground arith)
              | inr (n, part) ↦ record {
                old = t;
                found = e;
                not_revoked = live;
                in_time = ground arith;
                part = ground arith;
                of_grant = (ground arith, ground arith);
                rotated = ground arith;
              }
            ]
            | inr (r, dead) ↦ absurd (ground arith)
          ]
        ]

  replay≢granted :
      (a g a' g' : Uuid) (scopes : List String) (x y : String)
      → granted a g scopes x y ≢ replayed a' g'
  replay≢granted a g a' g' scopes x y e = cc

  -- An exchange under the refresh grant type that was granted: the redeemed token, and the table
  -- after rotation and issue.
  pub record RefreshExchanged (now : Time) (fresh : Fresh) (client : String) (form : TokenForm)
      (a g : Uuid) (scopes : List String) (d d' : Db) : Type 0 where
    pub old : RefreshToken
    pub found : find_row (of_refresh (sha256 form.refresh_token) client) d.refresh_tokens ≡ some old
    pub not_revoked : old.revoked_at ≡ none
    pub in_time : now < old.expires_at
    pub part : narrowed old.scopes form.scope ≡ some scopes
    pub of_grant : (a ≡ old.account_id) × (g ≡ old.gateway_client_id)
    pub added : RefreshToken
    pub left : List RefreshToken
    pub rotated :
        left
        ≡ update_where
            (λ x. x.token_hash == sha256 form.refresh_token)
            (λ x. record x { revoked_at = some now })
            d.refresh_tokens
    pub new_hash : any_row (λ (x : RefreshToken). x.token_hash == added.token_hash) left ≡ false
    pub after : d'.refresh_tokens ≡ added ∷ left

  exchange-RefreshExchanged :
      (now : Time) (fresh : Fresh) (client : String) (form : TokenForm) (a g : Uuid)
      (scopes : List String) (access refresh : String) (w w' : World Db)
      → grant_type_of form.grant_type ≡ refresh_token
      → exchange env now fresh client form w ≡ (go (granted a g scopes access refresh), w')
      → RefreshExchanged now fresh client form a g scopes w.db w'.db
  exchange-RefreshExchanged now fresh client form a g scopes access refresh w w' kind h =
      elim (exchange-Exchanged env now fresh client form _ w w' h) [
        | exchanged (replay a' g') u v same redeemed issuing ↦ absurd (
            replay≢granted a g a' g' scopes access refresh
              (issue_for-replay env now fresh client a' g' _ v w' issuing).0)
        | exchanged (fresh_grant a' g' s') u v same redeemed issuing ↦
            let r =
              redeem_refresh-RefreshRedeemed now client form a' g' s' u v (rw kind at redeemed) in
            let (t, made, rest) = issue_for-fresh env now fresh client a' g' s' _ v w' issuing in
            let i = issue-Issuing env now fresh client g' a' s' t v w' rest in
            let tables = ap (λ (d : Db). d.refresh_tokens) same in
            record {
              old = r.old;
              found =
                  ap (find_row (of_refresh (sha256 form.refresh_token) client)) (sym tables)
                  ∙ r.found;
              not_revoked = r.not_revoked;
              in_time = r.in_time;
              part = ground (arith, r.part);
              of_grant = (ground (arith, r.of_grant.0), ground (arith, r.of_grant.1));
              added = record {
                token_hash = sha256 fresh.refresh;
                client_id = client;
                gateway_client_id = g';
                account_id = a';
                scopes = s';
                expires_at = now + 30 * day;
                revoked_at = none;
              };
              left = v.db.refresh_tokens;
              rotated =
                  r.rotated
                  ∙ ap
                      (update_where (λ x. x.token_hash == sha256 form.refresh_token)
                        (λ x. record x { revoked_at = some now }))
                      tables;
              new_hash = i.new_hash;
              after = i.refresh_tokens;
            }
      ]

  -- What a refresh token that was redeemed for tokens was.
  pub record Refreshes (now : Time) (form : TokenForm) (scopes : List String) (d : Db)
      : Type 0 where
    pub client : OauthClient
    pub known :
        find_row (λ x. text_eq x.id (presented_id form) && is_current env now x) d.oauth_clients
        ≡ some client
    pub authentic : credentials_match env client form ≡ true
    pub old : RefreshToken
    pub stored : Memᴰ old d.refresh_tokens
    pub of_request : (old.token_hash ≡ sha256 form.refresh_token) × (old.client_id ≡ client.id)
    pub not_revoked : old.revoked_at ≡ none
    pub in_time : now < old.expires_at
    pub narrower : (s : String) → has_scope scopes s ≡ true → has_scope old.scopes s ≡ true

  -- A request under the refresh grant type is answered with tokens only for a refresh token that is
  -- stored, neither revoked nor expired, and issued to the client that authenticated; and every
  -- scope of the answer is a scope of that token.
  pub token_refresh_sound :
      (now : Time) (fresh : Fresh) (form : TokenForm) (access refresh : String)
      (scopes : List String) (w w' : World Db)
      → grant_type_of form.grant_type ≡ refresh_token
      → token env now fresh form w ≡ (go (issued access refresh scopes), w')
      → Refreshes now form scopes w.db
  token_refresh_sound now fresh form access refresh scopes w w' kind h =
      elim (token-Answered env now fresh form access refresh scopes w w' h) [
        | answered c a g v u same row ok run final ↦
            let x =
              exchange-RefreshExchanged now fresh c.id form a g scopes access refresh v u kind
                run in
            let sound =
              find_row_sound (of_refresh (sha256 form.refresh_token) c.id) v.db.refresh_tokens
                x.found in
            record {
              client = c;
              known = row;
              authentic = ok;
              old = x.old;
              stored =
                  subst (λ (d : Db). Memᴰ x.old d.refresh_tokens) same
                    (find_row_mem (of_refresh (sha256 form.refresh_token) c.id) v.db.refresh_tokens
                      x.found);
              of_request = (ground arith, ground (arith, eq_iff x.old.client_id c.id));
              not_revoked = x.not_revoked;
              in_time = x.in_time;
              narrower = λ s. narrowed_sound x.old.scopes form.scope scopes s x.part;
            }
      ]

  abbrev IsSpent : Digest → RefreshToken → Type 0
  IsSpent hash t = t.token_hash ≡ hash → t.revoked_at ≢ none

  -- After a granted exchange every row under the old token's hash is revoked.
  exchange-IsSpent :
      (now : Time) (fresh : Fresh) (client : String) (form : TokenForm) (a g : Uuid)
      (scopes : List String) (access refresh : String) (w w' : World Db)
      → grant_type_of form.grant_type ≡ refresh_token
      → exchange env now fresh client form w ≡ (go (granted a g scopes access refresh), w')
      → All (IsSpent (sha256 form.refresh_token)) w'.db.refresh_tokens
  exchange-IsSpent now fresh client form a g scopes access refresh w w' kind h =
      let x =
        exchange-RefreshExchanged now fresh client form a g scopes access refresh w w' kind h in
      let hash : Digest = sha256 form.refresh_token in
      let covered = λ (t : RefreshToken). t.token_hash == hash in
      let revoke = λ (t : RefreshToken). record t { revoked_at = some now } in
      let sound = find_row_sound (of_refresh hash client) w.db.refresh_tokens x.found in
      let kept = subst (Memᴰ (if covered x.old then revoke x.old else x.old)) (sym x.rotated) (
        mem-update_where covered revoke x.old w.db.refresh_tokens
          (find_row_mem (of_refresh hash client) w.db.refresh_tokens x.found)) in
      let other =
        any_row-false (λ (t : RefreshToken). t.token_hash == x.added.token_hash) _ x.left kept
          x.new_hash in
      let spent : All (IsSpent hash) (update_where covered revoke w.db.refresh_tokens) =
        All-update_where_covered (IsSpent hash) covered revoke w.db.refresh_tokens
          (λ t e k n. ground arith) (λ t e k n. ground arith) in
      subst (All (IsSpent hash)) (sym x.after)
        (λ k n. absurd (ground arith), subst (All (IsSpent hash)) (sym x.rotated) spent)

  -- After a request under the refresh grant type was answered with tokens, no later request with the
  -- same refresh token is, whoever sends it and whatever else it holds, and whatever has happened in
  -- between, provided that no unrevoked refresh token with the same digest has been stored anew.
  pub token_refresh_single_use :
      (now later : Time) (fresh fresh' : Fresh) (form form' : TokenForm)
      (access refresh access' refresh' : String) (scopes scopes' : List String)
      (w w' u u' : World Db)
      → grant_type_of form.grant_type ≡ refresh_token
      → grant_type_of form'.grant_type ≡ refresh_token
      → form'.refresh_token ≡ form.refresh_token
      → token env now fresh form w ≡ (go (issued access refresh scopes), w')
      → ((t : RefreshToken)
          → Memᴰ t u.db.refresh_tokens
          → t.token_hash ≡ sha256 form.refresh_token
          → t.revoked_at ≡ none
          → Memᴰ t w'.db.refresh_tokens)
      → token env later fresh' form' u ≢ (go (issued access' refresh' scopes'), u')
  token_refresh_single_use now later fresh fresh' form form' access refresh access' refresh' scopes
        scopes' w w' u u' kind kind' reused first none_new second =
      elim (token-Answered env now fresh form access refresh scopes w w' first) [
        | answered c a g v v' same row ok run final ↦
            let spent =
              exchange-IsSpent now fresh c.id form a g scopes access refresh v v' kind run in
            let y =
              token_refresh_sound later fresh' form' access' refresh' scopes' u u' kind' second in
            let of_token : y.old.token_hash ≡ sha256 form.refresh_token =
              y.of_request.0 ∙ ap sha256 reused in
            let stored : Memᴰ y.old v'.db.refresh_tokens =
              subst (λ (d : Db). Memᴰ y.old d.refresh_tokens) final
                (none_new y.old y.stored of_token y.not_revoked) in
            All_mem (IsSpent (sha256 form.refresh_token)) y.old v'.db.refresh_tokens spent stored
              of_token y.not_revoked
      ]
