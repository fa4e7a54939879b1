-- ===== src/Oauth/Clients/Pruning.antt =====
-- Which registrations pruning removes.
use telegram_gateway.Base.{
  ℕ, ◌≡◌, Bool, refl, sym, List, [], ◌∷◌, true, false, arith, Memᴰ, mem-delete_where, some,
  Option-cases, inl, inr, any_row-true, text_eq, eq_iff,
}
use mathlib.Core.Path.{subst}
use telegram_gateway.Base.Handler.{World, in_tx, ◌>>=◌}
use telegram_gateway.Schema.{Db, Time, OauthClient, OauthRequest, OauthCode, RefreshToken}
use telegram_gateway.Oauth.Clients.{
  is_unused, is_stale, prune, cleanup_registrations, prune_registrations,
}

data Pruned (before after : Db) (now : Time) : Type 0 where
  kept : after ≡ before → Pruned before after now
  pruned : after ≡ prune now 1000 before → Pruned before after now

cleanup-Pruned :
    (now : Time) (d : Db) (fs : List Bool)
    → Pruned d (cleanup_registrations now (record { db = d; faults = fs })).1.db now
unfolding cleanup_registrations prune_registrations in_tx ◌>>=◌
cleanup-Pruned now d [] = pruned refl
cleanup-Pruned now d (true ∷ fs) = kept refl
cleanup-Pruned now d (false ∷ []) = pruned refl
cleanup-Pruned now d (false ∷ true ∷ fs) = kept refl
cleanup-Pruned now d (false ∷ false ∷ []) = pruned refl
cleanup-Pruned now d (false ∷ false ∷ true ∷ fs) = kept refl
cleanup-Pruned now d (false ∷ false ∷ false ∷ []) = pruned refl
cleanup-Pruned now d (false ∷ false ∷ false ∷ true ∷ fs) = kept refl
cleanup-Pruned now d (false ∷ false ∷ false ∷ false ∷ fs) = pruned refl

-- What keeps a registration: it was consented to, or a stored request, code or refresh token names it.
pub data Used (db : Db) (c : OauthClient) : Type 0 where
  consented_to : (t : Time) → c.activated_at ≡ some t → Used db c
  requested : (r : OauthRequest) → Memᴰ r db.oauth_requests → r.client_id ≡ c.id → Used db c
  coded : (o : OauthCode) → Memᴰ o db.oauth_codes → o.client_id ≡ c.id → Used db c
  refreshable : (t : RefreshToken) → Memᴰ t db.refresh_tokens → t.client_id ≡ c.id → Used db c

Used-not_unused : (db : Db) (c : OauthClient) → Used db c → is_unused db c ≡ false
unfolding is_unused
Used-not_unused db c (consented_to t e) = rw e refl
Used-not_unused db c (requested r m e) =
    let named =
      any_row-true (λ (r : OauthRequest). text_eq r.client_id c.id) r db.oauth_requests m
        ((eq_iff r.client_id c.id).1 e) in
    elim (Option-cases c.activated_at) [ inl n ↦ rw n (rw named refl) | inr (t, s) ↦ rw s refl ]
Used-not_unused db c (coded o m e) =
    let named =
      any_row-true (λ (o : OauthCode). text_eq o.client_id c.id) o db.oauth_codes m
        ((eq_iff o.client_id c.id).1 e) in
    elim (Option-cases c.activated_at) [ inl n ↦ ground (arith, n, named) | inr (t, s) ↦ rw s refl ]
Used-not_unused db c (refreshable o m e) =
    let named =
      any_row-true (λ (t : RefreshToken). text_eq t.client_id c.id) o db.refresh_tokens m
        ((eq_iff o.client_id c.id).1 e) in
    elim (Option-cases c.activated_at) [ inl n ↦ ground (arith, n, named) | inr (t, s) ↦ rw s refl ]

prune_keeps_used :
    (now : Time) (keep : ℕ) (d : Db) (c : OauthClient)
    → Memᴰ c d.oauth_clients
    → is_unused d c ≡ false
    → Memᴰ c (prune now keep d).oauth_clients
unfolding prune is_stale
prune_keeps_used now keep d c m used = mem-delete_where _ _ _ m (ground arith)

-- A registration that was consented to, or that a stored request, code or refresh token names, is
-- never removed by the periodic cleanup, whether or not its statements succeed.
pub cleanup_keeps_used :
    (now : Time) (w : World Db) (c : OauthClient)
    → Memᴰ c w.db.oauth_clients
    → Used w.db c
    → Memᴰ c (cleanup_registrations now w).1.db.oauth_clients
cleanup_keeps_used now w c m used = elim (cleanup-Pruned now w.db w.faults) [
  | kept same ↦ subst (λ d. Memᴰ c d.oauth_clients) (sym same) m
  | pruned done ↦
      subst (λ d. Memᴰ c d.oauth_clients) (sym done)
        (prune_keeps_used now 1000 w.db c m (Used-not_unused w.db c used))
]
