-- ===== src/SyncState/Bounds.antt =====
-- Who can lease a state, and the window of messages that progress records.
use telegram_gateway.Base.{
  ℕ, String, true, Option, none, some, List, ◌≡◌, refl, sym, ap, ◌∙◌, arith, ◌≢◌, ◌≤◌, ◌<◌,
  trim_space, find_row, find_row_sound, min, max, ◌&&◌,
}
use telegram_gateway.Base.Keyed.{
  change, no_row, refused, changed, change-Change, change-no, find_row-update_where,
}
use telegram_gateway.Base.Handler.{World, go, ◌>>=◌}
use telegram_gateway.Base.Handler.Inversion.{parts, >>=-go, query-go, expect-go}
use telegram_gateway.Schema.{Time, Uuid}
use telegram_gateway.SyncState.{
  State, Lease, has_id, acquire, progress, is_held_by, is_free, is_unexpired, progressed, granted,
  least, greatest,
}

-- A state whose lease has not expired cannot be leased by anyone: the answer is never a lease, and the
-- table stays as it is.
pub held_state_not_acquired :
    (now : Time) (token : Uuid) (id owner : String) (ttl : ℕ) (s : State) (until : Time)
    (w : World (List State))
    → find_row (has_id (trim_space id)) w.db ≡ some s
    → s.lease_expires_at ≡ some until
    → now < until
    → ((l : Lease) (w' : World (List State)) → acquire now token id owner ttl w ≢ (go (some l), w'))
      × ((acquire now token id owner ttl w).1.db ≡ w.db)
unfolding acquire ◌>>=◌
held_state_not_acquired now token id owner ttl s until w found held early =
    let no_change : change (has_id (trim_space id)) (is_free now)
          (granted now token (trim_space owner) ttl) w.db
        ≡ (none, w.db) =
      change-no (has_id (trim_space id)) (is_free now) (granted now token (trim_space owner) ttl)
        w.db s found (ground arith) in
    (λ l w' h. absurd (ground arith), ground arith)

least-bounds :
    (low : ℕ) (o : Option ℕ)
    → (a : ℕ) × (least (some low) o ≡ some a) × (a ≤ low) × ((c : ℕ) → o ≡ some c → a ≤ c)
least-bounds low none = (low, refl, omega arith, λ c h. absurd (cc))
least-bounds low (some o) = (min low o, refl, omega arith, λ c h. ground arith)

greatest-bounds :
    (high : ℕ) (o : Option ℕ)
    → (b : ℕ) × (greatest (some high) o ≡ some b) × (high ≤ b) × ((c : ℕ) → o ≡ some c → c ≤ b)
greatest-bounds high none = (high, refl, omega arith, λ c h. absurd (cc))
greatest-bounds high (some o) = (max high o, refl, omega arith, λ c h. ground arith)

held-generation :
    (l : Lease) (s : State) (now : Time)
    → (is_held_by l s && is_unexpired now s) ≡ true
    → s.generation ≡ l.generation
unfolding is_held_by
held-generation l s now h = ground arith

-- Progress by the holder of an unexpired lease: the cursor is the given one, the window of message ids
-- grows to take in both ends that are given, keeps what it had, and the lease stays: its owner, its
-- token, its expiry and its generation, which is the holder's, are what they were.
pub progress_widens :
    (now : Time) (l : Lease) (cursor : String) (low high : ℕ) (s : State)
    (w w' : World (List State))
    → progress now l (some cursor) (some low) (some high) w ≡ (go s, w')
    → (before : State) × (a : ℕ) × (b : ℕ) × (find_row (has_id l.state_id) w.db ≡ some before)
      × (find_row (has_id l.state_id) w'.db ≡ some s)
      × (s.cursor ≡ cursor)
      × (s.oldest_message_id ≡ some a)
      × (s.newest_message_id ≡ some b)
      × (a ≤ low)
      × (high ≤ b)
      × ((c : ℕ) → before.oldest_message_id ≡ some c → a ≤ c)
      × ((c : ℕ) → before.newest_message_id ≡ some c → c ≤ b)
      × (s.lease_owner ≡ before.lease_owner)
      × (s.lease_token ≡ before.lease_token)
      × (s.lease_expires_at ≡ before.lease_expires_at)
      × (s.generation ≡ before.generation)
      × (s.generation ≡ l.generation)
unfolding progress
progress_widens now l cursor low high s w w' h = elim (>>=-go _ _ _ _ _ h) [
  | parts c u₁ e₁ h₁ ↦ elim (>>=-go _ _ _ _ _ h₁) [
    | parts row u₂ e₂ h₂ ↦
        let (c_eq, db₁) = expect-go _ (some cursor) c w u₁ e₁ in
        let (row_eq, db₂) = query-go _ _ row u₁ u₂ e₂ in
        let (s_eq, db₃) = expect-go _ row s u₂ w' h₂ in
        elim (change-Change (has_id l.state_id) (λ s. is_held_by l s && is_unexpired now s)
          (progressed now c (some low) (some high)) u₁.db) [
            | no_row o e n ↦ absurd (ground arith)
            | refused r o e n t ↦ absurd (ground arith)
            | changed r o e n t ↦
                let (a, a_eq, a_low, a_old) = least-bounds low r.oldest_message_id in
                let (b, b_eq, b_high, b_old) = greatest-bounds high r.newest_message_id in
                let id_eq : has_id l.state_id r ≡ true =
                  find_row_sound (has_id l.state_id) u₁.db n in
                let now_s : s ≡ progressed now c (some low) (some high) r = ground arith in
                let mine =
                  find_row-update_where (has_id l.state_id) (has_id l.state_id)
                    (progressed now c (some low) (some high)) u₁.db r (λ s. refl) n in
                (
                  r,
                  a,
                  b,
                  ap (find_row (has_id l.state_id)) (sym db₁) ∙ n,
                  ap (find_row (has_id l.state_id)) (db₃ ∙ db₂ ∙ e)
                      ∙ mine
                      ∙ rw id_eq (ap some (sym now_s)),
                  ground arith,
                  ap (λ s. s.oldest_message_id) now_s ∙ a_eq,
                  ap (λ s. s.newest_message_id) now_s ∙ b_eq,
                  a_low,
                  b_high,
                  a_old,
                  b_old,
                  ap (λ s. s.lease_owner) now_s,
                  ap (λ s. s.lease_token) now_s,
                  ap (λ s. s.lease_expires_at) now_s,
                  ap (λ s. s.generation) now_s,
                  ap (λ s. s.generation) now_s ∙ held-generation l r now t,
                )
          ]
  ]
]
