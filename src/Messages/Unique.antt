-- ===== src/Messages/Unique.antt =====
-- The unique key (account_id, chat_id, telegram_message_id) of the table messages
-- (internal/messages/repository.go).
use telegram_gateway.Base.{
  ℕ, String, ◌≡◌, sym, ◌∙◌, false, inl, inr, List, [], ◌∷◌, ◌++◌, arith, All, Bool-cases,
  Option-cases, find_row, map,
}
use telegram_gateway.Base.Handler.{World}
use telegram_gateway.Base.Lookup.{All-find_row, All-map}
use telegram_gateway.Base.Slices.{All-append}
use telegram_gateway.Messages.Table.{MessageRow, MessagesDb, has_key}
use telegram_gateway.Messages.Store.{same_message}
use telegram_gateway.Messages.Keys.{
  put_missing, put_present, merge_where-key, same_message_key, same_message_self,
}
use telegram_gateway.Messages.Effects.{Hides, unchanged, marked, Stores, nothing, stored}
use telegram_gateway.Messages.Writes.{Writes, Writes_keep}

-- No two rows have the same key.
abbrev pub Unique : List MessageRow → Type 0
Unique [] = Unit
Unique (x ∷ xs) = All (λ r. same_message x r ≡ false) xs × Unique xs

same_message_sym : (a b : MessageRow) → same_message a b ≡ false → same_message b a ≡ false
same_message_sym a b h = elim (Bool-cases (same_message b a)) [
  | inl e ↦ absurd (
      ground (
        arith,
        same_message_key a.account_id a.chat_id a.telegram_message_id b a e,
        same_message_self a,
      ))
  | inr e ↦ e
]

-- A change of every row that keeps its key.
map-Unique :
    (g : MessageRow → MessageRow) (xs : List MessageRow)
    → ((a c : String) (n : ℕ) (r : MessageRow) → has_key a c n (g r) ≡ has_key a c n r)
    → Unique xs
    → Unique (map g xs)
map-Unique g [] k u = tt
map-Unique g (x ∷ xs) k u = (All-map _ _ g xs (λ r h. map_apart r h) u.0, map-Unique g xs k u.1)
  where
    map_apart : (r : MessageRow) → same_message x r ≡ false → same_message (g x) (g r) ≡ false
    map_apart r h = elim (Bool-cases (same_message (g x) (g r))) [
      | inl e ↦
          let shared : has_key x.account_id x.chat_id x.telegram_message_id x ≡ same_message x r =
            sym (k x.account_id x.chat_id x.telegram_message_id x)
            ∙ same_message_key x.account_id x.chat_id x.telegram_message_id (g x) (g r) e
            ∙ k x.account_id x.chat_id x.telegram_message_id r in
          absurd (ground (arith, shared, same_message_self x))
      | inr e ↦ e
    ]

append-Unique :
    (xs : List MessageRow) (new : MessageRow)
    → All (λ r. same_message new r ≡ false) xs
    → Unique xs
    → Unique (xs ++ (new ∷ []))
append-Unique [] new h u = (tt, tt)
append-Unique (x ∷ xs) new h u =
    (All-append _ xs (new ∷ []) u.0 (same_message_sym new x h.0, tt), append-Unique xs new h.1 u.1)

Hides-Unique : (d e : MessagesDb) → Hides d e → Unique d.messages → Unique e.messages
Hides-Unique d e unchanged u = u
Hides-Unique d e (marked g same) u = map-Unique g d.messages (λ a c n r. (same r).same_key a c n) u

Stores-Unique : (d e : MessagesDb) → Stores d e → Unique d.messages → Unique e.messages
Stores-Unique d e nothing u = u
Stores-Unique d e (stored new fresh) u =
    elim (Option-cases (find_row (same_message new) d.messages)) [
      | inl missing ↦
          rw (put_missing new d missing)
            (append-Unique d.messages new (All-find_row (same_message new) d.messages missing) u)
      | inr (r, found) ↦
          rw (put_present new r d found)
            (map-Unique _ d.messages (λ a c n r. merge_where-key a c n new r) u)
    ]

-- Two rows never get the same account, chat and message id: writes (upserts, deletions and tombstones,
-- failed ones too) keep the keys of the table unique.
pub Writes-keep-Unique :
    (w u : World MessagesDb) → Writes w u → Unique w.db.messages → Unique u.db.messages
Writes-keep-Unique = Writes_keep Unique Stores-Unique Hides-Unique
