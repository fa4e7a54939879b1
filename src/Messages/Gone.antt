-- ===== src/Messages/Gone.antt =====
-- A message that has been deleted in the table (internal/messages/repository.go).
use telegram_gateway.Base.{
  ℕ, String, ◌≡◌, refl, sym, ap, ◌∙◌, true, ◌||◌, ◌==◌, inl, inr, List, [], ◌∷◌, arith, All,
  Bool-cases, Option-cases, find_row, any_row, update_where, if◌then◌else◌,
}
use telegram_gateway.Base.Handler.{World, go, query, ◌>>=◌}
use telegram_gateway.Base.Handler.Inversion.{query-go}
use telegram_gateway.Base.Lookup.{
  any_row-map, update_where-map, any_row-append, any_row-find_row, All-map,
}
use telegram_gateway.Base.Slices.{All-append}
use telegram_gateway.Schema.{Time}
use telegram_gateway.Messages.Table.{MessageRow, MessagesDb, has_key, is_blank, database_error}
use telegram_gateway.Messages.Store.{merge, same_message, mark_deleted, deleted_row, delete_in}
use telegram_gateway.Messages.Keys.{
  put_missing, put_present, merge_where-key, same_message-find_row,
}
use telegram_gateway.Messages.Effects.{Hides, unchanged, marked, Stores, nothing, stored}

module _ (account chat : String) (n : ℕ) where
  abbrev pub DeletedIfNamed : MessageRow → Type 0
  DeletedIfNamed r = has_key account chat n r ≡ true → r.deleted ≡ true

  -- The message is stored, and deleted.
  abbrev pub Gone : List MessageRow → Type 0
  Gone rows = All DeletedIfNamed rows × (any_row (has_key account chat n) rows ≡ true)

  pub Hides-Gone : (d e : MessagesDb) → Hides d e → Gone d.messages → Gone e.messages
  Hides-Gone d e unchanged h = h
  Hides-Gone d e (marked g same) h = (
    All-map DeletedIfNamed DeletedIfNamed g d.messages
        (λ r k named. (same r).stays_deleted (k (sym ((same r).same_key account chat n) ∙ named)))
        h.0,
    any_row-map _ g d.messages (λ r. (same r).same_key account chat n) ∙ h.1,
  )

  merged-DeletedIfNamed :
      (new r : MessageRow)
      → DeletedIfNamed r
      → DeletedIfNamed (if same_message new r then merge new r else r)
  unfolding merge
  merged-DeletedIfNamed new r k named = elim (Bool-cases (same_message new r)) [
    | inl s ↦ rw s (k (sym (merge_where-key account chat n new r) ∙ named))
    | inr s ↦ rw s (k (sym (merge_where-key account chat n new r) ∙ named))
  ]

  pub Stores-Gone : (d e : MessagesDb) → Stores d e → Gone d.messages → Gone e.messages
  Stores-Gone d e nothing h = h
  Stores-Gone d e (stored new fresh) h =
      elim (Option-cases (find_row (same_message new) d.messages)) [
        | inl missing ↦ rw (put_missing new d missing) (
          All-append DeletedIfNamed d.messages (new ∷ []) h.0 (
            λ named. absurd (
                ground (
                  arith,
                  h.1,
                  any_row-find_row (has_key account chat n) d.messages
                      (same_message-find_row account chat n new d.messages named ∙ missing),
                )),
            tt,
          ),
          any_row-append _ d.messages new h.1,
        )
        | inr (r, e) ↦ rw (put_present new r d e) (
          All-map DeletedIfNamed DeletedIfNamed _ d.messages (merged-DeletedIfNamed new) h.0,
          any_row-map _ _ d.messages (merge_where-key account chat n new) ∙ h.1,
        )
      ]

  deleted_where-key :
      (t : Time) (r : MessageRow)
      → has_key account chat n (if has_key account chat n r then deleted_row t r else r)
        ≡ has_key account chat n r
  deleted_where-key t r = ground arith

  marked_rows :
      (t : Time) (rows : List MessageRow)
      → All DeletedIfNamed (update_where (has_key account chat n) (deleted_row t) rows)
  marked_rows t [] = tt
  marked_rows t (r ∷ rows) = elim (Bool-cases (has_key account chat n r)) [
    | inl e ↦ rw e (λ named. refl, marked_rows t rows)
    | inr e ↦ rw e (λ named. absurd (ground arith), marked_rows t rows)
  ]

  deletion_passed :
      (now t : Time) (w u : World MessagesDb)
      → mark_deleted now account chat n t w ≡ (go tt, u)
      → u.db ≡ delete_in account chat n (if t == 0 then now else t) w.db
  unfolding mark_deleted ◌>>=◌
  deletion_passed now t w u h = elim (Bool-cases (is_blank account || is_blank chat)) [
    | inl a ↦ absurd (ground arith)
    | inr a ↦ elim (Bool-cases (n == 0)) [
      | inl b ↦ absurd (ground arith)
      | inr b ↦
          let deletion : MessagesDb → Unit {0} × MessagesDb =
            λ db. (tt, delete_in account chat n (if t == 0 then now else t) db) in
          let passed : mark_deleted now account chat n t w ≡ query database_error deletion w =
            rw a (rw b refl) in
          (query-go database_error deletion tt w u (sym passed ∙ h)).1
    ]
  ]

  -- A deletion that goes on past its checks leaves the message deleted.
  pub mark_deleted-Gone :
      (now t : Time) (w u : World MessagesDb)
      → mark_deleted now account chat n t w ≡ (go tt, u)
      → any_row (has_key account chat n) w.db.messages ≡ true
      → Gone u.db.messages
  mark_deleted-Gone now t w u h stored_there =
      let at : Time = if t == 0 then now else t in
      let changed : u.db ≡ delete_in account chat n at w.db = deletion_passed now t w u h in
      rw changed (
        marked_rows at w.db.messages,
        ap (any_row (has_key account chat n))
              (update_where-map (has_key account chat n) (deleted_row at) w.db.messages)
            ∙ any_row-map _ _ w.db.messages (deleted_where-key at)
            ∙ stored_there,
      )
