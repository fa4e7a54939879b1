-- ===== src/Messages/Hidden.antt =====
-- What readers get of deleted messages (internal/messages/repository.go, pagination.go, fresh.go).
use telegram_gateway.Base.{
  ℕ, String, ◌≡◌, Bool, true, false, Option, none, some, ◌&&◌, inl, inr, List, [], ◌∷◌, arith, All,
  Bool-cases, any_row, select_where, take, leb, length,
}
use telegram_gateway.Base.Handler.{World, Outcome, go, reply, pure, respond}
use telegram_gateway.Base.Handler.Inversion.{query-go, >>=-go, parts, pure-go}
use telegram_gateway.Base.Slices.{All-imp, All-both, All-take, All-select_where, All-selected, last}
use telegram_gateway.Schema.{Time}
use telegram_gateway.Messages.Table.{MessageRow, MessagesDb, MessageError, Cursor, has_key}
use telegram_gateway.Messages.Store.{mark_deleted}
use telegram_gateway.Messages.Reads.{is_active, list_active_by_chat, list_active_by_ids, order_desc}
use telegram_gateway.Messages.Pages.{
  CursorPayload, Page, page_of, answer, page_to, with_next, list_active_page,
}
use telegram_gateway.Messages.Pages.Order.{All-order_desc}
use telegram_gateway.Messages.Writes.{Writes, Writes_keep}
use telegram_gateway.Messages.Gone.{
  DeletedIfNamed, Gone, Hides-Gone, Stores-Gone, mark_deleted-Gone,
}

with_next-items :
    (marshal : CursorPayload → List ℕ) (base64 : List ℕ → String) (items : List MessageRow)
    (o : Outcome MessageError String) (page : Page)
    → with_next marshal base64 items o ≡ go page
    → page.items ≡ items
with_next-items marshal base64 items (go next) page h = ground arith
with_next-items marshal base64 items (reply e) page h = absurd (cc)

page_to-items :
    (marshal : CursorPayload → List ℕ) (base64 : List ℕ → String) (items : List MessageRow)
    (o : Option MessageRow) (page : Page)
    → page_to marshal base64 items o ≡ go page
    → page.items ≡ items
page_to-items marshal base64 items none page h = absurd (cc)
page_to-items marshal base64 items (some r) page h = with_next-items marshal base64 items _ page h

page_of-All :
    (P : MessageRow → Type 0) (marshal : CursorPayload → List ℕ) (base64 : List ℕ → String) (n : ℕ)
    (items : List MessageRow) (page : Page)
    → All P items
    → page_of marshal base64 n items ≡ go page
    → All P page.items
unfolding page_of
page_of-All P marshal base64 n items page h e = elim (Bool-cases (leb (length items) n)) [
  | inl short ↦ let whole : page.items ≡ items = ground arith in rw whole h
  | inr long ↦
      let cut : page.items ≡ take n items =
        page_to-items marshal base64 (take n items) (last (take n items)) page (ground arith) in
      rw cut (All-take P n items h)
]

answer-go :
    (A : Type 0) (o : Outcome MessageError A) (a : A) (w w' : World MessagesDb)
    → answer o w ≡ (go a, w')
    → o ≡ go a
unfolding pure respond
answer-go A (go b) a w w' h = ground arith
answer-go A (reply e) a w w' h = absurd (cc)

module _ (account chat : String) (n : ℕ) where
  -- What a reader gets of the table does not have the message.
  select_active-hides :
      (db : MessagesDb) (p : MessageRow → Bool)
      → All (DeletedIfNamed account chat n) db.messages
      → All
          (λ r. has_key account chat n r ≡ false)
          (order_desc (select_where (λ r. is_active db r && p r) db.messages))
  select_active-hides db p h =
      let shown : MessageRow → Bool = λ r. is_active db r && p r in
      All-order_desc _ (select_where shown db.messages) (
        All-imp (λ r. DeletedIfNamed account chat n r × (shown r ≡ true)) _
          (select_where shown db.messages) (λ r k. hidden_row r db (p r) k.0 k.1)
          (All-both (DeletedIfNamed account chat n) (λ r. shown r ≡ true)
            (select_where shown db.messages)
            (All-select_where (DeletedIfNamed account chat n) shown db.messages h)
            (All-selected shown db.messages)))
    where
      hidden_row :
          (r : MessageRow) (db : MessagesDb) (b : Bool)
          → DeletedIfNamed account chat n r
          → (is_active db r && b) ≡ true
          → has_key account chat n r ≡ false
      hidden_row r db b k e = elim (Bool-cases (has_key account chat n r)) [
        | inl named ↦ absurd (ground (arith, k named))
        | inr other ↦ other
      ]

  list_active_by_ids-hides :
      (a : String) (ids : List String) (rows : List MessageRow) (v v' : World MessagesDb)
      → All (DeletedIfNamed account chat n) v.db.messages
      → list_active_by_ids a ids v ≡ (go rows, v')
      → All (λ r. has_key account chat n r ≡ false) rows
  unfolding list_active_by_ids
  list_active_by_ids-hides a [] rows v v' h run = rw (pure-go [] rows v v' run).0 tt
  list_active_by_ids-hides a (i ∷ is) rows v v' h run =
      rw (query-go _ _ rows v v' run).0 (select_active-hides v.db _ h)

  list_active_page-hides :
      (marshal : CursorPayload → List ℕ) (base64 : List ℕ → String) (a c : String)
      (cursor : Option Cursor) (limit : ℕ) (page : Page) (v v' : World MessagesDb)
      → All (DeletedIfNamed account chat n) v.db.messages
      → list_active_page marshal base64 a c cursor limit v ≡ (go page, v')
      → All (λ r. has_key account chat n r ≡ false) page.items
  unfolding list_active_page
  list_active_page-hides marshal base64 a c cursor limit page v v' h run =
      elim (>>=-go _ _ _ _ _ run) [
        | parts items u e f ↦
            page_of-All _ marshal base64 _ items page
              (rw (query-go _ _ items v u e).0 (All-take _ _ _ (select_active-hides v.db _ h)))
              (answer-go Page _ page u v' f)
      ]

-- A message that is stored and then deleted is never read again: after any writes, failed ones too
-- (upserts of it or of other messages, deletions, tombstones), a page of the chat, a list of messages
-- of the chat and a list by ids have no row of it.
pub deleted_never_read :
    (now : Time) (account chat : String) (n : ℕ) (t : Time) (w u v : World MessagesDb)
    → mark_deleted now account chat n t w ≡ (go tt, u)
    → any_row (has_key account chat n) w.db.messages ≡ true
    → Writes u v
    → ((a c : String) (cursor : Option Cursor) (limit : ℕ) (rows : List MessageRow)
          (v' : World MessagesDb)
        → list_active_by_chat a c cursor limit v ≡ (go rows, v')
        → All (λ r. has_key account chat n r ≡ false) rows)
      × ((a : String) (ids : List String) (rows : List MessageRow) (v' : World MessagesDb)
          → list_active_by_ids a ids v ≡ (go rows, v')
          → All (λ r. has_key account chat n r ≡ false) rows)
      × ((marshal : CursorPayload → List ℕ) (base64 : List ℕ → String) (a c : String)
            (cursor : Option Cursor) (limit : ℕ) (page : Page) (v' : World MessagesDb)
          → list_active_page marshal base64 a c cursor limit v ≡ (go page, v')
          → All (λ r. has_key account chat n r ≡ false) page.items)
unfolding list_active_by_chat
deleted_never_read now account chat n t w u v e stored_there writes =
    let gone : Gone account chat n v.db.messages =
      Writes_keep (Gone account chat n) (Stores-Gone account chat n) (Hides-Gone account chat n) u v
        writes (mark_deleted-Gone account chat n now t w u e stored_there) in
    (
      λ a c cursor limit rows v' run.
          rw (query-go _ _ rows v v' run).0
            (All-take _ _ _ (select_active-hides account chat n v.db _ gone.0)),
      λ a ids rows v' run. list_active_by_ids-hides account chat n a ids rows v v' gone.0 run,
      λ marshal base64 a c cursor limit page v' run.
          list_active_page-hides account chat n marshal base64 a c cursor limit page v v' gone.0
            run,
    )
