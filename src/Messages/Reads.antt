-- ===== src/Messages/Reads.antt =====
-- internal/messages/repository.go and fresh.go, and the view active_messages of
-- migrations/000012_message_tombstones.up.sql: what a reader gets.
use telegram_gateway.Base.{
  ℕ, String, Bool, true, false, Option, none, some, List, [], ◌∷◌, ◌&&◌, ◌||◌, ◌==◌, not, ltb,
  text_eq, if◌then◌else◌, any_row, select_where, take,
}
use telegram_gateway.Base.Handler.{Handler, query, pure}
use telegram_gateway.Messages.Table.{
  MessageRow, Tombstone, ChatRow, MessagesDb, MessageError, database_error, buries, Cursor,
}

-- the chat of the message in active_chats, with no tombstone for the message
abbrev shows : List Tombstone → MessageRow → ChatRow → Bool
shows tombstones r c =
    text_eq c.id r.chat_id
    && (text_eq c.account_id r.account_id
        && (not c.deleted && not (any_row (buries c r) tombstones)))

-- the view active_messages
abbrev pub is_active : MessagesDb → MessageRow → Bool
is_active db r = not r.deleted && any_row (shows db.tombstones r) db.chats

abbrev default_page_size : ℕ
default_page_size = 30

abbrev max_page_size : ℕ
max_page_size = 100

-- normalizeLimit: a limit that is not positive is 0 here
unfoldable pub normalize_limit : ℕ → ℕ
normalize_limit limit =
    if limit == 0
    then default_page_size
    else if ltb max_page_size limit
    then max_page_size
    else limit

-- (sent_at, telegram_message_id) < (c.sent_at, c.telegram_message_id)
abbrev pub is_below : Cursor → MessageRow → Bool
is_below c r =
    ltb r.sent_at c.sent_at
    || (r.sent_at == c.sent_at && ltb r.telegram_message_id c.telegram_message_id)

abbrev pub cursor_of : MessageRow → Cursor
cursor_of r = record { sent_at = r.sent_at; telegram_message_id = r.telegram_message_id }

abbrev pub after : Option Cursor → MessageRow → Bool
after none r = true
after (some c) r = is_below c r

-- ORDER BY sent_at DESC, telegram_message_id DESC
abbrev pub insert_desc : MessageRow → List MessageRow → List MessageRow
insert_desc r [] = r ∷ []
insert_desc r (x ∷ xs) =
    let rest = insert_desc r xs in if is_below (cursor_of x) r then x ∷ rest else r ∷ x ∷ xs

abbrev pub order_desc : List MessageRow → List MessageRow
order_desc [] = []
order_desc (x ∷ xs) = insert_desc x (order_desc xs)

-- SELECT … FROM active_messages WHERE … ORDER BY … LIMIT
abbrev pub select_active : (MessageRow → Bool) → ℕ → MessagesDb → List MessageRow
select_active p limit db =
    take limit (order_desc (select_where (λ r. is_active db r && p r) db.messages))

abbrev pub in_chat : String → String → MessageRow → Bool
in_chat account chat r = text_eq r.account_id account && text_eq r.chat_id chat

abbrev pub read : (MessagesDb → List MessageRow) → Handler MessageError MessagesDb (List MessageRow)
read f = query database_error λ db. (f db, db)

unfoldable pub list_active_by_chat :
    String → String → Option Cursor → ℕ → Handler MessageError MessagesDb (List MessageRow)
list_active_by_chat account chat cursor limit =
    read (select_active (λ r. in_chat account chat r && after cursor r) (normalize_limit limit))

abbrev contains : List String → String → Bool
contains [] id = false
contains (i ∷ is) id = let rest = contains is id in if text_eq i id then true else rest

unfoldable pub list_active_by_ids :
    String → List String → Handler MessageError MessagesDb (List MessageRow)
list_active_by_ids account [] = pure []
list_active_by_ids account (i ∷ is) = read λ db. order_desc (
    select_where (λ r. is_active db r && (text_eq r.account_id account && contains (i ∷ is) r.id))
      db.messages)
