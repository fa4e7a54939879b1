-- ===== src/Messages/Store.antt =====
-- internal/messages/repository.go: the statements that write. `now` is time.Now(), `id` what
-- gen_random_uuid() returns; a statement that breaks a constraint of the schema is one that fails.
use telegram_gateway.Base.{
  ℕ, String, Bool, true, Option, none, some, List, [], ◌∷◌, ◌++◌, ◌&&◌, ◌||◌, ◌==◌, not, leb, max,
  text_eq, if◌then◌else◌, update_where, map,
}
use telegram_gateway.Base.Keyed.{change}
use telegram_gateway.Base.Handler.{Handler, ◌>>=◌, ◌>>◌, query, expect, stop_if}
use telegram_gateway.Schema.{Time}
use telegram_gateway.Messages.Table.{
  Message, MessageRow, Tombstone, ChatRow, MessagesDb, MessageError, missing_scope,
  missing_message_id, missing_type, missing_sent_at, marshal_failed, database_error, has_key,
  is_blank, entry, buries,
}

abbrev pub coalesce : Option Time → Time → Time
coalesce none t = t
coalesce (some e) t = e

-- GREATEST, which ignores NULL
abbrev pub greatest : Option Time → Option Time → Option Time
greatest none b = b
greatest (some a) none = some a
greatest (some a) (some b) = some (max a b)

-- COALESCE(edited_at, sent_at)
abbrev pub version_time : MessageRow → Time
version_time r = coalesce r.edited_at r.sent_at

-- DO UPDATE SET …: `r` is the stored row, `new` is EXCLUDED
unfoldable pub merge : MessageRow → MessageRow → MessageRow
merge new r =
    let newer = leb (version_time r) (version_time new) in
    record r {
      sender_telegram_id = new.sender_telegram_id;
      sender_chat_id = new.sender_chat_id;
      message_type = if newer then new.message_type else r.message_type;
      content = if newer then new.content else r.content;
      content_entities = if newer then new.content_entities else r.content_entities;
      reply_to_message_id = new.reply_to_message_id;
      forward_info = if newer then new.forward_info else r.forward_info;
      raw_metadata = if newer then new.raw_metadata else r.raw_metadata;
      sent_at = new.sent_at;
      edited_at = greatest new.edited_at r.edited_at;
    }

-- the row that the INSERT conflicts with
abbrev pub same_message : MessageRow → MessageRow → Bool
same_message new r = has_key new.account_id new.chat_id new.telegram_message_id r

abbrev inserted :
    MessageRow → MessagesDb → Option MessageRow × List MessageRow → String × MessagesDb
inserted new db (none, rows) = (new.id, record db { messages = rows ++ (new ∷ []) })
inserted new db (some r, rows) = (r.id, record db { messages = rows })

unfoldable pub put : MessageRow → MessagesDb → String × MessagesDb
put new db = inserted new db (change (same_message new) (λ r. true) (merge new) db.messages)

unfoldable pub upsert : String → Message → Handler MessageError MessagesDb String
upsert id m = do
  stop_if (is_blank m.account_id || is_blank m.chat_id) missing_scope
  stop_if (m.telegram_message_id == 0) missing_message_id
  stop_if (is_blank m.message_type) missing_type
  stop_if (m.sent_at == 0) missing_sent_at
  new ← expect marshal_failed (entry id m)
  query database_error (put new)

-- SET deleted = TRUE, deleted_at = COALESCE(deleted_at, t)
abbrev pub deleted_row : Time → MessageRow → MessageRow
deleted_row t r = record r { deleted = true; deleted_at = some (coalesce r.deleted_at t) }

abbrev pub delete_in : String → String → ℕ → Time → MessagesDb → MessagesDb
delete_in account chat message t db = record db {
  messages = update_where (has_key account chat message) (deleted_row t) db.messages;
}

unfoldable pub mark_deleted :
    Time → String → String → ℕ → Time → Handler MessageError MessagesDb (Unit {0})
mark_deleted now account chat message deleted_at = do
  let at = if deleted_at == 0 then now else deleted_at
  stop_if (is_blank account || is_blank chat) missing_scope
  stop_if (message == 0) missing_message_id
  query database_error λ db. (tt, delete_in account chat message at db)

abbrev tombstone_of : List Tombstone → ChatRow → MessageRow → Option Time
tombstone_of [] c r = none
tombstone_of (t ∷ ts) c r =
    let rest = tombstone_of ts c r in if buries c r t then some t.deleted_at else rest

abbrev or_else : Option Time → Option Time → Option Time
or_else none b = b
or_else (some a) b = some a

-- FROM message_tombstones t JOIN chats c …: the time of the first tombstone that stands for the row
abbrev pub buried_at : List Tombstone → List ChatRow → MessageRow → Option Time
buried_at tombstones [] r = none
buried_at tombstones (c ∷ chats) r =
    let rest = buried_at tombstones chats r in
    if text_eq c.id r.chat_id then or_else (tombstone_of tombstones c r) rest else rest

abbrev pub buried_row : Option Time → MessageRow → MessageRow
buried_row none r = r
buried_row (some t) r = record r { deleted = true; deleted_at = some t }

abbrev pub apply_to : String → String → MessagesDb → MessageRow → MessageRow
apply_to account chat db r =
    if text_eq r.account_id account && (text_eq r.chat_id chat && not r.deleted)
    then buried_row (buried_at db.tombstones db.chats r) r
    else r

unfoldable pub apply_tombstones : String → String → Handler MessageError MessagesDb (Unit {0})
apply_tombstones account chat =
    query database_error
      λ db. (tt, record db { messages = map (apply_to account chat db) db.messages })
