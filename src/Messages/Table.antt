-- ===== src/Messages/Table.antt =====
-- internal/messages/repository.go: the tables, and the row that a message is written as. Message ids
-- are naturals (0 is none), a time is a number of microseconds since Go's zero time (which is 0), and
-- a JSON value is its text, or `none` where json.Marshal refuses it.
use telegram_gateway.Base.{
  ℕ, String, Bool, false, Option, none, some, List, ◌&&◌, ◌==◌, is_empty, text_eq, trim_space,
}
use telegram_gateway.Base.Options.{◌>>=◌}
use telegram_gateway.Schema.{Time}

-- a value that is not nil, as json.Marshal writes it
abbrev pub Value : Type 0
Value = Option String

-- Message: what the caller gives (nil and null are `none`)
pub record Message : Type 0 where
  pub account_id : String
  pub chat_id : String
  pub telegram_message_id : ℕ
  pub sender_telegram_id : Option ℕ
  pub sender_chat_id : Option ℕ
  pub message_type : String
  pub content : Option String
  pub content_entities : Option Value
  pub reply_to_message_id : Option ℕ
  pub forward_info : Option Value
  pub raw_metadata : Option Value
  pub sent_at : Time
  pub edited_at : Option Time

-- a row of the table messages
pub record MessageRow : Type 0 where
  pub id : String
  pub account_id : String
  pub chat_id : String
  pub telegram_message_id : ℕ
  pub sender_telegram_id : Option ℕ
  pub sender_chat_id : Option ℕ
  pub message_type : String
  pub content : Option String
  pub content_entities : String
  pub reply_to_message_id : Option ℕ
  pub forward_info : Option String
  pub raw_metadata : String
  pub sent_at : Time
  pub edited_at : Option Time
  pub deleted : Bool
  pub deleted_at : Option Time

pub record Tombstone : Type 0 where
  pub account_id : String
  pub telegram_chat_id : ℕ
  pub telegram_message_id : ℕ
  pub deleted_at : Time

-- what the view active_messages reads of a chat
pub record ChatRow : Type 0 where
  pub id : String
  pub account_id : String
  pub telegram_chat_id : ℕ
  pub deleted : Bool

pub record MessagesDb : Type 0 where
  pub messages : List MessageRow
  pub tombstones : List Tombstone
  pub chats : List ChatRow

pub data MessageError : Type 0 where
  missing_scope missing_message_id missing_type missing_sent_at marshal_failed : MessageError
  missing_query incomplete_cursor empty_cursor bad_encoding bad_payload bad_values out_of_range
        out_of_fuel :
      MessageError
  database_error : MessageError

-- the unique key (account_id, chat_id, telegram_message_id)
abbrev pub has_key : String → String → ℕ → MessageRow → Bool
has_key account chat message r =
    text_eq r.account_id account && (text_eq r.chat_id chat && r.telegram_message_id == message)

-- the tombstone is one of the message in the chat
abbrev pub buries : ChatRow → MessageRow → Tombstone → Bool
buries c r t =
    text_eq t.account_id c.account_id
    && (t.telegram_chat_id == c.telegram_chat_id && t.telegram_message_id == r.telegram_message_id)

abbrev pub is_blank : String → Bool
is_blank s = is_empty (trim_space s)

-- Cursor
pub record Cursor : Type 0 where
  pub sent_at : Time
  pub telegram_message_id : ℕ

-- marshalArrayJSON and marshalObjectJSON: nil is written as the empty value
abbrev marshal_or : String → Option Value → Option String
marshal_or empty none = some empty
marshal_or empty (some value) = value

-- marshalNullableJSON and nullableJSONString: nil is written as NULL
abbrev marshal_nullable : Option Value → Option (Option String)
marshal_nullable none = some none
marshal_nullable (some none) = none
marshal_nullable (some (some text)) = some (some text)

-- The row that an INSERT of the message has.
unfoldable pub entry : String → Message → Option MessageRow
entry id m = do
  entities ← marshal_or "[]" m.content_entities
  forward ← marshal_nullable m.forward_info
  metadata ← marshal_or "{}" m.raw_metadata
  some (record {
    id = id;
    account_id = m.account_id;
    chat_id = m.chat_id;
    telegram_message_id = m.telegram_message_id;
    sender_telegram_id = m.sender_telegram_id;
    sender_chat_id = m.sender_chat_id;
    message_type = m.message_type;
    content = m.content;
    content_entities = entities;
    reply_to_message_id = m.reply_to_message_id;
    forward_info = forward;
    raw_metadata = metadata;
    sent_at = m.sent_at;
    edited_at = m.edited_at;
    deleted = false;
    deleted_at = none;
  })
