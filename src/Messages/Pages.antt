-- ===== src/Messages/Pages.antt =====
-- internal/messages/pagination.go: page cursors and pages. encoding/json and encoding/base64 are the
-- parameters `marshal`, `unmarshal`, `base64` and `unbase64`; bytes are naturals.
pub mod Order
pub mod RoundTrip
pub mod Visible
pub mod Walk
use telegram_gateway.Base.{
  ℕ, zero, suc, String, Bool, true, false, Option, none, some, List, [], ◌∷◌, ◌++◌, ◌+◌, ◌-◌, ◌&&◌,
  ◌||◌, ◌==◌, not, leb, is_empty, trim_space, if◌then◌else◌, length, take,
}
use telegram_gateway.Base.Slices.{last}
use telegram_gateway.Base.Handler.{
  Outcome, reply, go, Handler, ◌>>=◌, query, pure, respond, stop_if,
}
use telegram_gateway.Schema.{Time}
use telegram_gateway.Messages.Table.{
  MessageRow, MessagesDb, MessageError, Cursor, incomplete_cursor, empty_cursor, bad_encoding,
  bad_payload, bad_values, out_of_range, database_error, out_of_fuel,
}
use telegram_gateway.Messages.Reads.{
  read, select_active, in_chat, after, cursor_of, normalize_limit,
}

-- an int64
pub data ℤ : Type 0 where
  pos : ℕ → ℤ
  negsuc : ℕ → ℤ

-- 1970-01-01 in microseconds since Go's zero time
abbrev pub unix_epoch : Time
unix_epoch = 62135596800000000

-- Time.UnixMicro
unfoldable pub unix_micro : Time → ℤ
unix_micro t = if leb unix_epoch t then pos (t - unix_epoch) else negsuc (unix_epoch - t - 1)

-- cursorPayload
pub record CursorPayload : Type 0 where
  pub version : ℕ
  pub sent_at_unix_micro : ℤ
  pub telegram_message_id : ℕ

pub record Page : Type 0 where
  pub items : List MessageRow
  pub next_cursor : String

abbrev pub checked : ℕ → ℤ → ℕ → Outcome MessageError Cursor
checked v (negsuc t) m = reply bad_values
checked v (pos t) m =
    if not (v == 1) || (t == 0 || m == 0)
    then reply bad_values
    else go (record { sent_at = unix_epoch + t; telegram_message_id = m })

module _ (unmarshal : List ℕ → Option CursorPayload) (unbase64 : String → Option (List ℕ)) where
  abbrev decode_payload : Option CursorPayload → Outcome MessageError Cursor
  decode_payload none = reply bad_payload
  decode_payload (some p) = checked p.version p.sent_at_unix_micro p.telegram_message_id

  abbrev decode_bytes : Option (List ℕ) → Outcome MessageError Cursor
  decode_bytes none = reply bad_encoding
  decode_bytes (some bytes) = decode_payload (unmarshal bytes)

  unfoldable pub decode_cursor : String → Outcome MessageError Cursor
  decode_cursor value =
      let v = trim_space value in
      if is_empty v then reply empty_cursor else decode_bytes (unbase64 v)

abbrev pub answer : {A : Type 0} → Outcome MessageError A → Handler MessageError MessagesDb A
answer {A} (go a) = pure a
answer {A} (reply e) = respond e

module _ (marshal : CursorPayload → List ℕ) (base64 : List ℕ → String) where
  unfoldable pub encode_cursor : Cursor → Outcome MessageError String
  encode_cursor c =
      if c.sent_at == 0 || c.telegram_message_id == 0
      then reply incomplete_cursor
      else go (
          base64 (
            marshal (record {
              version = 1;
              sent_at_unix_micro = unix_micro c.sent_at;
              telegram_message_id = c.telegram_message_id;
            })))

  -- the next cursor, of the last row that the page keeps
  abbrev pub with_next : List MessageRow → Outcome MessageError String → Outcome MessageError Page
  with_next items (go next) = go (record { items = items; next_cursor = next })
  with_next items (reply e) = reply e

  abbrev pub page_to : List MessageRow → Option MessageRow → Outcome MessageError Page
  page_to items none = reply out_of_range
  page_to items (some r) = with_next items (encode_cursor (cursor_of r))

  -- the page of the `limit + 1` rows that the query may return
  unfoldable pub page_of : ℕ → List MessageRow → Outcome MessageError Page
  page_of limit items =
      if leb (length items) limit
      then go (record { items = items; next_cursor = "" })
      else page_to (take limit items) (last (take limit items))

  unfoldable pub list_active_page :
      String → String → Option Cursor → ℕ → Handler MessageError MessagesDb Page
  list_active_page account chat cursor limit =
      read
        (select_active (λ r. in_chat account chat r && after cursor r) (normalize_limit limit + 1))
      >>= λ items. answer (page_of (normalize_limit limit) items)

module _ (marshal : CursorPayload → List ℕ) (base64 : List ℕ → String)
    (unmarshal : List ℕ → Option CursorPayload) (unbase64 : String → Option (List ℕ)) where
  -- A reader that follows next_cursor until it is empty, for at most `fuel` pages.
  unfoldable pub walk :
      String → String → ℕ → ℕ → Option Cursor → Handler MessageError MessagesDb (List MessageRow)
  walk account chat limit zero cursor = respond out_of_fuel
  walk account chat limit (suc fuel) cursor =
      list_active_page marshal base64 account chat cursor limit >>= λ page.
      elim (is_empty page.next_cursor) [
        | true ↦ pure page.items
        | false ↦ answer (decode_cursor unmarshal unbase64 page.next_cursor) >>= λ next.
            walk account chat limit fuel (some next) >>= λ rest. pure (page.items ++ rest)
      ]
