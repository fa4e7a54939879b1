-- ===== src/Messages/Pages/RoundTrip.antt =====
-- Cursors written and read back (internal/messages/pagination.go).
use telegram_gateway.Base.{
  ℕ, String, ◌≡◌, refl, true, false, ◌==◌, leb, Option, some, List, ◌+◌, ◌-◌, ◌<◌, arith,
  trim_space, is_empty,
}
use telegram_gateway.Base.Handler.{go}
use telegram_gateway.Messages.Table.{Cursor}
use telegram_gateway.Messages.Pages.{
  CursorPayload, unix_epoch, unix_micro, encode_cursor, decode_cursor, checked,
}

-- Reading back the time of a cursor.
checked-micro :
    (c : Cursor)
    → unix_epoch < c.sent_at
    → 0 < c.telegram_message_id
    → checked 1 (unix_micro c.sent_at) c.telegram_message_id ≡ go c
unfolding unix_micro
checked-micro c t m =
    let later : leb unix_epoch c.sent_at ≡ true = ground arith in
    let stamp : unix_epoch + (c.sent_at - unix_epoch) ≡ c.sent_at = omega arith in
    let positive : (c.sent_at - unix_epoch == 0) ≡ false = ground arith in
    let numbered : (c.telegram_message_id == 0) ≡ false = ground arith in
    rw later (rw positive (rw numbered (rw stamp refl)))

module _ (marshal : CursorPayload → List ℕ) (unmarshal : List ℕ → Option CursorPayload)
    (base64 : List ℕ → String) (unbase64 : String → Option (List ℕ))
    (marshalled : (p : CursorPayload) → unmarshal (marshal p) ≡ some p)
    (encoded : (b : List ℕ) → unbase64 (base64 b) ≡ some b)
    (no_spaces : (b : List ℕ) → trim_space (base64 b) ≡ base64 b)
    (not_empty : (p : CursorPayload) → is_empty (base64 (marshal p)) ≡ false) where
  -- A cursor of a message that has an id and was sent after 1970-01-01 is read back as it was:
  -- EncodeCursor accepts it, its text is not empty, and DecodeCursor returns the same time and message
  -- id. encoding/json and encoding/base64 are any codecs that read back what they write, in a text
  -- that is not empty and has no spaces.
  pub cursor_round_trip :
      (c : Cursor)
      → unix_epoch < c.sent_at
      → 0 < c.telegram_message_id
      → (text : String) × (encode_cursor marshal base64 c ≡ go text)
        × (is_empty text ≡ false)
        × (decode_cursor unmarshal unbase64 text ≡ go c)
  unfolding encode_cursor decode_cursor unix_micro
  cursor_round_trip c t m =
      let p : CursorPayload = record {
        version = 1;
        sent_at_unix_micro = unix_micro c.sent_at;
        telegram_message_id = c.telegram_message_id;
      } in
      (
        base64 (marshal p),
        ground arith,
        not_empty p,
        rw (no_spaces (marshal p))
            (rw (not_empty p) (rw (encoded (marshal p)) (rw (marshalled p) (checked-micro c t m)))),
      )
