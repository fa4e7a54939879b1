-- ===== src/Examples/Cursors.antt =====
-- A codec for page cursors, and the cursors and pages of a small chat.
use telegram_gateway.Base.{
  ℕ, zero, suc, String, ◌≡◌, refl, ap, ◌∙◌, true, false, Option, none, some, List, [], ◌∷◌, ◌+◌,
  ◌==◌, arith, trim_space, trim_space_plain, has_no_space, is_space, is_empty, if◌then◌else◌,
}
use Prim.Native.Char.{code}
use mathlib.Core.List.{Perm}
use telegram_gateway.Base.Options.{option_map}
use telegram_gateway.Base.Handler.{go}
use telegram_gateway.Messages.Table.{MessageRow, MessagesDb, Cursor}
use telegram_gateway.Messages.Pages.{
  CursorPayload, ℤ, pos, negsuc, encode_cursor, decode_cursor, walk,
}
use telegram_gateway.Messages.Pages.Order.{NewestFirst}
use telegram_gateway.Messages.Pages.RoundTrip.{cursor_round_trip}
use telegram_gateway.Messages.Pages.Visible.{visible}
use telegram_gateway.Messages.Pages.Walk.{pages_list_chat}

abbrev marshal_values : ℕ → ℤ → ℕ → List ℕ
marshal_values v (pos t) m = v ∷ 0 ∷ t ∷ m ∷ []
marshal_values v (negsuc t) m = v ∷ 1 ∷ t ∷ m ∷ []

abbrev marshal : CursorPayload → List ℕ
marshal p = marshal_values p.version p.sent_at_unix_micro p.telegram_message_id

abbrev payload_of : ℕ → ℤ → ℕ → CursorPayload
payload_of v t m = record { version = v; sent_at_unix_micro = t; telegram_message_id = m }

abbrev unmarshal : List ℕ → Option CursorPayload
unmarshal (v ∷ zero ∷ t ∷ m ∷ []) = some (payload_of v (pos t) m)
unmarshal (v ∷ suc k ∷ t ∷ m ∷ []) = some (payload_of v (negsuc t) m)
unmarshal _ = none

marshalled_values :
    (v : ℕ) (t : ℤ) (m : ℕ) → unmarshal (marshal_values v t m) ≡ some (payload_of v t m)
marshalled_values v (pos t) m = refl
marshalled_values v (negsuc t) m = refl

marshalled : (p : CursorPayload) → unmarshal (marshal p) ≡ some p
marshalled p = marshalled_values p.version p.sent_at_unix_micro p.telegram_message_id

-- a number in unary
abbrev unary : ℕ → String → String
unary zero s = String.◌∷◌ "b" s
unary (suc n) s = String.◌∷◌ "a" (unary n s)

abbrev base64 : List ℕ → String
base64 [] = ""
base64 (n ∷ ns) = unary n (base64 ns)

abbrev count_units : String → ℕ → Option (List ℕ)
count_units String.[] n = some []
count_units (String.◌∷◌ c s) n =
    let next = count_units s 0 in
    let more = count_units s (suc n) in if code c == b'b' then option_map (◌∷◌ n) next else more

abbrev unbase64 : String → Option (List ℕ)
unbase64 s = count_units s 0

count_units-unary :
    (n k : ℕ) (s : String) → count_units (unary n s) k ≡ option_map (◌∷◌ (n + k)) (count_units s 0)
count_units-unary zero k s = ap (λ i. option_map (◌∷◌ i) (count_units s 0)) (omega arith)
count_units-unary (suc n) k s =
    count_units-unary n (suc k) s ∙ ap (λ i. option_map (◌∷◌ i) (count_units s 0)) (omega arith)

encoded : (b : List ℕ) → unbase64 (base64 b) ≡ some b
encoded [] = refl
encoded (n ∷ ns) =
    count_units-unary n 0 (base64 ns) ∙ rw (encoded ns) (ap (λ i. some (i ∷ ns)) (omega arith))

has_no_space-unary : (n : ℕ) (s : String) → has_no_space s ≡ true → has_no_space (unary n s) ≡ true
unfolding is_space
has_no_space-unary zero s h = h
has_no_space-unary (suc n) s h = has_no_space-unary n s h

has_no_space-base64 : (b : List ℕ) → has_no_space (base64 b) ≡ true
has_no_space-base64 [] = refl
has_no_space-base64 (n ∷ ns) = has_no_space-unary n (base64 ns) (has_no_space-base64 ns)

no_spaces : (b : List ℕ) → trim_space (base64 b) ≡ base64 b
no_spaces b = trim_space_plain (base64 b) (has_no_space-base64 b)

not_empty : (p : CursorPayload) → is_empty (base64 (marshal p)) ≡ false
not_empty p = full p.version p.sent_at_unix_micro p.telegram_message_id
  where
    unary_full : (n : ℕ) (s : String) → is_empty (unary n s) ≡ false
    unary_full zero s = refl
    unary_full (suc n) s = refl

    full : (v : ℕ) (t : ℤ) (m : ℕ) → is_empty (base64 (marshal_values v t m)) ≡ false
    full v (pos t) m = unary_full v _
    full v (negsuc t) m = unary_full v _

abbrev cursor : Cursor
cursor = record { sent_at = 62135596800000005; telegram_message_id = 7 }

cursor_round_trip_example :
    (text : String) × (encode_cursor marshal base64 cursor ≡ go text)
    × (is_empty text ≡ false)
    × (decode_cursor unmarshal unbase64 text ≡ go cursor)
cursor_round_trip_example =
    cursor_round_trip marshal unmarshal base64 unbase64 marshalled encoded no_spaces not_empty
      cursor (omega arith) (omega arith)

abbrev row : MessageRow
row = record {
  id = "r1";
  account_id = "a";
  chat_id = "c";
  telegram_message_id = 7;
  sender_telegram_id = none;
  sender_chat_id = none;
  message_type = "text";
  content = some "hello";
  content_entities = "[]";
  reply_to_message_id = none;
  forward_info = none;
  raw_metadata = "{}";
  sent_at = 62135596800000005;
  edited_at = none;
  deleted = false;
  deleted_at = none;
}

abbrev db : MessagesDb
db = record {
  messages =
      row
      ∷ record row { id = "r2"; telegram_message_id = 9; sent_at = 62135596800000008 }
      ∷ record row { id = "r3"; telegram_message_id = 8; sent_at = 62135596800000008 }
      ∷ [];
  tombstones = [];
  chats = record { id = "c"; account_id = "a"; telegram_chat_id = 3; deleted = false } ∷ [];
}

pages_list_chat_example :
    (all : List MessageRow) × (walk marshal base64 unmarshal unbase64 "a" "c" 2 4 none
        (record { db = db; faults = [] })
      ≡ (go all, record { db = db; faults = [] }))
    × Perm all (visible db "a" "c")
    × NewestFirst all
pages_list_chat_example =
    pages_list_chat marshal unmarshal base64 unbase64 marshalled encoded no_spaces not_empty db "a"
      "c" 2 ((refl, (refl, tt)), ((refl, tt), (tt, tt)))
      ((omega arith, omega arith), ((omega arith, omega arith), ((omega arith, omega arith), tt))) 4
      (omega arith)
