-- ===== src/Examples/Messages.antt =====
-- Messages at concrete inputs.
use telegram_gateway.Base.{
  ℕ, String, ◌≡◌, ◌≤◌, refl, sym, ◌∙◌, true, false, Option, none, some, List, [], ◌∷◌, arith, ap,
  Memᴰ, All, find_row, any_row, trim_space,
}
use telegram_gateway.Base.Keyed.{change}
use telegram_gateway.Base.Handler.{World, go, ◌>>=◌}
use telegram_gateway.Messages.Table.{Message, MessageRow, MessagesDb, Cursor, has_key, entry}
use telegram_gateway.Messages.Store.{upsert, put, merge, mark_deleted, version_time}
use telegram_gateway.Messages.Reads.{list_active_by_chat, list_active_by_ids}
use telegram_gateway.Messages.Effects.{contents}
use telegram_gateway.Messages.Newest.{
  Deliveries, none_yet, delivered, newest_version_wins, delivery_order_irrelevant, SameVersion,
}
use telegram_gateway.Messages.Unique.{Unique, Writes-keep-Unique}
use telegram_gateway.Messages.Writes.{no_writes, then_upsert}
use telegram_gateway.Messages.Hidden.{deleted_never_read}
use telegram_gateway.Messages.Pages.{CursorPayload, Page, list_active_page}
use telegram_gateway.Messages.Search.{escape_like}
use telegram_gateway.Messages.Search.Escape.{literal, literal-escape_like}

literal-escape_like_example : literal (escape_like "50%_a") ≡ some "50%_a"
literal-escape_like_example = literal-escape_like "50%_a"

abbrev first : Message
first = record {
  account_id = "a";
  chat_id = "c";
  telegram_message_id = 7;
  sender_telegram_id = none;
  sender_chat_id = none;
  message_type = "text";
  content = some "hello";
  content_entities = none;
  reply_to_message_id = none;
  forward_info = none;
  raw_metadata = none;
  sent_at = 5;
  edited_at = none;
}

abbrev edited : Message
edited = record first { content = some "bye"; edited_at = some 9 }

abbrev row₁ : MessageRow
row₁ = record {
  id = "r1";
  account_id = "a";
  chat_id = "c";
  telegram_message_id = 7;
  sender_telegram_id = none;
  sender_chat_id = none;
  message_type = "text";
  content = some "hello";
  content_entities = "[]";
  reply_to_message_id = none;
  forward_info = none;
  raw_metadata = "{}";
  sent_at = 5;
  edited_at = none;
  deleted = false;
  deleted_at = none;
}

abbrev row₂ : MessageRow
row₂ = record row₁ { id = "r2"; content = some "bye"; edited_at = some 9 }

entry₁ : entry "r1" first ≡ some row₁
unfolding entry
entry₁ = refl

entry₂ : entry "r2" edited ≡ some row₂
unfolding entry
entry₂ = refl

abbrev row₃ : MessageRow
row₃ = record row₂ { id = "s1" }

abbrev row₄ : MessageRow
row₄ = record row₁ { id = "s2" }

entry₃ : entry "s1" edited ≡ some row₃
unfolding entry
entry₃ = refl

entry₄ : entry "s2" first ≡ some row₄
unfolding entry
entry₄ = refl

abbrev empty : World MessagesDb
empty = record { db = record { messages = []; tombstones = []; chats = [] }; faults = [] }

after_first : World MessagesDb
after_first = (upsert "r1" first empty).1

after_both : World MessagesDb
after_both = (upsert "r2" edited after_first).1

edited_first : World MessagesDb
edited_first = (upsert "s1" edited empty).1

both_late : World MessagesDb
both_late = (upsert "s2" first edited_first).1

run₁ : upsert "r1" first empty ≡ (go "r1", after_first)
unfolding upsert entry put merge change trim_space after_first ◌>>=◌
run₁ = refl

run₂ : upsert "r2" edited after_first ≡ (go "r1", after_both)
unfolding upsert entry put merge change trim_space after_first after_both ◌>>=◌
run₂ = refl

run₃ : upsert "s1" edited empty ≡ (go "s1", edited_first)
unfolding upsert entry put merge change trim_space edited_first ◌>>=◌
run₃ = refl

run₄ : upsert "s2" first edited_first ≡ (go "s1", both_late)
unfolding upsert entry put merge change trim_space edited_first both_late ◌>>=◌
run₄ = refl

in_order : Deliveries "a" "c" 7 (row₂ ∷ row₁ ∷ []) after_both.db
in_order =
    delivered (row₁ ∷ []) after_first after_both "r2" edited "r1" row₂
      (delivered [] empty after_first "r1" first "r1" row₁ (none_yet empty.db refl) entry₁ refl refl
        refl run₁)
      entry₂ refl refl refl run₂

reversed : Deliveries "a" "c" 7 (row₄ ∷ row₃ ∷ []) both_late.db
reversed =
    delivered (row₃ ∷ []) edited_first both_late "s2" first "s1" row₄
      (delivered [] empty edited_first "s1" edited "s1" row₃ (none_yet empty.db refl) entry₃ refl
        refl refl run₃)
      entry₄ refl refl refl run₄

newest_version_wins_example :
    (r : MessageRow) × (from : MessageRow) × (find_row (has_key "a" "c" 7) after_both.db.messages
      ≡ some r)
    × Memᴰ from (row₂ ∷ row₁ ∷ [])
    × (contents r ≡ contents from)
    × (version_time r ≡ version_time from)
    × All (λ u. version_time u ≤ version_time r) (row₂ ∷ row₁ ∷ [])
newest_version_wins_example =
    newest_version_wins "a" "c" 7 5 row₂ (row₁ ∷ []) after_both.db in_order
      ((refl, refl), ((refl, refl), tt))

same_contents : (contents row₂ ≡ contents row₃) × (contents row₁ ≡ contents row₄)
unfolding contents
same_contents = (refl, refl)

to_other :
    (u : MessageRow)
    → Memᴰ u (row₂ ∷ row₁ ∷ [])
    → (v : MessageRow) × Memᴰ v (row₄ ∷ row₃ ∷ []) × SameVersion u v
to_other u (Memᴰ.head e) =
    (row₃, Memᴰ.tail (Memᴰ.head refl), (ap contents e ∙ same_contents.0, ap version_time e))
to_other u (Memᴰ.tail (Memᴰ.head e)) =
    (row₄, Memᴰ.head refl, (ap contents e ∙ same_contents.1, ap version_time e))
to_other u (Memᴰ.tail (Memᴰ.tail m)) = elim m [ ]

from_other :
    (u : MessageRow)
    → Memᴰ u (row₄ ∷ row₃ ∷ [])
    → (v : MessageRow) × Memᴰ v (row₂ ∷ row₁ ∷ []) × SameVersion u v
from_other u (Memᴰ.head e) =
    (row₁, Memᴰ.tail (Memᴰ.head refl), (ap contents e ∙ sym same_contents.1, ap version_time e))
from_other u (Memᴰ.tail (Memᴰ.head e)) =
    (row₂, Memᴰ.head refl, (ap contents e ∙ sym same_contents.0, ap version_time e))
from_other u (Memᴰ.tail (Memᴰ.tail m)) = elim m [ ]

distinct :
    (u t : MessageRow)
    → Memᴰ u (row₂ ∷ row₁ ∷ [])
    → Memᴰ t (row₂ ∷ row₁ ∷ [])
    → version_time u ≡ version_time t
    → contents u ≡ contents t
unfolding contents
distinct u t (Memᴰ.head d) (Memᴰ.head e) h = rw d (rw e refl)
distinct u t (Memᴰ.tail (Memᴰ.head d)) (Memᴰ.tail (Memᴰ.head e)) h = rw d (rw e refl)
distinct u t (Memᴰ.head d) (Memᴰ.tail (Memᴰ.head e)) h =
    absurd (ground (arith, ap version_time d, ap version_time e))
distinct u t (Memᴰ.tail (Memᴰ.head d)) (Memᴰ.head e) h =
    absurd (ground (arith, ap version_time d, ap version_time e))
distinct u t (Memᴰ.tail (Memᴰ.tail m)) k h = elim m [ ]
distinct u t (Memᴰ.head d) (Memᴰ.tail (Memᴰ.tail m)) h = elim m [ ]
distinct u t (Memᴰ.tail (Memᴰ.head d)) (Memᴰ.tail (Memᴰ.tail m)) h = elim m [ ]

delivery_order_irrelevant_example :
    (r₁ : MessageRow) × (r₂ : MessageRow) × (find_row (has_key "a" "c" 7) after_both.db.messages
      ≡ some r₁)
    × (find_row (has_key "a" "c" 7) both_late.db.messages ≡ some r₂)
    × (contents r₁ ≡ contents r₂)
    × (version_time r₁ ≡ version_time r₂)
delivery_order_irrelevant_example =
    delivery_order_irrelevant "a" "c" 7 5 row₂ row₄ (row₁ ∷ []) (row₃ ∷ []) after_both.db
      both_late.db in_order reversed ((refl, refl), ((refl, refl), tt))
      ((refl, refl), ((refl, refl), tt)) to_other from_other distinct

Writes-keep-Unique_example : Unique (upsert "r2" edited (upsert "r1" first empty).1).1.db.messages
Writes-keep-Unique_example =
    Writes-keep-Unique empty (upsert "r2" edited (upsert "r1" first empty).1).1
      (then_upsert (upsert "r1" first empty).1 "r2" edited (then_upsert empty "r1" first no_writes))
      tt

after_deletion : World MessagesDb
after_deletion = (mark_deleted 20 "a" "c" 7 0 after_first).1

deleted_once : mark_deleted 20 "a" "c" 7 0 after_first ≡ (go tt, after_deletion)
unfolding upsert entry put merge change trim_space mark_deleted after_first after_deletion ◌>>=◌
deleted_once = refl

was_there : any_row (has_key "a" "c" 7) after_first.db.messages ≡ true
unfolding upsert entry put merge change trim_space after_first ◌>>=◌
was_there = refl

abbrev edited_later : World MessagesDb
edited_later = (upsert "r2" edited after_deletion).1

deleted_never_read_example :
    ((a c : String) (cursor : Option Cursor) (limit : ℕ) (rows : List MessageRow)
        (v' : World MessagesDb)
      → list_active_by_chat a c cursor limit edited_later ≡ (go rows, v')
      → All (λ r. has_key "a" "c" 7 r ≡ false) rows)
    × ((a : String) (ids : List String) (rows : List MessageRow) (v' : World MessagesDb)
        → list_active_by_ids a ids edited_later ≡ (go rows, v')
        → All (λ r. has_key "a" "c" 7 r ≡ false) rows)
    × ((marshal : CursorPayload → List ℕ) (base64 : List ℕ → String) (a c : String)
          (cursor : Option Cursor) (limit : ℕ) (page : Page) (v' : World MessagesDb)
        → list_active_page marshal base64 a c cursor limit edited_later ≡ (go page, v')
        → All (λ r. has_key "a" "c" 7 r ≡ false) page.items)
deleted_never_read_example =
    deleted_never_read 20 "a" "c" 7 0 after_first after_deletion edited_later deleted_once was_there
      (then_upsert after_deletion "r2" edited no_writes)
