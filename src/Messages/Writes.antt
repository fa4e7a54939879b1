-- ===== src/Messages/Writes.antt =====
-- Sequences of writes (internal/messages/repository.go).
use telegram_gateway.Base.{ℕ, String, refl, List}
use telegram_gateway.Base.Handler.{World}
use telegram_gateway.Schema.{Time}
use telegram_gateway.Messages.Table.{Message, MessageRow, MessagesDb}
use telegram_gateway.Messages.Store.{upsert, mark_deleted, apply_tombstones}
use telegram_gateway.Messages.Effects.{
  Hides, Stores, upsert-Stores, mark_deleted-Hides, apply_tombstones-Hides,
}

-- Writes of the store one after the other, failed ones too.
pub data Writes (w : World MessagesDb) : World MessagesDb → Type 0 where
  no_writes : Writes w w
  then_upsert :
      (u : World MessagesDb) (id : String) (m : Message) → Writes w u → Writes w (upsert id m u).1
  then_mark_deleted :
      (u : World MessagesDb) (now : Time) (a c : String) (k : ℕ) (t : Time)
      → Writes w u
      → Writes w (mark_deleted now a c k t u).1
  then_apply_tombstones :
      (u : World MessagesDb) (a c : String) → Writes w u → Writes w (apply_tombstones a c u).1

-- A property of the table that every write keeps.
pub Writes_keep :
    (P : List MessageRow → Type 0)
    → ((d e : MessagesDb) → Stores d e → P d.messages → P e.messages)
    → ((d e : MessagesDb) → Hides d e → P d.messages → P e.messages)
    → (w u : World MessagesDb) → Writes w u
    → P w.db.messages
    → P u.db.messages
Writes_keep P stores hides w u no_writes p = p
Writes_keep P stores hides w u (then_upsert v id m s) p =
    stores v.db _ (upsert-Stores id m v.db v refl) (Writes_keep P stores hides w v s p)
Writes_keep P stores hides w u (then_mark_deleted v now a c k t s) p =
    hides v.db _ (mark_deleted-Hides now a c k t v.db v refl) (Writes_keep P stores hides w v s p)
Writes_keep P stores hides w u (then_apply_tombstones v a c s) p =
    hides v.db _ (apply_tombstones-Hides a c v.db v refl) (Writes_keep P stores hides w v s p)
