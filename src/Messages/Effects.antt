-- ===== src/Messages/Effects.antt =====
-- What each statement of the store does to the table (internal/messages/repository.go).
use telegram_gateway.Base.{
  ℕ, String, ◌≡◌, refl, sym, ◌∙◌, Bool, true, false, Option, none, some, ◌&&◌, ◌||◌, ◌==◌, inl, inr,
  arith, Bool-cases, text_eq, not, map, if◌then◌else◌,
}
use telegram_gateway.Base.Handler.Ends.{From, stop_if-From, expect-From, last_query-From}
use telegram_gateway.Base.Handler.{World, go, query, ◌>>=◌}
use telegram_gateway.Base.Handler.Inversion.{query-go}
use telegram_gateway.Base.Lookup.{update_where-map}
use telegram_gateway.Schema.{Time}
use telegram_gateway.Messages.Table.{
  Message, database_error, MessageRow, MessagesDb, has_key, entry, is_blank,
}
use telegram_gateway.Messages.Store.{
  deleted_row, apply_to, buried_row, buried_at, version_time, put, upsert, mark_deleted,
  apply_tombstones,
}

-- the columns that an edit changes
pub record Contents : Type 0 where
  pub message_type : String
  pub content : Option String
  pub content_entities : String
  pub forward_info : Option String
  pub raw_metadata : String

unfoldable pub contents : MessageRow → Contents
contents r = record {
  message_type = r.message_type;
  content = r.content;
  content_entities = r.content_entities;
  forward_info = r.forward_info;
  raw_metadata = r.raw_metadata;
}

-- The row `s` is `r`, deleted or not: a deleted row stays deleted.
pub record Marked (r s : MessageRow) : Type 0 where
  pub same_key :
      (account chat : String) (n : ℕ) → has_key account chat n s ≡ has_key account chat n r
  pub same_contents : contents s ≡ contents r
  pub same_version : version_time s ≡ version_time r
  pub same_sent : s.sent_at ≡ r.sent_at
  pub stays_deleted : r.deleted ≡ true → s.deleted ≡ true

Marked-refl : (r : MessageRow) → Marked r r
Marked-refl r = record {
  same_key = λ account chat n. refl;
  same_contents = refl;
  same_version = refl;
  same_sent = refl;
  stays_deleted = λ h. h;
}

-- What a deletion may do to the database.
pub data Hides (db : MessagesDb) : MessagesDb → Type 0 where
  unchanged : Hides db db
  marked :
      (g : MessageRow → MessageRow)
      → ((r : MessageRow) → Marked r (g r))
      → Hides db (record db { messages = map g db.messages })

-- What an upsert may do to the database.
pub data Stores (db : MessagesDb) : MessagesDb → Type 0 where
  nothing : Stores db db
  stored : (new : MessageRow) → new.deleted ≡ false → Stores db (put new db).1

deleted_row-Marked :
    (p : MessageRow → Bool) (t : Time) (r : MessageRow)
    → Marked r (if p r then deleted_row t r else r)
unfolding contents
deleted_row-Marked p t r = elim (Bool-cases (p r)) [
  | inl e ↦ rw e (record {
    same_key = λ account chat n. refl;
    same_contents = refl;
    same_version = refl;
    same_sent = refl;
    stays_deleted = λ h. refl;
  })
  | inr e ↦ rw e (Marked-refl r)
]

buried_row-Marked : (o : Option Time) (r : MessageRow) → Marked r (buried_row o r)
unfolding contents
buried_row-Marked none r = Marked-refl r
buried_row-Marked (some t) r = record {
  same_key = λ account chat n. refl;
  same_contents = refl;
  same_version = refl;
  same_sent = refl;
  stays_deleted = λ h. refl;
}

apply_to-Marked :
    (account chat : String) (db : MessagesDb) (r : MessageRow)
    → Marked r (apply_to account chat db r)
apply_to-Marked account chat db r =
    elim (Bool-cases (text_eq r.account_id account && (text_eq r.chat_id chat && not r.deleted))) [
      | inl e ↦ rw e (buried_row-Marked (buried_at db.tombstones db.chats r) r)
      | inr e ↦ rw e (Marked-refl r)
    ]

entry-new :
    (id : String) (m : Message) (new : MessageRow) → entry id m ≡ some new → new.deleted ≡ false
unfolding entry
entry-new id m new h = ground arith

pub mark_deleted-Hides :
    (now : Time) (account chat : String) (n : ℕ) (t : Time) (d : MessagesDb)
    → From (Hides d) d (mark_deleted now account chat n t)
unfolding mark_deleted
mark_deleted-Hides now account chat n t d = stop_if-From (Hides d) _ _ _ d unchanged λ _.
    stop_if-From (Hides d) _ _ _ d unchanged λ _. last_query-From (Hides d) _ _ d unchanged (
      rw
        (update_where-map (has_key account chat n) (deleted_row (if t == 0 then now else t))
          d.messages)
        (marked _ (deleted_row-Marked (has_key account chat n) (if t == 0 then now else t))))

pub apply_tombstones-Hides :
    (account chat : String) (d : MessagesDb) → From (Hides d) d (apply_tombstones account chat)
unfolding apply_tombstones
apply_tombstones-Hides account chat d =
    last_query-From (Hides d) _ _ d unchanged
      (marked (apply_to account chat d) (apply_to-Marked account chat d))

pub upsert-Stores : (id : String) (m : Message) (d : MessagesDb) → From (Stores d) d (upsert id m)
unfolding upsert
upsert-Stores id m d = stop_if-From (Stores d) _ _ _ d nothing λ _.
    stop_if-From (Stores d) _ _ _ d nothing λ _. stop_if-From (Stores d) _ _ _ d nothing λ _.
      stop_if-From (Stores d) _ _ _ d nothing λ _.
        expect-From (Stores d) _ _ _ d nothing
          λ new e. last_query-From (Stores d) _ _ d nothing (stored new (entry-new id m new e))

-- An upsert that goes on past its checks is the statement.
upsert_passed :
    (id : String) (m : Message) (new : MessageRow) (i : String) (w u : World MessagesDb)
    → upsert id m w ≡ (go i, u)
    → entry id m ≡ some new
    → upsert id m w ≡ query database_error (put new) w
unfolding upsert ◌>>=◌
upsert_passed id m new i w u h e = elim (Bool-cases (is_blank m.account_id || is_blank m.chat_id)) [
  | inl a ↦ absurd (ground arith)
  | inr a ↦ elim (Bool-cases (m.telegram_message_id == 0)) [
    | inl b ↦ absurd (ground arith)
    | inr b ↦ elim (Bool-cases (is_blank m.message_type)) [
      | inl c ↦ absurd (ground arith)
      | inr c ↦ elim (Bool-cases (m.sent_at == 0)) [
        | inl d ↦ absurd (ground arith)
        | inr d ↦ rw a (rw b (rw c (rw d (rw e refl))))
      ]
    ]
  ]
]

pub upsert-put :
    (id : String) (m : Message) (new : MessageRow) (i : String) (w u : World MessagesDb)
    → upsert id m w ≡ (go i, u)
    → entry id m ≡ some new
    → u.db ≡ (put new w.db).1
upsert-put id m new i w u h e =
    (query-go database_error (put new) i w u (sym (upsert_passed id m new i w u h e) ∙ h)).1
