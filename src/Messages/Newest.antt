-- ===== src/Messages/Newest.antt =====
-- Deliveries of one message in any order (internal/messages/repository.go, Upsert).
use telegram_gateway.Base.{
  ℕ, String, ◌≡◌, refl, sym, ap, ◌∙◌, Bool, true, false, Option, none, some, inl, inr, List, [],
  ◌∷◌, ◌≤◌, max, arith, All, All_mem, Memᴰ, Bool-cases, Option-cases, find_row, leb,
}
use telegram_gateway.Base.Handler.{World, go}
use telegram_gateway.Base.Lookup.{find_row-map}
use telegram_gateway.Base.Slices.{All-imp}
use telegram_gateway.Base.Options.{option_map}
use telegram_gateway.Schema.{Time}
use telegram_gateway.Messages.Effects.{
  contents, Marked, Hides, unchanged, marked, upsert-put, mark_deleted-Hides,
  apply_tombstones-Hides,
}
use telegram_gateway.Messages.Keys.{find_row-put, find_row-put_other, put_row}
use telegram_gateway.Messages.Table.{Message, MessageRow, MessagesDb, has_key, entry}
use telegram_gateway.Messages.Store.{merge, version_time, upsert, mark_deleted, apply_tombstones}

-- An edit is not before the message was sent.
abbrev pub is_timely : MessageRow → Bool
is_timely r = leb r.sent_at (version_time r)

-- What is stored after deliveries of versions of one message: all were sent at the same time, the
-- contents are those of a delivered version, and no version is newer.
pub record Newest (versions : List MessageRow) (r : MessageRow) : Type 0 where
  pub from : MessageRow
  pub delivered : Memᴰ from versions
  pub same_contents : contents r ≡ contents from
  pub same_time : version_time r ≡ version_time from
  pub timely : is_timely r ≡ true
  pub none_newer : All (λ v. version_time v ≤ version_time r) versions
  pub sent_together : All (λ v. v.sent_at ≡ r.sent_at) versions

merge_time :
    (new r : MessageRow)
    → new.sent_at ≡ r.sent_at
    → is_timely new ≡ true
    → is_timely r ≡ true
    → version_time (merge new r) ≡ max (version_time new) (version_time r)
unfolding merge
merge_time new r s n t = elim (Option-cases new.edited_at) [
  | inl a ↦ elim (Option-cases r.edited_at) [ inl b ↦ ground arith | inr (e, b) ↦ ground arith ]
  | inr (d, a) ↦ elim (Option-cases r.edited_at) [
    | inl b ↦ ground arith
    | inr (e, b) ↦ ground arith
  ]
]

merge-Newest :
    (vs : List MessageRow) (new r : MessageRow)
    → Newest vs r
    → new.sent_at ≡ r.sent_at
    → is_timely new ≡ true
    → Newest (new ∷ vs) (merge new r)
unfolding merge contents
merge-Newest vs new r n s t =
    let time : version_time (merge new r) ≡ max (version_time new) (version_time r) =
      merge_time new r s t n.timely in
    let no_newer : All (λ v. version_time v ≤ version_time (merge new r)) (new ∷ vs) =
      (omega (arith, time), All-imp _ _ vs (λ v k. omega (arith, time)) n.none_newer) in
    let together : All (λ v. v.sent_at ≡ (merge new r).sent_at) (new ∷ vs) =
      (refl, All-imp _ _ vs (λ v k. k ∙ sym s) n.sent_together) in
    let timely : is_timely (merge new r) ≡ true = ground (arith, time) in
    elim (Bool-cases (leb (version_time r) (version_time new))) [
      | inl newer ↦ record {
        from = new;
        delivered = Memᴰ.head refl;
        same_contents = rw newer refl;
        same_time = time ∙ ground arith;
        timely = timely;
        none_newer = no_newer;
        sent_together = together;
      }
      | inr older ↦ record {
        from = n.from;
        delivered = Memᴰ.tail n.delivered;
        same_contents = rw older n.same_contents;
        same_time = time ∙ ground arith;
        timely = timely;
        none_newer = no_newer;
        sent_together = together;
      }
    ]

first-Newest : (new : MessageRow) → is_timely new ≡ true → Newest (new ∷ []) new
unfolding contents
first-Newest new t = record {
  from = new;
  delivered = Memᴰ.head refl;
  same_contents = refl;
  same_time = refl;
  timely = t;
  none_newer = (omega arith, tt);
  sent_together = (refl, tt);
}

Marked-Newest : (vs : List MessageRow) (r s : MessageRow) → Marked r s → Newest vs r → Newest vs s
Marked-Newest vs r s m n = record {
  from = n.from;
  delivered = n.delivered;
  same_contents = m.same_contents ∙ n.same_contents;
  same_time = m.same_version ∙ n.same_time;
  timely =
      ap (λ t. leb s.sent_at t) m.same_version
      ∙ ap (λ t. leb t (version_time r)) m.same_sent
      ∙ n.timely;
  none_newer = All-imp _ _ vs (λ v k. omega (arith, m.same_version)) n.none_newer;
  sent_together = All-imp _ _ vs (λ v k. k ∙ sym m.same_sent) n.sent_together;
}

-- The versions of one message that upserts have stored, latest first, in a database where other
-- messages are stored and messages are deleted at the same time.
pub data Deliveries (account chat : String) (n : ℕ) : List MessageRow → MessagesDb → Type 0 where
  none_yet :
      (db : MessagesDb)
      → find_row (has_key account chat n) db.messages ≡ none
      → Deliveries account chat n [] db
  delivered :
      (vs : List MessageRow) (w u : World MessagesDb) (id : String) (m : Message) (i : String)
      (new : MessageRow)
      → Deliveries account chat n vs w.db
      → entry id m ≡ some new
      → new.account_id ≡ account
      → new.chat_id ≡ chat
      → new.telegram_message_id ≡ n
      → upsert id m w ≡ (go i, u)
      → Deliveries account chat n (new ∷ vs) u.db
  other_delivered :
      (vs : List MessageRow) (w u : World MessagesDb) (id : String) (m : Message) (i : String)
      (new : MessageRow)
      → Deliveries account chat n vs w.db
      → entry id m ≡ some new
      → has_key account chat n new ≡ false
      → upsert id m w ≡ (go i, u)
      → Deliveries account chat n vs u.db
  deleted_one :
      (vs : List MessageRow) (w : World MessagesDb) (now : Time) (a c : String) (k : ℕ) (t : Time)
      → Deliveries account chat n vs w.db
      → Deliveries account chat n vs (mark_deleted now a c k t w).1.db
  buried_some :
      (vs : List MessageRow) (w : World MessagesDb) (a c : String)
      → Deliveries account chat n vs w.db
      → Deliveries account chat n vs (apply_tombstones a c w).1.db

-- Versions of one message: sent at one time, edited later or not at all.
abbrev pub Versions : Time → List MessageRow → Type 0
Versions s vs = All (λ v. (v.sent_at ≡ s) × (is_timely v ≡ true)) vs

-- The row that the deliveries left.
abbrev Kept : List MessageRow → Option MessageRow → Type 0
Kept [] o = o ≡ none
Kept (v ∷ vs) o = (r : MessageRow) × (o ≡ some r) × Newest (v ∷ vs) r

put_row-Kept :
    (s : Time) (new : MessageRow) (vs : List MessageRow) (o : Option MessageRow)
    → Versions s (new ∷ vs)
    → Kept vs o
    → Kept (new ∷ vs) (some (put_row new o))
put_row-Kept s new [] o c k = rw k (new, refl, first-Newest new c.0.1)
put_row-Kept s new (v ∷ vs) o c (r, e, n) = rw e (
  merge new r,
  refl,
  merge-Newest (v ∷ vs) new r n (c.0.0 ∙ sym c.1.0.0 ∙ n.sent_together.0) c.0.1,
)

Hides-Kept :
    (account chat : String) (n : ℕ) (vs : List MessageRow) (d e : MessagesDb)
    → Hides d e
    → Kept vs (find_row (has_key account chat n) d.messages)
    → Kept vs (find_row (has_key account chat n) e.messages)
Hides-Kept account chat n vs d e unchanged k = k
Hides-Kept account chat n vs d e (marked g same) k =
    rw (find_row-map (has_key account chat n) g d.messages (λ r. (same r).same_key account chat n))
      (at vs _ k)
  where
    at : (vs : List MessageRow) (o : Option MessageRow) → Kept vs o → Kept vs (option_map g o)
    at [] o k = rw k refl
    at (v ∷ vs) o (r, e, n) = rw e (g r, refl, Marked-Newest (v ∷ vs) r (g r) (same r) n)

Deliveries-Kept :
    (account chat : String) (n : ℕ) (s : Time) (vs : List MessageRow) (db : MessagesDb)
    → Deliveries account chat n vs db
    → Versions s vs
    → Kept vs (find_row (has_key account chat n) db.messages)
Deliveries-Kept account chat n s vs db (none_yet _ e) c = e
Deliveries-Kept account chat n s vs db (delivered vs₀ w u id m i new d e a h k run) c =
    rw (upsert-put id m new i w u run e) (
      rw (sym a) (
        rw (sym h) (
          rw (sym k) (
            rw (find_row-put new w.db) (
              put_row-Kept s new vs₀ _ c
                (rw a (rw h (rw k (Deliveries-Kept account chat n s vs₀ w.db d c.1)))))))))
Deliveries-Kept account chat n s vs db (other_delivered _ w u id m i new d e other run) c =
    rw (upsert-put id m new i w u run e) (
      rw (find_row-put_other account chat n new w.db other)
        (Deliveries-Kept account chat n s vs w.db d c))
Deliveries-Kept account chat n s vs db (deleted_one _ w now a h k t d) c =
    Hides-Kept account chat n vs w.db _ (mark_deleted-Hides now a h k t w.db w refl)
      (Deliveries-Kept account chat n s vs w.db d c)
Deliveries-Kept account chat n s vs db (buried_some _ w a h d) c =
    Hides-Kept account chat n vs w.db _ (apply_tombstones-Hides a h w.db w refl)
      (Deliveries-Kept account chat n s vs w.db d c)

-- However upserts of versions of one message, of other messages and deletions are mixed: when the
-- versions were sent at one time and edited no earlier, the stored row has the contents (type, text,
-- entities, forward information and metadata) of a delivered version, its time (of the edit, or of
-- the sending) is that version's, and no delivered version has a later one.
pub newest_version_wins :
    (account chat : String) (n : ℕ) (s : Time) (v : MessageRow) (vs : List MessageRow)
    (db : MessagesDb)
    → Deliveries account chat n (v ∷ vs) db
    → Versions s (v ∷ vs)
    → (r : MessageRow) × (from : MessageRow) × (find_row (has_key account chat n) db.messages
        ≡ some r)
      × Memᴰ from (v ∷ vs)
      × (contents r ≡ contents from)
      × (version_time r ≡ version_time from)
      × All (λ u. version_time u ≤ version_time r) (v ∷ vs)
newest_version_wins account chat n s v vs db d c =
    let (r, e, k) = Deliveries-Kept account chat n s (v ∷ vs) db d c in
    (r, k.from, e, k.delivered, k.same_contents, k.same_time, k.none_newer)

-- One version of a message, under whichever ids and in whichever rows it was delivered.
abbrev pub SameVersion : MessageRow → MessageRow → Type 0
SameVersion u v = (contents u ≡ contents v) × (version_time u ≡ version_time v)

-- Two databases where upserts stored the same versions of a message, in any orders, any number of
-- times and under any row ids, agree on it: when each version delivered to one was delivered to the
-- other (the same contents, which are type, text, entities, forward information and metadata, and the
-- same time, of the edit or of the sending), the versions of each were sent at one time and edited no
-- earlier, and two with the same time have the same contents, both store the message with the same
-- contents and the same time.
pub delivery_order_irrelevant :
    (account chat : String) (n : ℕ) (s : Time) (v₁ v₂ : MessageRow) (vs₁ vs₂ : List MessageRow)
    (db₁ db₂ : MessagesDb)
    → Deliveries account chat n (v₁ ∷ vs₁) db₁
    → Deliveries account chat n (v₂ ∷ vs₂) db₂
    → Versions s (v₁ ∷ vs₁)
    → Versions s (v₂ ∷ vs₂)
    → ((u : MessageRow)
        → Memᴰ u (v₁ ∷ vs₁)
        → (v : MessageRow) × Memᴰ v (v₂ ∷ vs₂) × SameVersion u v)
    → ((u : MessageRow)
        → Memᴰ u (v₂ ∷ vs₂)
        → (v : MessageRow) × Memᴰ v (v₁ ∷ vs₁) × SameVersion u v)
    → ((u t : MessageRow)
        → Memᴰ u (v₁ ∷ vs₁)
        → Memᴰ t (v₁ ∷ vs₁)
        → version_time u ≡ version_time t
        → contents u ≡ contents t)
    → (r₁ : MessageRow) × (r₂ : MessageRow) × (find_row (has_key account chat n) db₁.messages
        ≡ some r₁)
      × (find_row (has_key account chat n) db₂.messages ≡ some r₂)
      × (contents r₁ ≡ contents r₂)
      × (version_time r₁ ≡ version_time r₂)
delivery_order_irrelevant account chat n s v₁ v₂ vs₁ vs₂ db₁ db₂ d₁ d₂ c₁ c₂ to from same =
    let (r₁, f₁, e₁, m₁, k₁, t₁, a₁) = newest_version_wins account chat n s v₁ vs₁ db₁ d₁ c₁ in
    let (r₂, f₂, e₂, m₂, k₂, t₂, a₂) = newest_version_wins account chat n s v₂ vs₂ db₂ d₂ c₂ in
    let (g₁, in₂, (like₁, late₁)) = to f₁ m₁ in
    let (g₂, in₁, (like₂, late₂)) = from f₂ m₂ in
    let le₁ : version_time g₂ ≤ version_time r₁ =
      All_mem (λ u. version_time u ≤ version_time r₁) g₂ (v₁ ∷ vs₁) a₁ in₁ in
    let le₂ : version_time g₁ ≤ version_time r₂ =
      All_mem (λ u. version_time u ≤ version_time r₂) g₁ (v₂ ∷ vs₂) a₂ in₂ in
    (
      r₁,
      r₂,
      e₁,
      e₂,
      k₁ ∙ same f₁ g₂ m₁ in₁ (omega (arith, t₁, t₂, late₁, late₂)) ∙ sym like₂ ∙ sym k₂,
      omega (arith, t₁, t₂, late₁, late₂),
    )
