-- ===== src/Messages/Keys.antt =====
-- What a key finds after each statement of the store (internal/messages/repository.go).
use telegram_gateway.Base.{
  ℕ, String, ◌≡◌, refl, ◌∙◌, true, false, Option, none, some, inl, inr, List, [], ◌∷◌, ◌++◌, arith,
  Bool-cases, Option-cases, find_row, find_row_sound, map, if◌then◌else◌, text_eq, eq_iff,
}
use telegram_gateway.Base.Keyed.{change_missing, change_present}
use telegram_gateway.Base.Lookup.{find_row-map, update_where-map, find_row-append}
use telegram_gateway.Messages.Table.{MessageRow, MessagesDb, has_key}
use telegram_gateway.Messages.Store.{merge, same_message, put}

pub text_eq_refl : (s : String) → text_eq s s ≡ true
text_eq_refl s = (eq_iff s s).1 refl

pub same_message_self : (r : MessageRow) → same_message r r ≡ true
same_message_self r = rw (text_eq_refl r.account_id) (rw (text_eq_refl r.chat_id) (ground arith))

-- Two rows that share a row's key share theirs.
pub same_message_key :
    (account chat : String) (n : ℕ) (new r : MessageRow)
    → same_message new r ≡ true
    → has_key account chat n new ≡ has_key account chat n r
same_message_key account chat n new r h =
    let a : r.account_id ≡ new.account_id = (eq_iff r.account_id new.account_id).0 (ground arith) in
    let c : r.chat_id ≡ new.chat_id = (eq_iff r.chat_id new.chat_id).0 (ground arith) in
    let i : r.telegram_message_id ≡ new.telegram_message_id = ground arith in
    rw a (rw c (rw i refl))

-- The row that an INSERT conflicts with is the one that its key finds.
pub same_message-find_row :
    (account chat : String) (n : ℕ) (new : MessageRow) (rows : List MessageRow)
    → has_key account chat n new ≡ true
    → find_row (has_key account chat n) rows ≡ find_row (same_message new) rows
same_message-find_row account chat n new rows h =
    let a : new.account_id ≡ account = (eq_iff new.account_id account).0 (ground arith) in
    let c : new.chat_id ≡ chat = (eq_iff new.chat_id chat).0 (ground arith) in
    let i : new.telegram_message_id ≡ n = ground arith in rw a (rw c (rw i refl))

pub merge_where-key :
    (account chat : String) (n : ℕ) (new r : MessageRow)
    → has_key account chat n (if same_message new r then merge new r else r)
      ≡ has_key account chat n r
unfolding merge
merge_where-key account chat n new r = ground arith

pub put_missing :
    (new : MessageRow) (db : MessagesDb)
    → find_row (same_message new) db.messages ≡ none
    → (put new db).1 ≡ record db { messages = db.messages ++ (new ∷ []) }
unfolding put
put_missing new db e =
    rw (change_missing (same_message new) (λ r. true) (merge new) db.messages e) refl

pub put_present :
    (new r : MessageRow) (db : MessagesDb)
    → find_row (same_message new) db.messages ≡ some r
    → (put new db).1 ≡ record db {
      messages = map (λ x. if same_message new x then merge new x else x) db.messages;
    }
unfolding put
put_present new r db e =
    rw (change_present (same_message new) (λ r. true) (merge new) db.messages r e refl)
      (rw (update_where-map (same_message new) (merge new) db.messages) refl)

abbrev pub put_row : MessageRow → Option MessageRow → MessageRow
put_row new none = new
put_row new (some r) = merge new r

-- The statement leaves the new row, or the stored one with the new one merged into it.
pub find_row-put :
    (new : MessageRow) (db : MessagesDb)
    → find_row (same_message new) (put new db).1.messages
      ≡ some (put_row new (find_row (same_message new) db.messages))
find_row-put new db = elim (Option-cases (find_row (same_message new) db.messages)) [
  | inl n ↦
      rw (put_missing new db n) (
        find_row-append (same_message new) db.messages new ∙ rw n (rw (same_message_self new) refl))
  | inr (r, e) ↦
      let found : same_message new r ≡ true =
        find_row_sound (same_message new) db.messages {a = r} e in
      rw (put_present new r db e) (
        find_row-map (same_message new) _ db.messages
          (merge_where-key new.account_id new.chat_id new.telegram_message_id new)
        ∙ rw e (rw found refl))
]

-- The statement leaves the row of another key.
pub find_row-put_other :
    (account chat : String) (n : ℕ) (new : MessageRow) (db : MessagesDb)
    → has_key account chat n new ≡ false
    → find_row (has_key account chat n) (put new db).1.messages
      ≡ find_row (has_key account chat n) db.messages
find_row-put_other account chat n new db other =
    elim (Option-cases (find_row (same_message new) db.messages)) [
      | inl e ↦ rw (put_missing new db e) (
          find_row-append (has_key account chat n) db.messages new
          ∙ elim (Option-cases (find_row (has_key account chat n) db.messages)) [
            | inl f ↦ rw f (rw other refl)
            | inr (r, f) ↦ rw f refl
          ])
      | inr (x, e) ↦ rw (put_present new x db e) (
          find_row-map (has_key account chat n) _ db.messages (merge_where-key account chat n new)
          ∙ elim (Option-cases (find_row (has_key account chat n) db.messages)) [
            | inl f ↦ rw f refl
            | inr (r, f) ↦ rw f (rw (untouched r (find_row_sound _ db.messages {a = r} f)) refl)
          ])
    ]
  where
    untouched : (r : MessageRow) → has_key account chat n r ≡ true → same_message new r ≡ false
    untouched r h = elim (Bool-cases (same_message new r)) [
      | inl s ↦ absurd (ground (arith, same_message_key account chat n new r s))
      | inr s ↦ s
    ]
