-- ===== src/Messages/Pages/Visible.antt =====
-- The messages that a chat shows, and a page's query on them (internal/messages/pagination.go).
use telegram_gateway.Base.{
  ℕ, String, ◌≡◌, refl, sym, ap, ◌∙◌, Bool, true, false, ◌&&◌, ◌||◌, ◌==◌, inl, inr, Option, none,
  some, List, [], ◌∷◌, ◌<◌, arith, All, Bool-cases, select_where, take, text_eq, eq_iff,
}
use telegram_gateway.Base.Slices.{select_where-All, select_where-select_where, select_where_ext}
use telegram_gateway.Messages.Unique.{Unique}
use telegram_gateway.Messages.Store.{same_message}
use telegram_gateway.Messages.Table.{MessageRow, MessagesDb, Cursor}
use telegram_gateway.Messages.Reads.{
  is_active, in_chat, after, is_below, cursor_of, order_desc, select_active, normalize_limit,
}
use telegram_gateway.Messages.Pages.Order.{is_older, Apart, select_where-order_desc}

module _ (db : MessagesDb) (account chat : String) where
  -- the chat's messages that the view shows, in any order
  abbrev pub visible : List MessageRow
  visible = select_where (λ r. is_active db r && in_chat account chat r) db.messages

  -- A page is a prefix of what is below its cursor.
  pub select_active-below :
      (c : Option Cursor) (n : ℕ)
      → Apart visible
      → select_active (λ r. in_chat account chat r && after c r) n db
        ≡ take n (select_where (after c) (order_desc visible))
  select_active-below c n a = ap (take n) (
      ap order_desc (
        select_where_ext _ _ db.messages (λ r. ground arith)
        ∙ sym (
            select_where-select_where (λ r. is_active db r && in_chat account chat r) (after c)
              db.messages))
      ∙ sym (select_where-order_desc (after c) visible a))

and_right : (a b : Bool) → (a && b) ≡ true → b ≡ true
and_right a b h = ground arith

-- Two messages of a chat with different keys have different ids.
different_ids :
    (account chat : String) (x r : MessageRow)
    → in_chat account chat x ≡ true
    → in_chat account chat r ≡ true
    → same_message x r ≡ false
    → (r.telegram_message_id == x.telegram_message_id) ≡ false
different_ids account chat x r e k h =
    let x_account : x.account_id ≡ account = (eq_iff x.account_id account).0 (ground arith) in
    let x_chat : x.chat_id ≡ chat = (eq_iff x.chat_id chat).0 (ground arith) in
    let same_account : text_eq r.account_id x.account_id ≡ true = rw x_account (ground arith) in
    let same_chat : text_eq r.chat_id x.chat_id ≡ true = rw x_chat (ground arith) in ground arith

distinct_place :
    (account chat : String) (x r : MessageRow)
    → in_chat account chat x ≡ true
    → in_chat account chat r ≡ true
    → same_message x r ≡ false
    → (is_older x r || is_older r x) ≡ true
distinct_place account chat x r e k h = ground (arith, different_ids account chat x r e k h)

pub visible-Apart :
    (db : MessagesDb) (account chat : String) → Unique db.messages → Apart (visible db account chat)
visible-Apart db account chat u = apart db.messages u
  where
    shown : MessageRow → Bool
    shown r = is_active db r && in_chat account chat r

    apart_from :
        (x : MessageRow)
        → shown x ≡ true
        → (rows : List MessageRow) → All (λ r. same_message x r ≡ false) rows
        → All (λ r. (is_older x r || is_older r x) ≡ true) (select_where shown rows)
    apart_from x e [] k = tt
    apart_from x e (r ∷ rows) k = elim (Bool-cases (shown r)) [
      | inl shows ↦ rw shows (
        distinct_place account chat x r (and_right _ _ e) (and_right _ _ shows) k.0,
        apart_from x e rows k.1,
      )
      | inr hides ↦ rw hides (apart_from x e rows k.1)
    ]

    apart : (rows : List MessageRow) → Unique rows → Apart (select_where shown rows)
    apart [] k = tt
    apart (x ∷ rows) k = elim (Bool-cases (shown x)) [
      | inl e ↦ rw e (apart_from x e rows k.0, apart rows k.1)
      | inr e ↦ rw e (apart rows k.1)
    ]

-- A row below another that is after the cursor is after it too.
pub after_below :
    (c : Option Cursor) (r x : MessageRow)
    → after c r ≡ true
    → is_below (cursor_of r) x ≡ (after c x && is_below (cursor_of r) x)
after_below none r x h = ground arith
after_below (some c) r x h = ground arith

-- Without a cursor nothing is left out.
pub all_below :
    (db : MessagesDb) (account chat : String)
    → select_where (after none) (order_desc (visible db account chat))
      ≡ order_desc (visible db account chat)
all_below db account chat = select_where-All (after none) _ (everything _)
  where
    everything : (xs : List MessageRow) → All (λ r. after none r ≡ true) xs
    everything [] = tt
    everything (x ∷ xs) = (refl, everything xs)

pub normalize_limit_positive : (limit : ℕ) → 0 < normalize_limit limit
unfolding normalize_limit
normalize_limit_positive limit = ground arith
