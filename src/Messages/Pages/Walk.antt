-- ===== src/Messages/Pages/Walk.antt =====
-- The pages of a chat, one after the other (internal/messages/pagination.go).
use telegram_gateway.Base.{
  ℕ, zero, suc, String, ◌≡◌, refl, sym, ap, ◌∙◌, true, false, leb, inl, inr, Option, none, some,
  List, [], ◌++◌, ◌+◌, ◌<◌, ◌≤◌, length, arith, Memᴰ, All, All_mem, Bool-cases, leb→le,
  select_where, take, trim_space, is_empty,
}
use telegram_gateway.Base.Slices.{
  drop, last, All-select_where, All-selected, mem-last-take, take-append-drop, length-drop,
  take_all, take-take, length-take_short, select_where-select_where, select_where_ext,
  last-take-some,
}
use telegram_gateway.Base.Handler.{World, go, ◌>>=◌, pure}
use telegram_gateway.Base.Handler.Inversion.{>>=-run}
use mathlib.Core.List.{Perm}
use telegram_gateway.Messages.Unique.{Unique}
use telegram_gateway.Messages.Table.{MessageRow, MessagesDb, Cursor}
use telegram_gateway.Messages.Reads.{after, is_below, cursor_of, order_desc, normalize_limit}
use telegram_gateway.Messages.Pages.{
  CursorPayload, Page, unix_epoch, encode_cursor, decode_cursor, page_of, list_active_page, walk,
}
use telegram_gateway.Messages.Pages.RoundTrip.{cursor_round_trip}
use telegram_gateway.Messages.Pages.Visible.{
  visible, select_active-below, visible-Apart, after_below, normalize_limit_positive, all_below,
}
use telegram_gateway.Messages.Pages.Order.{
  NewestFirst, Apart, order_desc-NewestFirst, order_desc-perm, select_where-NewestFirst,
  select_below_last, All-order_desc, length-order_desc,
}

-- What the pages need of the rows: they were sent after 1970-01-01 and have a message id.
abbrev pub IsNumbered : MessageRow → Type 0
IsNumbered r = (unix_epoch < r.sent_at) × (0 < r.telegram_message_id)

module _ (marshal : CursorPayload → List ℕ) (unmarshal : List ℕ → Option CursorPayload)
    (base64 : List ℕ → String) (unbase64 : String → Option (List ℕ))
    (marshalled : (p : CursorPayload) → unmarshal (marshal p) ≡ some p)
    (encoded : (b : List ℕ) → unbase64 (base64 b) ≡ some b)
    (no_spaces : (b : List ℕ) → trim_space (base64 b) ≡ base64 b)
    (not_empty : (p : CursorPayload) → is_empty (base64 (marshal p)) ≡ false) where
  -- A page whose rows are all that is left has no next cursor.
  page_of_last :
      (n : ℕ) (xs : List MessageRow)
      → length xs ≤ n
      → page_of marshal base64 n (take (suc n) xs) ≡ go (record { items = xs; next_cursor = "" })
  unfolding page_of
  page_of_last n xs h = rw (take_all (suc n) xs (omega arith)) (ground arith)

  -- Any other page has the cursor of its last row.
  page_of_more :
      (n : ℕ) (xs : List MessageRow) (c : MessageRow) (text : String)
      → n < length xs
      → last (take n xs) ≡ some c
      → encode_cursor marshal base64 (cursor_of c) ≡ go text
      → page_of marshal base64 n (take (suc n) xs)
        ≡ go (record { items = take n xs; next_cursor = text })
  unfolding page_of
  page_of_more n xs c text h l e =
      let more : leb (length (take (suc n) xs)) n ≡ false =
        elim (Bool-cases (leb (length (take (suc n) xs)) n)) [
          | inl k ↦ absurd (omega (arith, length-take_short n xs (leb→le _ n k)))
          | inr k ↦ k
        ] in
      rw more (rw (take-take n xs) (rw l (rw e refl)))

  module _ (db : MessagesDb) (account chat : String) (limit : ℕ) where
    abbrev quiet : World MessagesDb
    quiet = record { db = db; faults = [] }

    abbrev rows_below : Option Cursor → List MessageRow
    rows_below c = select_where (after c) (order_desc (visible db account chat))

    page_quiet :
        (c : Option Cursor) (p : Page)
        → Apart (visible db account chat)
        → page_of marshal base64
            (normalize_limit limit)
            (take (suc (normalize_limit limit)) (rows_below c))
          ≡ go p
        → list_active_page marshal base64 account chat c limit quiet ≡ (go p, quiet)
    unfolding list_active_page ◌>>=◌
    page_quiet c p a h =
        let one_more : normalize_limit limit + 1 ≡ suc (normalize_limit limit) = omega arith in
        rw one_more
          (rw (select_active-below db account chat c (suc (normalize_limit limit)) a) (rw h refl))

    -- What a longer list has below its last row on a page, and that the reader can go on there.
    data Next (c : Option Cursor) : Type 0 where
      next :
          (r : MessageRow) (text : String)
          → last (take (normalize_limit limit) (rows_below c)) ≡ some r
          → encode_cursor marshal base64 (cursor_of r) ≡ go text
          → is_empty text ≡ false
          → decode_cursor unmarshal unbase64 text ≡ go (cursor_of r)
          → rows_below (some (cursor_of r)) ≡ drop (normalize_limit limit) (rows_below c)
          → Next c

    below-Next :
        Apart (visible db account chat)
        → All IsNumbered (visible db account chat)
        → (c : Option Cursor) → normalize_limit limit < length (rows_below c)
        → Next c
    below-Next a s c h =
        let (r, l) =
          last-take-some (normalize_limit limit) (rows_below c) (normalize_limit_positive limit)
            h in
        let all : List MessageRow = order_desc (visible db account chat) in
        let sorted : NewestFirst all = order_desc-NewestFirst (visible db account chat) a in
        let m : Memᴰ r (rows_below c) = mem-last-take (normalize_limit limit) (rows_below c) r l in
        let n : IsNumbered r =
          All_mem IsNumbered r (rows_below c)
            (All-select_where IsNumbered (after c) all
              (All-order_desc IsNumbered (visible db account chat) s))
            m in
        let (text, e, full, d) =
          cursor_round_trip marshal unmarshal base64 unbase64 marshalled encoded no_spaces not_empty
            (cursor_of r) n.0 n.1 in
        let reached : after c r ≡ true =
          All_mem (λ r. after c r ≡ true) r (rows_below c) (All-selected (after c) all) m in
        next r text l e full d (
          select_where_ext _ _ all (λ x. after_below c r x reached)
          ∙ sym (select_where-select_where (after c) (is_below (cursor_of r)) all)
          ∙ select_below_last (normalize_limit limit) (rows_below c) r
              (select_where-NewestFirst (after c) all sorted) l)

    walk_below :
        Apart (visible db account chat)
        → All IsNumbered (visible db account chat)
        → (fuel : ℕ) (c : Option Cursor) → length (rows_below c) < fuel
        → walk marshal base64 unmarshal unbase64 account chat limit fuel c quiet
          ≡ (go (rows_below c), quiet)
    unfolding walk pure
    walk_below a s zero c h = absurd (omega arith)
    walk_below a s (suc fuel) c h =
        elim (Bool-cases (leb (length (rows_below c)) (normalize_limit limit))) [
          | inl e ↦
              >>=-run _ _ quiet quiet _
                (page_quiet c _ a (page_of_last _ (rows_below c) (leb→le _ _ e)))
          | inr e ↦
              let long : normalize_limit limit < length (rows_below c) = ground arith in
              elim (below-Next a s c long) [
                | next r text l e full d left ↦
                    >>=-run _ _ quiet quiet _
                      (page_quiet c _ a (page_of_more _ (rows_below c) r text long l e))
                    ∙ rw full (
                        >>=-run _ _ quiet quiet (cursor_of r) (rw d refl)
                        ∙ >>=-run _ _ quiet quiet (rows_below (some (cursor_of r))) (
                            walk_below a s fuel (some (cursor_of r)) (
                              omega (
                                arith,
                                ap length left,
                                length-drop (normalize_limit limit) (rows_below c),
                                normalize_limit_positive limit,
                              )))
                        ∙ ap (λ rows. (go rows, quiet))
                            (ap (λ rest. take (normalize_limit limit) (rows_below c) ++ rest) left
                              ∙ take-append-drop (normalize_limit limit) (rows_below c)))
              ]
        ]

    -- For every limit, in a database whose message keys are unique and whose shown messages of the
    -- chat have an id and were sent after 1970-01-01, a reader that follows next_cursor from the first
    -- page, for one page more than the chat shows messages or longer and with no statement failing,
    -- gets to the end without an error, and has then read every message that active_messages shows of
    -- the chat exactly once, newest first. encoding/json and encoding/base64 are any codecs that read
    -- back what they write, in a text that is not empty and has no spaces.
    pub pages_list_chat :
        Unique db.messages
        → All IsNumbered (visible db account chat)
        → (fuel : ℕ) → length (visible db account chat) < fuel
        → (all : List MessageRow) × (walk marshal base64 unmarshal unbase64 account chat limit fuel
              none quiet
            ≡ (go all, quiet))
          × Perm all (visible db account chat)
          × NewestFirst all
    pages_list_chat u s fuel h =
        let a : Apart (visible db account chat) = visible-Apart db account chat u in
        (
          rows_below none,
          walk_below a s fuel none (
              omega (
                arith,
                ap length (all_below db account chat),
                length-order_desc (visible db account chat),
              )),
          rw (all_below db account chat) (order_desc-perm (visible db account chat)),
          select_where-NewestFirst (after none) _ (order_desc-NewestFirst _ a),
        )
