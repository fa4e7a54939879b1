-- ===== src/Worker/History.antt =====
-- internal/worker/history.go: one page of a chat's history, and the job that it enqueues for the next.
-- Message ids are naturals (0 is none), times microseconds since Go's zero time (which is 0). What the
-- handler asks of other parts is what they answer (`Collaborators`); `fail_sync` is failSync.
use telegram_gateway.Base.{
  ℕ, zero, suc, String, Bool, true, false, Option, none, some, List, [], ◌∷◌, ◌++◌, ◌&&◌, ◌||◌,
  ◌==◌, leb, ltb, is_empty, trim_space, if◌then◌else◌,
}
use telegram_gateway.Base.Handler.{Outcome, reply, go}
use telegram_gateway.Schema.{Time}
use telegram_gateway.Worker.{Error, plain, permanent_error}

-- telegram.Message: what the loop reads of it
pub record Item : Type 0 where
  pub telegram_message_id : ℕ
  pub sent_at : Time

-- ChatHistoryPayload
pub record HistoryPayload : Type 0 where
  pub chat_id : String
  pub telegram_chat_id : ℕ
  pub before_message_id : ℕ
  pub stop_after_message_id : ℕ
  pub requested_page_size : ℕ

pub record Collaborators : Type 0 where
  pub acquire : Option Error
  pub before : Option Error
  pub session : Option Error
  pub get_chat_history : ℕ → ℕ → ℕ → Outcome Error (List Item)
  pub store_message : Item → Option Error
  pub enqueue : HistoryPayload → Option Error
  pub progress : ℕ → Option ℕ → Option ℕ → Option Error
  pub complete : Option Error
  pub audit : Option Error
  pub fail_sync : Error → Error

-- the variables of the loop, and the messages stored so far
pub record Scan : Type 0 where
  pub reached_known : Bool
  pub oldest : Option ℕ
  pub newest : Option ℕ
  pub stored : List Item

abbrev pub lower : ℕ → Option ℕ → Option ℕ
lower id none = some id
lower id (some o) = if ltb id o then some id else some o

abbrev pub higher : ℕ → Option ℕ → Option ℕ
higher id none = some id
higher id (some n) = if ltb n id then some id else some n

abbrev pub seen : Item → Scan → Scan
seen i s = record {
  reached_known = s.reached_known;
  oldest = lower i.telegram_message_id s.oldest;
  newest = higher i.telegram_message_id s.newest;
  stored = s.stored ++ (i ∷ []);
}

abbrev pub is_known : ℕ → Item → Bool
is_known stop i = ltb 0 stop && leb i.telegram_message_id stop

abbrev permanent : Error
permanent = permanent_error plain

-- for _, item := range items: an error leaves the messages stored before it
unfoldable pub scan :
    ℕ → (Item → Option Error) → List Item → Scan → Outcome (Error × List Item) Scan
scan stop store [] s = go s
scan stop store (i ∷ items) s =
    let rest = scan stop store items (seen i s) in
    if is_known stop i
    then go (record s { reached_known = true })
    else if i.telegram_message_id == 0 || i.sent_at == 0
    then reply (permanent, s.stored)
    else elim (store i) [ none ↦ rest | some e ↦ reply (e, s.stored) ]

-- nextBefore, where the page is not the last
unfoldable pub next_before : ℕ → List Item → Scan → Outcome Error (Option ℕ)
next_before before [] s = go none
next_before before (i ∷ items) s = if s.reached_known then go none else elim s.oldest [
  | none ↦ go none
  | some o ↦ if o == before then reply permanent else go (some o)
]

-- how the job ends: its error, the messages that it stored, and the job that it enqueued
pub record JobEnd : Type 0 where
  pub error : Option Error
  pub stored : List Item
  pub enqueued : Option HistoryPayload

abbrev pub ended : Option Error → List Item → Option HistoryPayload → JobEnd
ended e items next = record { error = e; stored = items; enqueued = next }

abbrev pub no_scan : Scan
no_scan = record { reached_known = false; oldest = none; newest = none; stored = [] }

-- the page size that is asked for
abbrev pub page_size : ℕ → ℕ
page_size n = if n == 0 then 100 else if ltb 100 n then 100 else n

module _ (c : Collaborators) where
  abbrev failing : Error → List Item → Option HistoryPayload → JobEnd
  failing e items next = ended (some (c.fail_sync e)) items next

  -- Progress, Complete and the audit
  abbrev pub finish : ℕ → Scan → Option HistoryPayload → JobEnd
  finish before s next = elim (c.progress before s.oldest s.newest) [
    | some e ↦ failing e s.stored next
    | none ↦ elim c.complete [
      | some e ↦ ended (some e) s.stored next
      | none ↦ ended c.audit s.stored next
    ]
  ]

  abbrev pub go_on : HistoryPayload → Scan → Outcome Error (Option ℕ) → JobEnd
  go_on p s (reply e) = failing e s.stored none
  go_on p s (go none) = finish 0 s none
  go_on p s (go (some o)) =
      let next = record p { chat_id = trim_space p.chat_id; before_message_id = o } in
      elim (c.enqueue next) [ some e ↦ failing e s.stored none | none ↦ finish o s (some next) ]

  abbrev pub scanned : HistoryPayload → List Item → Outcome (Error × List Item) Scan → JobEnd
  scanned p items (reply (e, kept)) = failing e kept none
  scanned p items (go s) = go_on p s (next_before p.before_message_id items s)

  abbrev pub fetched_page : HistoryPayload → Outcome Error (List Item) → JobEnd
  fetched_page p (reply e) = failing e [] none
  fetched_page p (go items) =
      scanned p items (scan p.stop_after_message_id c.store_message items no_scan)

  -- handleChatHistory
  unfoldable pub handle_chat_history : HistoryPayload → JobEnd
  handle_chat_history payload =
      let p = record payload { requested_page_size = page_size payload.requested_page_size } in
      if is_empty (trim_space p.chat_id) || p.telegram_chat_id == 0
      then ended (some permanent) [] none
      else elim c.acquire [
        | some e ↦ ended (some e) [] none
        | none ↦ elim c.before [
          | some e ↦ failing e [] none
          | none ↦ elim c.session [
            | some e ↦ failing e [] none
            | none ↦
                fetched_page p
                  (c.get_chat_history p.telegram_chat_id p.before_message_id p.requested_page_size)
          ]
        ]
      ]

  abbrev joined : List Item → Option (List Item) → Option (List Item)
  joined items none = none
  joined items (some rest) = some (items ++ rest)

  -- what a job and the jobs after it store
  abbrev pub then_jobs : (HistoryPayload → Option (List Item)) → JobEnd → Option (List Item)
  then_jobs later end = elim end.error [
    | some e ↦ none
    | none ↦ elim end.enqueued [
      | none ↦ some end.stored
      | some next ↦ joined end.stored (later next)
    ]
  ]

  -- The jobs that one job leads to, one after the other: what they store together, `none` where one
  -- of them ends in an error or `fuel` is not enough.
  unfoldable pub run_jobs : ℕ → HistoryPayload → Option (List Item)
  run_jobs zero p = none
  run_jobs (suc fuel) p = then_jobs (λ next. run_jobs fuel next) (handle_chat_history p)
