-- ===== src/Worker/Backfill.antt =====
-- The chain of history jobs over a chat (internal/worker/history.go).
use telegram_gateway.Base.{ℕ, ◌≡◌, none, some, ◌<◌, List, ◌++◌, All, take, length, trim_space}
use telegram_gateway.Base.Handler.{go}
use telegram_gateway.Worker.{Error}
use telegram_gateway.Worker.History.{
  Item, HistoryPayload, Collaborators, ended, page_size, handle_chat_history,
}
use telegram_gateway.Worker.Falling.{Falling, IsValid, older, wanted}

-- Other parts that answer without an error, and Telegram's pages: some of the messages below the id,
-- as many as `count` says, newest first.
abbrev pub answering : (ℕ → ℕ → ℕ → ℕ) → List Item → (Error → Error) → Collaborators
answering count all fail_sync = record {
  acquire = none;
  before = none;
  session = none;
  get_chat_history = λ chat before size. go (take (count chat before size) (older before all));
  store_message = λ i. none;
  enqueue = λ p. none;
  progress = λ before oldest newest. none;
  complete = none;
  audit = none;
  fail_sync = fail_sync;
}

module _ (count : ℕ → ℕ → ℕ → ℕ) (some_of : (chat before size : ℕ) → 0 < count chat before size)
    (all : List Item) (fail_sync : Error → Error) (falling : Falling all)
    (valid : All IsValid all) where
  abbrev working : Collaborators
  working = answering count all fail_sync

  -- What one job does: all that is wanted is stored and no job follows, or a part is and the job that
  -- follows goes on where it stopped.
  data JobCases (p : HistoryPayload) : Type 0 where
    done :
        handle_chat_history working p
          ≡ ended none (wanted p.stop_after_message_id (older p.before_message_id all)) none
        → JobCases p
    more :
        (o : ℕ) (items : List Item) (next : HistoryPayload)
        → handle_chat_history working p ≡ ended none items (some next)
        → next ≡ record p {
          chat_id = trim_space p.chat_id;
          before_message_id = o;
          requested_page_size = page_size p.requested_page_size;
        }
        → length (older o all) < length (older p.before_message_id all)
        → wanted p.stop_after_message_id (older p.before_message_id all)
          ≡ items ++ wanted p.stop_after_message_id (older o all)
        → JobCases p
