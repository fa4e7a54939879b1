-- ===== src/Examples/History.antt =====
-- A chain of history jobs at a concrete input.
use telegram_gateway.Base.{ℕ, List, [], ◌∷◌}
use telegram_gateway.Worker.History.{Item, HistoryPayload}

abbrev message : ℕ → Item
message n = record { telegram_message_id = n; sent_at = n }

abbrev messages : List Item
messages = message 9 ∷ message 7 ∷ message 6 ∷ message 2 ∷ []

abbrev payload : HistoryPayload
payload = record {
  chat_id = "c";
  telegram_chat_id = 5;
  before_message_id = 0;
  stop_after_message_id = 2;
  requested_page_size = 0;
}
