-- ===== src/Send.antt =====
-- internal/httpserver/send.go: `sendMessage`. What the handler learns from the parts around it (the
-- principal, the request, the chat lookup, the session, the limiter, the audit log, the permission
-- check and Telegram) is its `Inputs`; `dispatched` lists every call of SendText, newest first.
pub mod Once
use Prim.Native.String.{len}
use telegram_gateway.Base.{
  ℕ, String, Bool, true, false, Option, none, some, List, [], ◌∷◌, ◌&&◌, ◌||◌, ◌==◌, ltb, not,
  is_empty, trim_space, if◌then◌else◌, find_row, any_row, delete_where, update_where,
}
use telegram_gateway.Base.Handler.{
  Handler, ◌>>=◌, ◌>>◌, query, attempt, expect, stop_if, pure, World, Outcome, go,
}
use telegram_gateway.Schema.{Uuid, Digest}

pub data SendStatus : Type 0 where
  pending accepted unknown : SendStatus

-- account_id, client_id, request_id: the primary key of message_send_requests
pub record Key : Type 0 where
  pub account_id : Uuid
  pub client_id : Uuid
  pub request_id : Uuid

abbrev pub same_key : Key → Key → Bool
same_key a b =
    a.account_id == b.account_id && (a.client_id == b.client_id && a.request_id == b.request_id)

pub record SendRequest : Type 0 where
  pub key : Key
  pub body_hash : Digest
  pub status : SendStatus
  pub telegram_message_id : Option ℕ

pub record Dispatch : Type 0 where
  pub key : Key
  pub chat : ℕ
  pub text : String

pub record SendDb : Type 0 where
  pub requests : List SendRequest
  pub dispatched : List Dispatch

pub data SendResult : Type 0 where
  delivered : ℕ → SendResult
  flood_wait not_sent : SendResult

pub data Reply : Type 0 where
  failed : ℕ → Reply
  answered : ℕ → Option ℕ → Reply

pub record Inputs : Type 0 where
  pub principal : Option (Uuid × Uuid)
  pub decoded : Bool
  pub text : String
  pub valid_utf8 : Bool
  pub request_id : Option Uuid
  pub chat : String
  pub telegram_chat : Option ℕ
  pub session : Option Bool
  pub cooldown : Option ℕ
  pub limit : Option Bool
  pub audit_refusal : Option ℕ
  pub chat_refusal : Option ℕ
  pub result : SendResult

abbrev pub of_key : Key → SendRequest → Bool
of_key k r = same_key r.key k

-- INSERT … ON CONFLICT DO NOTHING: whether a row was inserted
unfoldable pub reserve : Key → Digest → SendDb → Bool × SendDb
reserve k hash d = if any_row (of_key k) d.requests then (false, d) else (
  true,
  record d {
    requests =
        record { key = k; body_hash = hash; status = pending; telegram_message_id = none }
        ∷ d.requests;
  },
)

abbrev pub forget : Key → SendDb → SendDb
forget k d = record d { requests = delete_where (of_key k) d.requests }

abbrev pub call_telegram : Key → ℕ → String → SendDb → SendDb
call_telegram k chat text d = record d {
  dispatched = record { key = k; chat = chat; text = text } ∷ d.dispatched;
}

abbrev pub save_status : Key → SendStatus → ℕ → SendDb → SendDb
save_status k status id d = record d {
  requests =
      update_where (of_key k) (λ r. record r { status = status; telegram_message_id = some id })
        d.requests;
}

abbrev status_of : SendResult → SendStatus
status_of (delivered id) = accepted
status_of _ = unknown

abbrev id_of : SendResult → ℕ
id_of (delivered id) = id
id_of _ = 0

abbrev is_delivered : SendResult → Bool
is_delivered (delivered id) = true
is_delivered _ = false

abbrev is_accepted : SendStatus → Bool
is_accepted accepted = true
is_accepted _ = false

-- The answer to a request id that is already taken.
unfoldable pub answer_again : Key → Digest → Handler Reply SendDb Reply
answer_again k hash = do
  row ← query (failed 503) (λ d. (find_row (of_key k) d.requests, d))
  previous ← expect (failed 503) row
  stop_if (not (previous.body_hash == hash)) (failed 409)
  stop_if (not (is_accepted previous.status)) (failed 409)
  pure (answered 200 previous.telegram_message_id)

-- The call of SendText. It is not a statement, so no statement's failure undoes it.
unfoldable pub dispatch : Key → ℕ → String → Handler Reply SendDb Unit
dispatch k chat text w = (go tt, record w { db = call_telegram k chat text w.db })

abbrev refuses : Option ℕ → Bool
refuses none = false
refuses (some code) = true

abbrev code_of : Option ℕ → ℕ
code_of none = 0
code_of (some code) = code

-- `limit` is `none` where the limiter fails.
abbrev pub is_allowed : Option Bool → Bool
is_allowed none = false
is_allowed (some b) = b

-- `cooldown` is `none` where it cannot be read.
abbrev is_clear : Option ℕ → Bool
is_clear none = false
is_clear (some d) = d == 0

unfoldable pub give_up : Key → Handler Reply SendDb Reply
give_up k = do attempt tt (forget k); pure (failed 429)

unfoldable pub transmit : Inputs → Key → ℕ → Handler Reply SendDb Reply
transmit i k chat = do
  stop_if (refuses i.audit_refusal) (failed (code_of i.audit_refusal))
  stop_if (refuses i.chat_refusal) (failed (code_of i.chat_refusal))
  dispatch k chat i.text
  query (failed 502) (λ d. (tt, save_status k (status_of i.result) (id_of i.result) d))
  stop_if (not (is_delivered i.result)) (failed 502)
  pure (answered 202 (some (id_of i.result)))

-- After the reservation.
unfoldable pub deliver : Inputs → Key → ℕ → Handler Reply SendDb Reply
deliver i k chat = if is_allowed i.limit then transmit i k chat else give_up k

abbrev is_bad_text : Inputs → Bool
is_bad_text i =
    not i.decoded || (is_empty (trim_space i.text) || (not i.valid_utf8 || ltb 4096 (len i.text)))

abbrev pub key_of : Uuid × Uuid → Uuid → Key
key_of (account, client) request = record {
  account_id = account;
  client_id = client;
  request_id = request;
}

-- `body_hash` is SHA-256 of the chat, a zero byte and the text.
unfoldable pub send_message : (String → String → Digest) → Inputs → Handler Reply SendDb Reply
send_message body_hash i = do
  p ← expect (failed 403) i.principal
  stop_if (is_bad_text i) (failed 400)
  request ← expect (failed 400) i.request_id
  chat ← expect (failed 404) i.telegram_chat
  sender ← expect (failed 503) i.session
  stop_if (not sender) (failed 503)
  stop_if (not (is_clear i.cooldown)) (failed 429)
  let k = key_of p request
  let hash = body_hash i.chat i.text
  inserted ← query (failed 503) (reserve k hash)
  if inserted then deliver i k chat else answer_again k hash
