-- ===== src/SyncState.antt =====
-- internal/syncstate/repository.go: the leases on synchronization states. A duration is a number of
-- nanoseconds (0 for a negative one, which every operation treats alike), a timestamp a number of
-- microseconds; message ids are naturals, and an error's text is its UTF-8 bytes. `now` is NOW(), and
-- `token` and `id` are what gen_random_uuid() returns.
pub mod Fencing
pub mod Bounds
use telegram_gateway.Base.{
  ℕ, String, Bool, true, false, Option, none, some, List, [], ◌∷◌, ◌&&◌, ◌||◌, ◌==◌, ◌+◌, ◌*◌, ◌/◌,
  leb, ltb, is_empty, text_eq, trim_space, if◌then◌else◌, find_row, any_row, min, max, take,
}
use telegram_gateway.Base.Keyed.{change}
use telegram_gateway.Base.Handler.{Handler, ◌>>=◌, ◌>>◌, query, expect, stop_if, pure}
use telegram_gateway.Schema.{Time, Uuid}

pub data SyncStatus : Type 0 where
  pending running completed failed : SyncStatus

pub record State : Type 0 where
  pub id : String
  pub account_id : String
  pub chat_id : Option String
  pub sync_type : String
  pub status : SyncStatus
  pub cursor : String
  pub oldest_message_id : Option ℕ
  pub newest_message_id : Option ℕ
  pub last_synced_at : Option Time
  pub next_sync_at : Option Time
  pub retry_count : ℕ
  pub last_error : Option (List ℕ)
  pub generation : ℕ
  pub lease_owner : Option String
  pub lease_token : Option Uuid
  pub lease_expires_at : Option Time

pub record Lease : Type 0 where
  pub state_id : String
  pub owner : String
  pub token : Uuid
  pub generation : ℕ
  pub expires_at : Time

pub data SyncError : Type 0 where
  invalid_argument lease_lost database_error not_found bad_cursor : SyncError

abbrev zero_uuid : String
zero_uuid = "00000000-0000-0000-0000-000000000000"

-- COALESCE(chat_id, zeroUUID)
abbrev scope_chat : Option String → String
scope_chat none = zero_uuid
scope_chat (some c) = c

abbrev pub in_scope : String → Option String → String → State → Bool
in_scope account chat kind s =
    text_eq s.account_id account
    && (text_eq (scope_chat s.chat_id) (scope_chat chat) && text_eq s.sync_type kind)

abbrev pub has_id : String → State → Bool
has_id id s = text_eq s.id id

-- ttl.Milliseconds() * interval '1 millisecond'
abbrev pub interval : ℕ → Time
interval d = d / 1000000 * 1000

-- chatID: `none` for a nil pointer; `none` outside is the error for a blank one
abbrev chat_value : Option String → Option (Option String)
chat_value none = some none
chat_value (some c) = let t = trim_space c in if is_empty t then none else some (some t)

abbrev pub new_state : String → String → Option String → String → State
new_state id account chat kind = record {
  id = id;
  account_id = account;
  chat_id = chat;
  sync_type = kind;
  status = pending;
  cursor = "{}";
  oldest_message_id = none;
  newest_message_id = none;
  last_synced_at = none;
  next_sync_at = none;
  retry_count = 0;
  last_error = none;
  generation = 0;
  lease_owner = none;
  lease_token = none;
  lease_expires_at = none;
}

-- INSERT … ON CONFLICT DO NOTHING, the conflict being on the primary key or on the scope.
unfoldable pub insert_state : String → String → Option String → String → List State → List State
insert_state id account chat kind d =
    if any_row (has_id id) d || any_row (in_scope account chat kind) d
    then d
    else new_state id account chat kind ∷ d

unfoldable pub ensure :
    String → String → Option String → String → Handler SyncError (List State) State
ensure id account_id chat_id sync_type = do
  let account = trim_space account_id
  let kind = trim_space sync_type
  stop_if (is_empty account || is_empty kind) invalid_argument
  chat ← expect invalid_argument (chat_value chat_id)
  query database_error (λ d. (tt, insert_state id account chat kind d))
  row ← query database_error (λ d. (find_row (in_scope account chat kind) d, d))
  expect not_found row

abbrev pub is_free : Time → State → Bool
is_free now s = elim s.lease_expires_at [ none ↦ true | some t ↦ leb t now ]

abbrev pub granted : Time → Uuid → String → ℕ → State → State
granted now token owner ttl s = record s {
  lease_owner = some owner;
  lease_token = some token;
  lease_expires_at = some (now + interval ttl);
  generation = s.generation + 1;
  status = running;
  last_error = none;
}

abbrev lease_of : Time → Uuid → String → ℕ → Option State → Option Lease
lease_of now token owner ttl none = none
lease_of now token owner ttl (some s) = some (record {
  state_id = s.id;
  owner = owner;
  token = token;
  generation = s.generation;
  expires_at = now + interval ttl;
})

-- `none` is the answer `false` without an error.
unfoldable pub acquire :
    Time → Uuid → String → String → ℕ → Handler SyncError (List State) (Option Lease)
acquire now token state_id owner ttl = do
  let id = trim_space state_id
  let name = trim_space owner
  stop_if (is_empty id || is_empty name) invalid_argument
  stop_if (ttl == 0) invalid_argument
  row ← query database_error (change (has_id id) (is_free now) (granted now token name ttl))
  pure (lease_of now token name ttl row)

abbrev same_text : Option String → String → Bool
same_text none s = false
same_text (some t) s = text_eq t s

abbrev same_token : Option Uuid → Uuid → Bool
same_token none n = false
same_token (some m) n = m == n

-- lease_owner = $2 AND lease_token = $3 AND generation = $4
unfoldable pub is_held_by : Lease → State → Bool
is_held_by l s =
    same_text s.lease_owner l.owner
    && (same_token s.lease_token l.token && s.generation == l.generation)

abbrev pub is_unexpired : Time → State → Bool
is_unexpired now s = elim s.lease_expires_at [ none ↦ false | some t ↦ ltb now t ]

-- LEAST and GREATEST, which skip a NULL
abbrev pub least : Option ℕ → Option ℕ → Option ℕ
least none b = b
least (some a) none = some a
least (some a) (some b) = some (min a b)

abbrev pub greatest : Option ℕ → Option ℕ → Option ℕ
greatest none b = b
greatest (some a) none = some a
greatest (some a) (some b) = some (max a b)

abbrev pub progressed : Time → String → Option ℕ → Option ℕ → State → State
progressed now cursor oldest newest s = record s {
  cursor = cursor;
  oldest_message_id = least oldest s.oldest_message_id;
  newest_message_id = greatest newest s.newest_message_id;
  last_synced_at = some now;
}

-- The updates answer the changed row, where the source only tests RowsAffected() == 0.
-- `cursor` is the JSON of the map, `none` where json.Marshal refuses it.
unfoldable pub progress :
    Time → Lease → Option String → Option ℕ → Option ℕ → Handler SyncError (List State) State
progress now l cursor oldest newest = do
  encoded ← expect bad_cursor cursor
  row ← query database_error (
      change (has_id l.state_id) (λ s. is_held_by l s && is_unexpired now s)
        (progressed now encoded oldest newest))
  expect lease_lost row

abbrev pub finished : Time → State → State
finished now s = record s {
  status = completed;
  last_synced_at = some now;
  next_sync_at = none;
  retry_count = 0;
  last_error = none;
  lease_owner = none;
  lease_token = none;
  lease_expires_at = none;
}

unfoldable pub complete : Time → Lease → Handler SyncError (List State) State
complete now l = do
  row ← query database_error (change (has_id l.state_id) (is_held_by l) (finished now))
  expect lease_lost row

-- "sync failed"
abbrev default_message : List ℕ
default_message = 115 ∷ 121 ∷ 110 ∷ 99 ∷ 32 ∷ 102 ∷ 97 ∷ 105 ∷ 108 ∷ 101 ∷ 100 ∷ []

abbrev message_of : Option (List ℕ) → List ℕ
message_of none = take 4000 default_message
message_of (some m) = take 4000 m

abbrev pub failed_with : Time → List ℕ → ℕ → State → State
failed_with now message retry_after s = record s {
  status = failed;
  retry_count = s.retry_count + 1;
  last_error = some message;
  next_sync_at = some (now + interval retry_after);
  lease_owner = none;
  lease_token = none;
  lease_expires_at = none;
}

unfoldable pub fail : Time → Lease → Option (List ℕ) → ℕ → Handler SyncError (List State) State
fail now l cause retry_after = do
  row ←
      query database_error
        (change (has_id l.state_id) (is_held_by l) (failed_with now (message_of cause) retry_after))
  expect lease_lost row
