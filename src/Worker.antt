-- ===== src/Worker.antt =====
-- internal/worker/runner.go, internal/worker/errors.go, internal/worker/processor.go (`Handle`,
-- `beforeTelegram`, `telegramError`), internal/worker/synclease.go (`failSync`) and internal/syncjob/contracts.go: what becomes of a job. A
-- duration is a number of nanoseconds. An error is a tree of wrappers; the text of one is not modelled.
pub mod Outcomes
pub mod History
pub mod Falling
pub mod Scanned
pub mod Backfill
use telegram_gateway.Base.{
  ℕ, String, Bool, true, false, Option, none, some, List, [], ◌∷◌, ◌&&◌, ◌||◌, ◌==◌, ◌+◌, ltb, not,
  is_empty, trim_space, if◌then◌else◌, text_eq, take, length,
}
use telegram_gateway.SyncState.{SyncError}

abbrev pub second : ℕ
second = 1000000000

-- An error chain: any error without a cause, a tdlib.Error with its code, fmt.Errorf with %w, and the
-- wrappers *FloodWaitError, *RetryError and *PermanentError.
pub data Error : Type 0 where
  plain : Error
  tdlib_error : ℕ → Error
  wrapped : Error → Error
  flood_wait : ℕ → Error → Error
  retry_error : ℕ → Error → Error
  permanent_error : Error → Error

-- RetryAfter
unfoldable pub retry_after : ℕ → Error → Error
retry_after after e = retry_error (if ltb after second then second else after) e

-- errors.As(err, &retry): the first *RetryError of the chain
abbrev pub find_retry : Error → Option ℕ
find_retry plain = none
find_retry (tdlib_error code) = none
find_retry (flood_wait d e) = find_retry e
find_retry (wrapped e) = find_retry e
find_retry (retry_error after e) = some after
find_retry (permanent_error e) = find_retry e

-- RetryDelay
unfoldable pub retry_delay : Error → Option ℕ
retry_delay e = elim (find_retry e) [
  | none ↦ none
  | some after ↦ if after == 0 then none else some after
]

-- IsPermanent
unfoldable pub is_permanent : Error → Bool
is_permanent plain = false
is_permanent (tdlib_error code) = false
is_permanent (flood_wait d e) = is_permanent e
is_permanent (wrapped e) = is_permanent e
is_permanent (retry_error after e) = is_permanent e
is_permanent (permanent_error e) = true

pub data Action : Type 0 where
  ack_success : Action
  ack_retry : ℕ → Action
  ack_terminate : Action

abbrev pub generic_retry_delay : ℕ
generic_retry_delay = 15000000000

-- `disposition`, whose action and delay are one value here; `none` is a nil error.
unfoldable pub disposition : Option Error → Action
disposition none = ack_success
disposition (some e) =
    if is_permanent e
    then ack_terminate
    else elim (retry_delay e) [ none ↦ ack_retry generic_retry_delay | some d ↦ ack_retry d ]

-- `termReason` on the bytes of the trimmed error text: at most 240 of them.
unfoldable pub term_reason : List ℕ → List ℕ → List ℕ
term_reason default [] = default
term_reason default (b ∷ bs) = take 240 (b ∷ bs)

-- NewRunner: the number of workers, `none` where it is refused
unfoldable pub runner_workers : ℕ → Option ℕ
runner_workers n = let count = if n == 0 then 8 else n in if ltb 128 count then none else some count

-- internal/worker/synclease.go, failSync: the error that a sync handler returns for a cause, after
-- Fail has answered. Where it fails, the cause is only printed (%v) and Fail's error is wrapped,
-- which has no error type of this package.
unfoldable pub fail_sync : Option SyncError → Error → Error
fail_sync none cause = cause
fail_sync (some e) cause = wrapped plain

pub data Kind : Type 0 where
  account_bootstrap contacts_sync chat_history chat_members media_download : Kind

unfoldable pub kind_of : String → Option Kind
kind_of s =
    if text_eq s "account.bootstrap"
    then some account_bootstrap
    else if text_eq s "contacts.sync"
    then some contacts_sync
    else if text_eq s "chat.history"
    then some chat_history
    else if text_eq s "chat.members"
    then some chat_members
    else if text_eq s "media.download"
    then some media_download
    else none

-- SubjectFor
unfoldable pub subject_for : Kind → String
subject_for account_bootstrap = "telegram.sync.account"
subject_for contacts_sync = "telegram.sync.contacts"
subject_for chat_history = "telegram.sync.chat"
subject_for chat_members = "telegram.sync.members"
subject_for media_download = "telegram.media.download"

pub record Envelope : Type 0 where
  pub version : ℕ
  pub job_id : String
  pub kind : String
  pub account_id : String
  pub payload : List ℕ

abbrev is_some : Option Kind → Bool
is_some none = false
is_some (some k) = true

abbrev pub is_nil : List ℕ → Bool
is_nil [] = true
is_nil (b ∷ bs) = false

-- Validate
unfoldable pub is_valid : Envelope → Bool
is_valid e =
    e.version == 1
    && (not (is_empty (trim_space e.job_id))
        && (is_some (kind_of e.kind)
            && (not (is_empty (trim_space e.account_id)) && not (is_nil e.payload))))

-- accounts.GetActive
pub data AccountLookup : Type 0 where
  active missing lookup_failed : AccountLookup

-- `Handle`: `decodes` is json.Unmarshal of the payload, and `work` the handler of each kind.
unfoldable pub handle :
    (Kind → List ℕ → Bool)
    → (Kind → Envelope → Option Error)
    → AccountLookup
    → Envelope
    → Option Error
handle decodes work account e =
    if not (is_valid e) then some (permanent_error plain) else elim account [
      | missing ↦ some (permanent_error plain)
      | lookup_failed ↦ some plain
      | active ↦ elim (kind_of e.kind) [
        | none ↦ some (permanent_error plain)
        | some k ↦ if decodes k e.payload then work k e else some (permanent_error plain)
      ]
    ]

-- `processMessage`: `parsed` is json.Unmarshal of the message
unfoldable pub process_message :
    (Kind → List ℕ → Bool)
    → (Kind → Envelope → Option Error)
    → AccountLookup
    → Option Envelope
    → Action
process_message decodes work account none = ack_terminate
process_message decodes work account (some e) =
    if not (is_valid e) then ack_terminate else disposition (handle decodes work account e)

-- minimumRetry
unfoldable pub minimum_retry : ℕ → ℕ
minimum_retry d = if ltb d second then second else d

-- What the limiter answers: a failure, or a value.
pub data Reading (A : Type 0) : Type 0 where
  reading_failed : Reading A
  reading : A → Reading A

-- `allowed` or the time to wait.
pub data Permit : Type 0 where
  permitted : Permit
  denied : ℕ → Permit

abbrev apply_limit : Reading Permit → Option Error → Option Error
apply_limit reading_failed rest = some (wrapped plain)
apply_limit (reading permitted) rest = rest
apply_limit (reading (denied d)) rest = some (retry_after (minimum_retry d) plain)

-- `beforeTelegram`
unfoldable pub before_telegram : Reading ℕ → Reading Permit → Reading Permit → Option Error
before_telegram reading_failed account method = some (wrapped plain)
before_telegram (reading cooldown) account method =
    if not (cooldown == 0)
    then some (retry_after cooldown plain)
    else apply_limit account (apply_limit method none)

abbrev find_flood : Error → Option ℕ
find_flood plain = none
find_flood (tdlib_error code) = none
find_flood (flood_wait d e) = some d
find_flood (wrapped e) = find_flood e
find_flood (retry_error after e) = find_flood e
find_flood (permanent_error e) = find_flood e

-- telegram.AsFloodWait
unfoldable pub as_flood_wait : Error → Option ℕ
as_flood_wait e = elim (find_flood e) [ none ↦ none | some d ↦ if d == 0 then none else some d ]

-- errors.As(err, &tdErr)
abbrev pub as_tdlib : Error → Option ℕ
as_tdlib plain = none
as_tdlib (tdlib_error code) = some code
as_tdlib (flood_wait d e) = as_tdlib e
as_tdlib (wrapped e) = as_tdlib e
as_tdlib (retry_error after e) = as_tdlib e
as_tdlib (permanent_error e) = as_tdlib e

abbrev pub is_client_code : Option ℕ → Bool
is_client_code none = false
is_client_code (some code) = code == 400 || (code == 403 || code == 404)

-- `telegramError`: `set_cooldown` is SetAccountCooldown, `none` where it fails, whose error is the
-- one that is wrapped then.
unfoldable pub telegram_error : (ℕ → Option ℕ) → Error → Error
telegram_error set_cooldown e = elim (as_flood_wait e) [
  | some d ↦ elim (set_cooldown (d + second)) [
    | none ↦ wrapped plain
    | some stored ↦ retry_after stored e
  ]
  | none ↦ if is_client_code (as_tdlib e) then permanent_error e else e
]
