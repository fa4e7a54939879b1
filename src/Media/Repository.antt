-- ===== src/Media/Repository.antt =====
-- internal/media/repository.go and claim.go: the table message_media and its statements. A timestamp
-- is a number of microseconds, an error's text its UTF-8 bytes, a SHA-256 digest a number, and a size
-- `none` where the source's number is negative. `now` is NOW(), `id` what gen_random_uuid() returns.
use telegram_gateway.Base.{
  ℕ, String, Bool, true, false, Option, none, some, List, [], ◌∷◌, ◌++◌, ◌&&◌, ◌||◌, ◌==◌, ◌+◌, leb,
  ltb, is_empty, text_eq, trim_space, if◌then◌else◌, find_row, any_row, update_where, count_where,
  take, not, ◌*◌,
}
use telegram_gateway.Base.Handler.{Handler, ◌>>=◌, ◌>>◌, query, expect, stop_if}
use telegram_gateway.Schema.{Time, Digest, minute}

pub data DownloadStatus : Type 0 where
  pending downloading ready failed skipped : DownloadStatus

-- a row of message_media (Item, less what it takes from the message)
pub record MediaRow : Type 0 where
  pub id : String
  pub message_id : String
  pub media_type : String
  pub telegram_file_id : Option ℕ
  pub unique_file_key : Option String
  pub object_key : Option String
  pub mime_type : Option String
  pub file_name : Option String
  pub file_size : Option ℕ
  pub sha256 : Option Digest
  pub status : DownloadStatus
  pub attempt_count : ℕ
  pub last_attempt_at : Option Time
  pub downloaded_at : Option Time
  pub last_error : Option (List ℕ)

-- what is read of a message: its account, and whether active_messages shows it
pub record Source : Type 0 where
  pub id : String
  pub account_id : String
  pub active : Bool

pub record MediaDb : Type 0 where
  pub media : List MediaRow
  pub sources : List Source

pub data MediaError : Type 0 where
  missing_id negative_size not_downloading no_rows not_ready database_error : MediaError
  no_reader store_error link_error invalid_identifier : MediaError

abbrev pub is_blank : String → Bool
is_blank s = is_empty (trim_space s)

-- trimOptional
abbrev pub trim_optional : Option String → Option String
trim_optional none = none
trim_optional (some s) = let t = trim_space s in if is_empty t then none else some t

abbrev option_eq : Option String → Option String → Bool
option_eq (some a) (some b) = text_eq a b
option_eq _ _ = false

abbrev file_eq : Option ℕ → Option ℕ → Bool
file_eq (some a) (some b) = a == b
file_eq _ _ = false

abbrev pub is_null : {A : Type 0} → Option A → Bool
is_null {A} none = true
is_null {A} (some a) = false

abbrev or_kept : {A : Type 0} → Option A → Option A → Option A
or_kept {A} none old = old
or_kept {A} (some a) old = some a

-- the unique index of the row: on the file key, or on the file id where there is no key
abbrev pub conflicts : MediaRow → MediaRow → Bool
conflicts new r =
    text_eq r.message_id new.message_id
    && (text_eq r.media_type new.media_type
        && (if is_null new.unique_file_key
            then is_null r.unique_file_key && file_eq r.telegram_file_id new.telegram_file_id
            else option_eq r.unique_file_key new.unique_file_key))

-- DO UPDATE SET …
abbrev pub refreshed : MediaRow → MediaRow → MediaRow
refreshed new r = record r {
  telegram_file_id = new.telegram_file_id;
  unique_file_key = or_kept new.unique_file_key r.unique_file_key;
  mime_type = or_kept new.mime_type r.mime_type;
  file_name = or_kept new.file_name r.file_name;
  file_size = or_kept new.file_size r.file_size;
}

-- ON CONFLICT: with a file id the INSERT updates the row `r` that it conflicts with, without one it
-- fails there.
abbrev pub insert_or : MediaRow → MediaDb → Option MediaRow → Option String × MediaDb
insert_or new db none = (some new.id, record db { media = db.media ++ (new ∷ []) })
insert_or new db (some r) =
    if is_null new.telegram_file_id
    then (none, db)
    else (some r.id, record db { media = update_where (conflicts new) (refreshed new) db.media })

unfoldable pub insert_media : MediaRow → MediaDb → Option String × MediaDb
insert_media new db = insert_or new db (find_row (conflicts new) db.media)

-- the row that RegisterPending writes: 'pending' with a file id, 'skipped' without
abbrev pub new_media :
    String
    → String
    → String
    → Option ℕ
    → Option String
    → Option String
    → Option String
    → Option ℕ
    → MediaRow
new_media id message kind file key mime name size = record {
  id = id;
  message_id = message;
  media_type = kind;
  telegram_file_id = file;
  unique_file_key = trim_optional key;
  object_key = none;
  mime_type = trim_optional mime;
  file_name = trim_optional name;
  file_size = size;
  sha256 = none;
  status = if is_null file then skipped else pending;
  attempt_count = 0;
  last_attempt_at = none;
  downloaded_at = none;
  last_error = none;
}

-- RegisterPending: the size `some none` is a negative number
unfoldable pub register_pending :
    String
    → String
    → String
    → Option ℕ
    → Option String
    → Option String
    → Option String
    → Option (Option ℕ)
    → Handler MediaError MediaDb String
register_pending id message_id media_type file key mime name size = do
  let message = trim_space message_id
  let kind = trim_space media_type
  stop_if (is_empty message || is_empty kind) missing_id
  bytes ←
      expect negative_size
        (elim size [ none ↦ some none | some n ↦ elim n [ none ↦ none | some b ↦ some (some b) ] ])
  stored ← query database_error (insert_media (new_media id message kind file key mime name bytes))
  expect database_error stored

abbrev pub has_media : String → MediaRow → Bool
has_media id r = text_eq r.id id

abbrev pub waits : DownloadStatus → Bool
waits pending = true
waits failed = true
waits _ = false

abbrev pub runs : DownloadStatus → Bool
runs downloading = true
runs _ = false

abbrev pub is_ready : DownloadStatus → Bool
is_ready ready = true
is_ready _ = false

-- staleDownloadAfter
abbrev pub stale_download_after : Time
stale_download_after = 15 * minute

abbrev pub is_stale : Time → Option Time → Bool
is_stale now none = false
is_stale now (some t) = leb (t + stale_download_after) now

abbrev pub attempts_limit : ℕ → ℕ
attempts_limit max_attempts = if max_attempts == 0 then 5 else max_attempts

abbrev pub claimed_row : Time → MediaRow → MediaRow
claimed_row now r = record r {
  status = downloading;
  attempt_count = r.attempt_count + 1;
  last_attempt_at = some now;
  last_error = none;
}

-- UPDATE … WHERE p: whether it changed one row (RowsAffected() == 1)
abbrev pub update_one : (MediaRow → Bool) → (MediaRow → MediaRow) → MediaDb → Bool × MediaDb
update_one p f db = (count_where p db.media == 1, record db { media = update_where p f db.media })

-- the condition of ClaimDownload
abbrev pub claimable : String → ℕ → MediaRow → Bool
claimable id limit r = has_media id r && (waits r.status && ltb r.attempt_count limit)

-- the condition of ClaimDownloadRecoverable
abbrev pub recoverable : Time → String → ℕ → MediaRow → Bool
recoverable now id limit r =
    has_media id r
    && (ltb r.attempt_count limit
        && (waits r.status || (runs r.status && is_stale now r.last_attempt_at)))

-- ClaimDownload; a limit that is not positive is 0 here
unfoldable pub claim_download : Time → String → ℕ → Handler MediaError MediaDb Bool
claim_download now id max_attempts =
    query database_error
      (update_one (claimable (trim_space id) (attempts_limit max_attempts)) (claimed_row now))

-- ClaimDownloadRecoverable
unfoldable pub claim_download_recoverable : Time → String → ℕ → Handler MediaError MediaDb Bool
claim_download_recoverable now id max_attempts =
    query database_error
      (update_one (recoverable now (trim_space id) (attempts_limit max_attempts)) (claimed_row now))

abbrev pub ready_row : Time → String → String → ℕ → Digest → MediaRow → MediaRow
ready_row now key mime size digest r = record r {
  object_key = some key;
  mime_type = or_kept (trim_optional (some mime)) r.mime_type;
  file_size = some size;
  sha256 = some digest;
  status = ready;
  downloaded_at = some now;
  last_error = none;
}

abbrev pub owned : String → MediaRow → Bool
owned id r = has_media id r && runs r.status

-- an UPDATE, and whether it changed a row (RowsAffected() != 0)
abbrev pub update_any : (MediaRow → Bool) → (MediaRow → MediaRow) → MediaDb → Bool × MediaDb
update_any p f db = (any_row p db.media, record db { media = update_where p f db.media })

unfoldable pub mark_ready :
    Time → String → String → String → Option ℕ → Digest → Handler MediaError MediaDb (Unit {0})
mark_ready now media_id object_key mime size digest = do
  let id = trim_space media_id
  let key = trim_space object_key
  stop_if (is_empty id || is_empty key) missing_id
  bytes ← expect negative_size size
  changed ← query database_error (update_any (owned id) (ready_row now key mime bytes digest))
  stop_if (not changed) not_downloading

abbrev pub failed_row : List ℕ → MediaRow → MediaRow
failed_row message r = record r { status = failed; last_error = some (take 4000 message) }

-- MarkFailed: `message` is the text of the cause, or "media download failed"
unfoldable pub mark_failed : String → List ℕ → Handler MediaError MediaDb (Unit {0})
mark_failed media_id message = do
  changed ← query database_error (update_any (owned (trim_space media_id)) (failed_row message))
  stop_if (not changed) no_rows

-- the media of the account's messages
abbrev pub of_account : MediaDb → String → String → MediaRow → Bool
of_account db account id r =
    has_media id r
    && any_row (λ s. text_eq s.id r.message_id && text_eq s.account_id account) db.sources

-- active_message_media
abbrev pub of_active : MediaDb → String → String → MediaRow → Bool
of_active db account id r =
    has_media id r
    && any_row (λ s. text_eq s.id r.message_id && (text_eq s.account_id account && s.active))
        db.sources

unfoldable pub get_for_worker : String → String → Handler MediaError MediaDb MediaRow
get_for_worker account id = do
  row ←
      query database_error
        (λ db. (find_row (of_account db (trim_space account) (trim_space id)) db.media, db))
  expect no_rows row

unfoldable pub get_active : String → String → Handler MediaError MediaDb MediaRow
get_active account id = do
  row ←
      query database_error
        (λ db. (find_row (of_active db (trim_space account) (trim_space id)) db.media, db))
  expect no_rows row
