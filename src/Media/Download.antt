-- ===== src/Media/Download.antt =====
-- internal/worker/media.go: the handler of a media job. What it asks of other parts is what they
-- answer (`Session`): beforeTelegram, the session, the file's resolver, the download and the audit;
-- `text` is the text of an error. The outcome is the error that the handler returns, `none` for nil.
use telegram_gateway.Base.{
  ℕ, String, Bool, true, false, Option, none, some, List, ◌⊎◌, inl, inr, ◌||◌, ◌==◌, ◌*◌, leb, not,
  is_empty, text_eq, if◌then◌else◌,
}
use telegram_gateway.Base.Options.{option_map}
use telegram_gateway.Base.Handler.{
  Outcome, reply, go, Handler, ◌>>=◌, ◌>>◌, stop_if, pure, respond, call, within,
}
use telegram_gateway.Schema.{Time}
use telegram_gateway.Worker.{
  Error, plain, wrapped, permanent_error, second, retry_after, telegram_error,
}
use telegram_gateway.Media.Repository.{
  DownloadStatus, skipped, MediaRow, MediaDb, MediaError, is_null, is_ready, get_for_worker,
  claim_download_recoverable, mark_failed,
}
use telegram_gateway.Media.Service.{Content, store_download}

-- MediaDownloadPayload, with the account of the envelope
pub record MediaJob : Type 0 where
  pub account_id : String
  pub media_id : String
  pub message_id : String
  pub telegram_file_id : ℕ

-- DownloadSource: the message's ids, no rows, or another error
pub data SourceResult : Type 0 where
  found no_source : SourceResult
  source_error : Error → SourceResult

pub record Session : Type 0 where
  pub before : Option Error
  pub opened : Option Error
  -- whether the session resolves files by their message
  pub resolves : Bool
  pub source : SourceResult
  pub resolved : Option Error
  pub downloaded : Error ⊎ Content
  pub audited : Option Error

abbrev pub JobHandler : Type 0 → Type 0
JobHandler A = Handler (Option Error) MediaDb A

abbrev pub max_media_download_attempts : ℕ
max_media_download_attempts = 5

abbrev pub is_skipped : DownloadStatus → Bool
is_skipped skipped = true
is_skipped _ = false

-- if err != nil { return err }
abbrev pub unless_error : Option Error → JobHandler (Unit {0})
unless_error none = pure tt
unless_error (some e) = respond (some e)

abbrev pub permanent : Option Error
permanent = some (permanent_error plain)

abbrev pub database_failure : {A : Type 0} → Handler MediaError MediaDb A → JobHandler A
database_failure {A} m = within (λ e. some plain) m

-- the outcome where another worker has the claim
abbrev pub contested : Outcome MediaError MediaRow → Option Error
contested (reply e) = some (retry_after (30 * second) plain)
contested (go latest) =
    if is_ready latest.status
    then none
    else if leb max_media_download_attempts latest.attempt_count
    then permanent
    else some (retry_after (30 * second) plain)

module _ (set_cooldown : ℕ → Option ℕ) (text : Error → List ℕ) (now : Time) where
  -- _ = MarkFailed(id, err); return err
  unfoldable pub fail_with : String → Error → JobHandler (Unit {0})
  fail_with id e = call (mark_failed id (text e)) >> respond (some e)

  -- what StoreDownload returned
  abbrev pub after_store :
      String → Option Error → Outcome MediaError (Unit {0}) → JobHandler (Unit {0})
  after_store id audited (reply e) = fail_with id (wrapped plain)
  after_store id audited (go done) = respond audited

  unfoldable pub store : MediaJob → Option Error → Content → JobHandler (Unit {0})
  store job audited c =
      if not c.has_reader || is_null c.size
      then fail_with job.media_id plain
      else call (store_download now (text plain) job.account_id job.media_id c)
        >>= after_store job.media_id audited

  abbrev pub fetched : MediaJob → Option Error → Error ⊎ Content → JobHandler (Unit {0})
  fetched job audited (inl e) = fail_with job.media_id (telegram_error set_cooldown e)
  fetched job audited (inr c) = store job audited c

  abbrev pub resolve : MediaJob → Session → Option Error → String → JobHandler (Unit {0})
  resolve job s none id = fetched job s.audited s.downloaded
  resolve job s (some e) id = fail_with id (telegram_error set_cooldown e)

  abbrev pub with_source : MediaJob → Session → SourceResult → String → JobHandler (Unit {0})
  with_source job s found id = resolve job s s.resolved id
  with_source job s no_source id = fail_with id (permanent_error plain)
  with_source job s (source_error e) id = fail_with id e

  -- the part of the worker that has the claim
  abbrev pub download : MediaJob → Session → String → JobHandler (Unit {0})
  download job s id =
      if s.resolves then with_source job s s.source id else fetched job s.audited s.downloaded

  abbrev pub with_claim : MediaJob → Session → String → Bool → JobHandler (Unit {0})
  with_claim job s id true = download job s id
  with_claim job s id false =
      call (get_for_worker job.account_id job.media_id) >>= λ latest. respond (contested latest)

  -- handleMediaDownload
  unfoldable pub handle_media_download : MediaJob → Session → JobHandler (Unit {0})
  handle_media_download job s = do
    stop_if (is_empty job.media_id || is_empty job.message_id || job.telegram_file_id == 0)
        permanent
    item ← database_failure (get_for_worker job.account_id job.media_id)
    stop_if (not (text_eq item.message_id job.message_id)) permanent
    stop_if (is_null item.telegram_file_id) permanent
    stop_if (is_ready item.status) none
    stop_if (is_skipped item.status) permanent
    stop_if (leb max_media_download_attempts item.attempt_count) permanent
    unless_error s.before
    unless_error (option_map (retry_after (10 * second)) s.opened)
    claimed ←
        database_failure (claim_download_recoverable now job.media_id max_media_download_attempts)
    with_claim job s item.id claimed
