-- ===== src/Examples/Media.antt =====
-- Media downloads at concrete inputs.
use telegram_gateway.Base.{
  ◌≡◌, ◌≤◌, ◌⊎◌, refl, true, false, Option, none, some, [], ◌∷◌, List, ℕ, inl, inr, ◌+◌, ◌*◌, ◌/◌,
  length, take, arith, find_row, trim_space, count_where, text_eq, if◌then◌else◌, String,
}
use telegram_gateway.Base.Handler.{World, go, ◌>>=◌}
use telegram_gateway.Worker.{Error}
use telegram_gateway.Media.Repository.{
  MediaRow, MediaDb, pending, ready, is_ready, runs, has_media, claim_download_recoverable,
  mark_failed, get_active,
}
use telegram_gateway.Media.Changes.{MediaWrites, no_writes, then_recover, then_mark_failed}
use telegram_gateway.Media.Claims.{Bounded, attempts_within_cap, ready_media_stays}
use telegram_gateway.Media.Exclusive.{WhileRunning, claim_excludes}
use telegram_gateway.Media.Service.{object_key, create_read_url, text_of}
use telegram_gateway.Media.Keys.{object_key_distinct}
use telegram_gateway.Media.Readable.{Readable, media_read_sound}
use telegram_gateway.Media.Preview.{Picture, Decoded, image_preview, max_image_bytes}
use telegram_gateway.Media.Preview.Limits.{Shrunk, preview_bounded}
use telegram_gateway.Media.Download.{MediaJob, Session, found, handle_media_download}
use telegram_gateway.Media.Results.{quiet}
use telegram_gateway.Media.Settled.{media_job_settles}

abbrev waiting : MediaRow
waiting = record {
  id = "f";
  message_id = "m";
  media_type = "photo";
  telegram_file_id = some 3;
  unique_file_key = none;
  object_key = none;
  mime_type = none;
  file_name = none;
  file_size = none;
  sha256 = none;
  status = pending;
  attempt_count = 0;
  last_attempt_at = none;
  downloaded_at = none;
  last_error = none;
}

abbrev stored : MediaRow
stored = record waiting {
  id = "g";
  object_key = some "accounts/a/media/g";
  status = ready;
  sha256 = some 5;
}

abbrev db : MediaDb
db = record {
  media = waiting ∷ stored ∷ [];
  sources = record { id = "m"; account_id = "a"; active = true } ∷ [];
}

abbrev claimed_once : World MediaDb
claimed_once = (claim_download_recoverable 100 "f" 5 (quiet db)).1

abbrev claimed_and_failed : World MediaDb
claimed_and_failed = (mark_failed "f" (b'x' ∷ []) claimed_once).1

writes : MediaWrites 5 (quiet db) claimed_and_failed
writes =
    then_mark_failed claimed_once "f" (b'x' ∷ [])
      (then_recover (quiet db) 100 "f" 5 (omega arith) no_writes)

attempts_within_cap_example : Bounded 5 claimed_and_failed.db.media
attempts_within_cap_example =
    attempts_within_cap 5 (quiet db) claimed_and_failed writes (omega arith, (omega arith, tt))

ready_media_stays_example :
    (s : MediaRow) × (find_row (has_media "g") claimed_and_failed.db.media ≡ some s)
    × (is_ready s.status ≡ true)
    × (s.object_key ≡ some "accounts/a/media/g")
    × (s.sha256 ≡ some 5)
    × (s.attempt_count ≡ 0)
ready_media_stays_example =
    ready_media_stays 5 "g" stored (quiet db) claimed_and_failed refl refl writes

after_claim : World MediaDb
after_claim = (claim_download_recoverable 100 "f" 5 (quiet db)).1

first_claim : claim_download_recoverable 100 "f" 5 (quiet db) ≡ (go true, after_claim)
unfolding claim_download_recoverable trim_space after_claim ◌>>=◌
first_claim = refl

after_other : World MediaDb
after_other = (mark_failed "g" (b'x' ∷ []) after_claim).1

after_second : World MediaDb
after_second = (claim_download_recoverable 200 "f" 9 after_other).1

second_claim : claim_download_recoverable 200 "f" 9 after_other ≡ (go false, after_second)
unfolding claim_download_recoverable mark_failed trim_space after_claim after_other after_second
    ◌>>=◌
second_claim = refl

between : WhileRunning (trim_space "f") 100 after_claim after_other
unfolding after_other trim_space
between = WhileRunning.then_mark_failed after_claim "g" (b'x' ∷ []) refl WhileRunning.nothing

one_row : count_where (has_media (trim_space "f")) db.media ≤ 1
unfolding trim_space
one_row = omega arith

row_there : find_row (has_media (trim_space "f")) db.media ≡ some waiting
unfolding trim_space
row_there = refl

claim_excludes_example : false ≡ false
claim_excludes_example =
    claim_excludes 100 200 "f" 5 9 false (quiet db) after_claim after_other after_second one_row
      first_claim between (omega arith) second_claim

key_given : object_key " a" "f" ≡ go "accounts/a/media/f"
unfolding object_key trim_space
key_given = refl

key_again : object_key "a" "f " ≡ go "accounts/a/media/f"
unfolding object_key trim_space
key_again = refl

object_key_distinct_example :
    (trim_space " a" ≡ trim_space "a") × (trim_space "f" ≡ trim_space "f ")
object_key_distinct_example =
    object_key_distinct " a" "a" "f" "f " "accounts/a/media/f" key_given key_again

abbrev job : MediaJob
job = record { account_id = "a"; media_id = "f"; message_id = "m"; telegram_file_id = 3 }

abbrev no_error : Option Error
no_error = none

abbrev session : Session
session = record {
  before = no_error;
  opened = no_error;
  resolves = true;
  source = found;
  resolved = no_error;
  downloaded = inr (record {
    has_reader = true;
    size = some 10;
    content_type = "image/png";
    digest = 7;
    put = true;
  });
  audited = no_error;
}

media_job_settles_example :
    (e : MediaDb) × (q : MediaRow) × ((handle_media_download
        (λ d. some d)
        (λ x. [])
        100
        job
        session
        (quiet db)).1
      ≡ quiet e)
    × (find_row (has_media (trim_space "f")) e.media ≡ some q)
    × ((runs q.status ≡ false) ⊎ (q ≡ waiting))
media_job_settles_example =
    media_job_settles (λ d. some d) (λ x. []) 100 job session db waiting one_row row_there

abbrev link : String → String → Option String
link key name = if text_eq key "accounts/a/media/g" then some "url" else none

abbrev objects : String → Option (ℕ × String)
objects key = none

given : create_read_url 100 link "a" "g" (quiet db) ≡ (go ("url", 300000100), quiet db)
unfolding create_read_url get_active trim_space ◌>>=◌
given = refl

media_read_sound_example :
    (b : Readable db "a" "g") × ((link b.key (text_of b.row.file_name) ≡ some "url")
      ⊎ (objects b.key ≡ some (0, "")))
media_read_sound_example =
    media_read_sound 100 link objects "a" "g" "url" 300000100 (0, "", "") (quiet db) (quiet db)
      (quiet db) (inl given)

abbrev picture_bytes : List ℕ
picture_bytes = 7 ∷ []

abbrev size_of : List ℕ → Option (ℕ × ℕ)
size_of b = some (2560, 10)

abbrev colours_of : List ℕ → Option (Decoded ℕ)
colours_of b = some (record { min_x = 3; min_y = 4; dx = 2560; dy = 10; at = λ x y. x + y })

abbrev preview : Picture ℕ
preview = record { width = 1280; height = 5; at = λ x y. 3 + x * 2560 / 1280 + (4 + y * 10 / 5) }

previewed : image_preview ℕ size_of colours_of (some picture_bytes) ≡ go preview
unfolding image_preview
previewed = refl

preview_bounded_example :
    (length (take (max_image_bytes + 1) picture_bytes) ≤ max_image_bytes)
    × Shrunk ℕ
        (size_of (take (max_image_bytes + 1) picture_bytes))
        (colours_of (take (max_image_bytes + 1) picture_bytes))
        preview
preview_bounded_example = preview_bounded ℕ size_of colours_of picture_bytes preview previewed
