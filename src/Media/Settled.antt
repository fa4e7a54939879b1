-- ===== src/Media/Settled.antt =====
-- How a media job leaves its row (internal/worker/media.go).
use telegram_gateway.Base.{
  ℕ, String, ◌≡◌, refl, ap, ◌∙◌, Bool, true, false, Option, none, some, ◌&&◌, ◌||◌, ◌==◌, ◌≤◌, ◌<◌,
  Memᴰ, find_row_mem, ltb, ◌⊎◌, inl, inr, List, [], ◌∷◌, arith, Bool-cases, Option-cases, find_row,
  find_row_sound, eq_iff, count_where, if◌then◌else◌, trim_space, trim_space_idem,
}
use telegram_gateway.Base.Keyed.{find_row-update_where}
use telegram_gateway.Base.Handler.{World, ◌>>=◌, stop_if, expect}
use telegram_gateway.Schema.{Time}
use telegram_gateway.Worker.{Error}
use telegram_gateway.Media.Repository.{
  MediaRow, MediaDb, MediaError, update_one, recoverable, claimed_row, attempts_limit, waits,
  is_stale, of_account, get_for_worker, claim_download_recoverable, no_rows, has_media, runs,
}
use telegram_gateway.Media.Download.{
  MediaJob, Session, max_media_download_attempts, JobHandler, database_failure, with_claim,
  unless_error, handle_media_download,
}
use telegram_gateway.Media.Results.{quiet, Idle, Leaves}
use telegram_gateway.Media.Downloaded.{download-Leaves}

expect-world : (R A : Type 0) (r : R) (o : Option A) (w : World MediaDb) → (expect r o w).1 ≡ w
unfolding expect
expect-world R A r none w = refl
expect-world R A r (some a) w = refl

count_where_mem :
    (p : MediaRow → Bool) (a : MediaRow) (rows : List MediaRow)
    → Memᴰ a rows
    → p a ≡ true
    → 0 < count_where p rows
count_where_mem p a [] m h = elim m [ ]
count_where_mem p a (x ∷ rows) (Memᴰ.head e) h = ground (arith, ap p e)
count_where_mem p a (x ∷ rows) (Memᴰ.tail m) h = ground (arith, count_where_mem p a rows m h)

count_where_both :
    (p q : MediaRow → Bool) (rows : List MediaRow)
    → count_where (λ r. p r && q r) rows ≤ count_where p rows
count_where_both p q [] = omega arith
count_where_both p q (x ∷ rows) = ground (arith, count_where_both p q rows)

module _ (set_cooldown : ℕ → Option ℕ) (text : Error → List ℕ) (now : Time) (id : String)
    (job : MediaJob) (named : trim_space job.media_id ≡ id) where
  count_where_claims :
      (d : MediaDb)
      → count_where (has_media id) d.media ≤ 1
      → count_where
          (recoverable now (trim_space job.media_id) (attempts_limit max_media_download_attempts))
          d.media
        ≤ 1
  count_where_claims d one =
      let free : MediaRow → Bool = λ r.
        ltb r.attempt_count (attempts_limit max_media_download_attempts)
        && (waits r.status || (runs r.status && is_stale now r.last_attempt_at)) in
      rw named (omega (arith, one, count_where_both (has_media id) free d.media))

  not_claimed :
      (d : MediaDb) (r : MediaRow) (p : MediaRow → Bool)
      → count_where p d.media ≤ 1
      → (count_where p d.media == 1) ≡ false
      → find_row (has_media id) d.media ≡ some r
      → p r ≡ false
  not_claimed d r p one c here = elim (Bool-cases (p r)) [
    | inl e ↦ absurd (
        ground
          (arith, one, c, count_where_mem p r d.media (find_row_mem (has_media id) d.media here) e))
    | inr e ↦ e
  ]

  -- The row of the job has no running download, or is as it was.
  abbrev SettledFrom : MediaRow → MediaDb → Type 0
  SettledFrom r e =
      (s : MediaRow) × (find_row (has_media id) e.media ≡ some s)
      × ((runs s.status ≡ false) ⊎ (s ≡ r))

  Idle-SettledFrom : (r : MediaRow) (e : MediaDb) → Idle id e → SettledFrom r e
  Idle-SettledFrom r e (s, here, stopped) = (s, here, inl stopped)

  abbrev claim_on : MediaDb → MediaDb
  claim_on d =
      (update_one
        (recoverable now (trim_space job.media_id) (attempts_limit max_media_download_attempts))
        (claimed_row now) d).1

  with_claim-Leaves :
      (s : Session) (item : String) (d : MediaDb) (r : MediaRow)
      → trim_space item ≡ id
      → count_where (has_media id) d.media ≤ 1
      → find_row (has_media id) d.media ≡ some r
      → Leaves
          (SettledFrom r)
          (with_claim set_cooldown text now job s item
            (update_one
              (recoverable now
                (trim_space job.media_id)
                (attempts_limit max_media_download_attempts))
              (claimed_row now)
              d).0)
          (claim_on d)
  unfolding get_for_worker ◌>>=◌
  with_claim-Leaves s item d r t one here =
      let claims : MediaRow → Bool =
        recoverable now (trim_space job.media_id) (attempts_limit max_media_download_attempts) in
      let row : find_row (has_media id) (claim_on d).media
          ≡ some (if claims r then claimed_row now r else r) =
        find_row-update_where claims (has_media id) (claimed_row now) d.media r (λ a. refl) here in
      elim (Bool-cases (count_where claims d.media == 1)) [
        | inl c ↦ rw c (
            let (e, run, idle) =
              download-Leaves set_cooldown text now id job named s item (claim_on d) t
                ((if claims r then claimed_row now r else r), row) in
            (e, run, Idle-SettledFrom r e idle))
        | inr c ↦ rw c (
          claim_on d,
          expect-world MediaError MediaRow no_rows _ (quiet (claim_on d)),
          (r, row ∙ rw (not_claimed d r claims (count_where_claims d one) c here) refl, inr refl),
        )
      ]

  unless_error-Leaves :
      (P : MediaDb → Type 0) (o : Option Error) (f : Unit {0} → JobHandler (Unit {0})) (d : MediaDb)
      → P d
      → Leaves P (f tt) d
      → Leaves P (unless_error o >>= f) d
  unfolding ◌>>=◌
  unless_error-Leaves P none f d p l = l
  unless_error-Leaves P (some e) f d p l = (d, refl, p)

  stop_if-Leaves :
      (P : MediaDb → Type 0) (b : Bool) (x : Option Error) (f : Unit {0} → JobHandler (Unit {0}))
      (d : MediaDb)
      → P d
      → Leaves P (f tt) d
      → Leaves P (stop_if b x >>= f) d
  unfolding ◌>>=◌
  stop_if-Leaves P true x f d p l = (d, refl, p)
  stop_if-Leaves P false x f d p l = l

  get_for_worker-Leaves :
      (P : MediaDb → Type 0) (f : MediaRow → JobHandler (Unit {0})) (d : MediaDb)
      → P d
      → ((item : MediaRow) → trim_space item.id ≡ id → Leaves P (f item) d)
      → Leaves P (database_failure (get_for_worker job.account_id job.media_id) >>= f) d
  unfolding get_for_worker ◌>>=◌
  get_for_worker-Leaves P f d p l =
      elim (Option-cases
        (find_row (of_account d (trim_space job.account_id) (trim_space job.media_id)) d.media)) [
          | inl e ↦ rw e (d, refl, p)
          | inr (item, e) ↦ rw e (
              l item (
                ap trim_space (
                  (eq_iff item.id (trim_space job.media_id)).0 (
                    ground (
                      arith,
                      find_row_sound
                          (of_account d (trim_space job.account_id) (trim_space job.media_id))
                          d.media {a = item} e,
                    )))
                ∙ trim_space_idem job.media_id
                ∙ named))
        ]

  claim-Leaves :
      (P : MediaDb → Type 0) (f : Bool → JobHandler (Unit {0})) (d : MediaDb)
      → Leaves P
          (f
            (update_one
              (recoverable now
                (trim_space job.media_id)
                (attempts_limit max_media_download_attempts))
              (claimed_row now)
              d).0)
          (claim_on d)
      → Leaves P
          (database_failure
              (claim_download_recoverable now job.media_id max_media_download_attempts)
            >>= f)
          d
  unfolding claim_download_recoverable ◌>>=◌
  claim-Leaves P f d l = l

-- A media job leaves no download running that it has claimed: where the row of the job's media is there
-- and its id is not repeated, after handleMediaDownload, run without a database error and whatever
-- Telegram, the object store and the other parts answer, the row is still there, and its download does
-- not run or the row is exactly as it was.
pub media_job_settles :
    (set_cooldown : ℕ → Option ℕ) (text : Error → List ℕ) (now : Time) (job : MediaJob)
    (s : Session) (d : MediaDb) (r : MediaRow)
    → count_where (has_media (trim_space job.media_id)) d.media ≤ 1
    → find_row (has_media (trim_space job.media_id)) d.media ≡ some r
    → (e : MediaDb) × (q : MediaRow) × ((handle_media_download set_cooldown text now job s
          (quiet d)).1
        ≡ quiet e)
      × (find_row (has_media (trim_space job.media_id)) e.media ≡ some q)
      × ((runs q.status ≡ false) ⊎ (q ≡ r))
unfolding handle_media_download
media_job_settles set_cooldown text now job s d r one here =
    let id : String = trim_space job.media_id in
    let P : MediaDb → Type 0 = SettledFrom set_cooldown text now id job refl r in
    let as_before : P d = (r, here, inr refl) in
    let (e, run, (q, at, settled)) =
      stop_if-Leaves set_cooldown text now id job refl P _ _ _ d as_before (
        get_for_worker-Leaves set_cooldown text now id job refl P _ d as_before λ item t.
          stop_if-Leaves set_cooldown text now id job refl P _ _ _ d as_before (
            stop_if-Leaves set_cooldown text now id job refl P _ _ _ d as_before (
              stop_if-Leaves set_cooldown text now id job refl P _ _ _ d as_before (
                stop_if-Leaves set_cooldown text now id job refl P _ _ _ d as_before (
                  stop_if-Leaves set_cooldown text now id job refl P _ _ _ d as_before (
                    unless_error-Leaves set_cooldown text now id job refl P _ _ d as_before (
                      unless_error-Leaves set_cooldown text now id job refl P _ _ d as_before (
                        claim-Leaves set_cooldown text now id job refl P _ d (
                          with_claim-Leaves set_cooldown text now id job refl s item.id d r t one
                            here))))))))) in
    (e, q, run, at, settled)
