-- ===== src/Media/Exclusive.antt =====
-- internal/media/claim.go and internal/media/repository.go: who else can claim a download that runs.
use telegram_gateway.Base.{
  ℕ, String, ◌≡◌, refl, sym, ap, ◌∙◌, Bool, true, false, Option, none, some, ◌+◌, ◌≤◌, ◌<◌, ◌==◌,
  ◌&&◌, ◌||◌, inl, inr, List, [], ◌∷◌, arith, All, Bool-cases, eq_iff, ltb, find_row, update_where,
  count_where, trim_space, text_eq, All-update_where,
}
use mathlib.Core.Path.{subst}
use telegram_gateway.Base.Slices.{All-append}
use telegram_gateway.Base.Handler.{World, go}
use telegram_gateway.Base.Handler.Inversion.{query-go}
use telegram_gateway.Base.Handler.Ends.{
  From, stop_if-From, expect-From, query-From, last_query-From, last_stop_if-From, last_expect-From,
}
use telegram_gateway.Schema.{Time, Digest}
use telegram_gateway.Media.Repository.{
  MediaRow, MediaDb, DownloadStatus, pending, downloading, failed, skipped, ready, runs, waits,
  has_media, register_pending, insert_media, insert_or, refreshed, conflicts, is_null, is_stale,
  claim_download, claim_download_recoverable, claimable, recoverable, claimed_row, attempts_limit,
  stale_download_after, mark_ready, owned, mark_failed,
}

-- Statements on the table one after the other, failed ones too, while the download of the row `id` that
-- was claimed at `t` runs: anything may be registered under another id, any row be claimed, again as
-- one whose download is stale up to 15 minutes after `t`, and results be recorded of other rows.
pub data WhileRunning (id : String) (t : Time) (w : World MediaDb) : World MediaDb → Type 0 where
  nothing : WhileRunning id t w w
  then_register :
      (u : World MediaDb) (new message kind : String) (file : Option ℕ)
      (key mime name : Option String) (size : Option (Option ℕ))
      → text_eq new id ≡ false
      → WhileRunning id t w u
      → WhileRunning id t w (register_pending new message kind file key mime name size u).1
  then_claim :
      (u : World MediaDb) (now : Time) (other : String) (max_attempts : ℕ)
      → WhileRunning id t w u
      → WhileRunning id t w (claim_download now other max_attempts u).1
  then_recover :
      (u : World MediaDb) (now : Time) (other : String) (max_attempts : ℕ)
      → now < t + stale_download_after
      → WhileRunning id t w u
      → WhileRunning id t w (claim_download_recoverable now other max_attempts u).1
  then_mark_ready :
      (u : World MediaDb) (now : Time) (other key mime : String) (size : Option ℕ) (digest : Digest)
      → text_eq (trim_space other) id ≡ false
      → WhileRunning id t w u
      → WhileRunning id t w (mark_ready now other key mime size digest u).1
  then_mark_failed :
      (u : World MediaDb) (other : String) (message : List ℕ)
      → text_eq (trim_space other) id ≡ false
      → WhileRunning id t w u
      → WhileRunning id t w (mark_failed other message u).1

does_not_wait : (s : DownloadStatus) → runs s ≡ true → waits s ≡ false
does_not_wait pending h = absurd (cc)
does_not_wait downloading h = refl
does_not_wait ready h = refl
does_not_wait failed h = absurd (cc)
does_not_wait skipped h = refl

module _ (id : String) (t : Time) where
  -- A row of the id is being downloaded since the time.
  abbrev Runs : MediaRow → Type 0
  Runs r = has_media id r ≡ true → (runs r.status ≡ true) × (r.last_attempt_at ≡ some t)

  abbrev Exclusive : MediaDb → Type 0
  Exclusive d = All Runs d.media

  -- An UPDATE that does not cover a running row of the id.
  update-Runs :
      (p : MediaRow → Bool) (f : MediaRow → MediaRow) (rows : List MediaRow)
      → ((r : MediaRow) → (f r).id ≡ r.id)
      → ((r : MediaRow) → Runs r → has_media id r ≡ true → p r ≡ false)
      → All Runs rows
      → All Runs (update_where p f rows)
  update-Runs p f [] same miss h = tt
  update-Runs p f (r ∷ rows) same miss h = elim (Bool-cases (p r)) [
    | inr e ↦ rw e (h.0, update-Runs p f rows same miss h.1)
    | inl e ↦ rw e (
      λ k. absurd (ground (arith, miss r h.0 (ap (λ i. text_eq i id) (sym (same r)) ∙ k), e)),
      update-Runs p f rows same miss h.1,
    )
  ]

  other_missed :
      (other : String) (r : MediaRow)
      → text_eq other id ≡ false
      → has_media id r ≡ true
      → has_media other r ≡ false
  other_missed other r differs named = elim (Bool-cases (has_media other r)) [
    | inr e ↦ e
    | inl e ↦
        absurd
          (ground (arith, differs, ap (λ i. text_eq i id) (sym ((eq_iff r.id other).0 e)) ∙ named))
  ]

  running_not_recoverable :
      (now : Time) (other : String) (limit : ℕ) (r : MediaRow)
      → now < t + stale_download_after
      → Runs r
      → has_media id r ≡ true
      → recoverable now other limit r ≡ false
  running_not_recoverable now other limit r soon k n =
      let (a, b) = k n in
      let no_wait = does_not_wait r.status a in
      let fresh : is_stale now r.last_attempt_at ≡ false = rw b (ground (arith, soon)) in
      ground (arith, no_wait, fresh)

  claim_download-Exclusive :
      (now : Time) (other : String) (m : ℕ) (d : MediaDb)
      → Exclusive d
      → From Exclusive d (claim_download now other m)
  unfolding claim_download
  claim_download-Exclusive now other m d h = last_query-From Exclusive _ _ d h (
      update-Runs (claimable (trim_space other) (attempts_limit m)) (claimed_row now) d.media
        (λ r. refl) (λ r k n. let (a, b) = k n in ground (arith, does_not_wait r.status a)) h)

  claim_download_recoverable-Exclusive :
      (now : Time) (other : String) (m : ℕ) (d : MediaDb)
      → now < t + stale_download_after
      → Exclusive d
      → From Exclusive d (claim_download_recoverable now other m)
  unfolding claim_download_recoverable
  claim_download_recoverable-Exclusive now other m d soon h = last_query-From Exclusive _ _ d h (
      update-Runs (recoverable now (trim_space other) (attempts_limit m)) (claimed_row now) d.media
        (λ r. refl) (λ r k n. running_not_recoverable now (trim_space other) _ r soon k n) h)

  owned_missed :
      (other : String) (f : MediaRow → MediaRow) (d : MediaDb)
      → text_eq (trim_space other) id ≡ false
      → ((r : MediaRow) → (f r).id ≡ r.id)
      → Exclusive d
      → All Runs (update_where (owned (trim_space other)) f d.media)
  owned_missed other f d differs same h =
      update-Runs (owned (trim_space other)) f d.media same
        (λ r k n. rw (other_missed (trim_space other) r differs n) refl) h

  mark_ready-Exclusive :
      (now : Time) (other key mime : String) (size : Option ℕ) (digest : Digest) (d : MediaDb)
      → text_eq (trim_space other) id ≡ false
      → Exclusive d
      → From Exclusive d (mark_ready now other key mime size digest)
  unfolding mark_ready
  mark_ready-Exclusive now other key mime size digest d differs h =
      stop_if-From Exclusive _ _ _ d h λ _. expect-From Exclusive _ _ _ d h λ bytes _.
        query-From Exclusive _ _ _ d h
          (last_stop_if-From Exclusive _ _ _ (owned_missed other _ d differs (λ r. refl) h))

  mark_failed-Exclusive :
      (other : String) (message : List ℕ) (d : MediaDb)
      → text_eq (trim_space other) id ≡ false
      → Exclusive d
      → From Exclusive d (mark_failed other message)
  unfolding mark_failed
  mark_failed-Exclusive other message d differs h =
      query-From Exclusive _ _ _ d h
        (last_stop_if-From Exclusive _ _ _ (owned_missed other _ d differs (λ r. refl) h))

  insert_media-Exclusive :
      (new : MediaRow) (d : MediaDb)
      → text_eq new.id id ≡ false
      → Exclusive d
      → Exclusive (insert_media new d).1
  unfolding insert_media
  insert_media-Exclusive new d differs h = at (find_row (conflicts new) d.media)
    where
      at : (o : Option MediaRow) → Exclusive (insert_or new d o).1
      at none = All-append Runs d.media (new ∷ []) h (λ n. absurd (ground arith), tt)
      at (some r) = elim (Bool-cases (is_null new.telegram_file_id)) [
        | inl n ↦ rw n h
        | inr n ↦ rw n (All-update_where Runs (conflicts new) (refreshed new) d.media (λ r k. k) h)
      ]

  register_pending-Exclusive :
      (new message kind : String) (file : Option ℕ) (key mime name : Option String)
      (size : Option (Option ℕ)) (d : MediaDb)
      → text_eq new id ≡ false
      → Exclusive d
      → From Exclusive d (register_pending new message kind file key mime name size)
  unfolding register_pending
  register_pending-Exclusive new message kind file key mime name size d differs h =
      stop_if-From Exclusive _ _ _ d h λ _. expect-From Exclusive _ _ _ d h λ bytes _.
        query-From Exclusive _ _ _ d h
          (last_expect-From Exclusive _ _ _ (insert_media-Exclusive _ d differs h))

  WhileRunning-keep :
      (w u : World MediaDb) → WhileRunning id t w u → Exclusive w.db → Exclusive u.db
  WhileRunning-keep w u nothing h = h
  WhileRunning-keep w u (then_register v new m k f q i n s differs r) h =
      register_pending-Exclusive new m k f q i n s v.db differs (WhileRunning-keep w v r h) v refl
  WhileRunning-keep w u (then_claim v now other m r) h =
      claim_download-Exclusive now other m v.db (WhileRunning-keep w v r h) v refl
  WhileRunning-keep w u (then_recover v now other m soon r) h =
      claim_download_recoverable-Exclusive now other m v.db soon (WhileRunning-keep w v r h) v refl
  WhileRunning-keep w u (then_mark_ready v now other q m s g differs r) h =
      mark_ready-Exclusive now other q m s g v.db differs (WhileRunning-keep w v r h) v refl
  WhileRunning-keep w u (then_mark_failed v other m differs r) h =
      mark_failed-Exclusive other m v.db differs (WhileRunning-keep w v r h) v refl

  none_named :
      (p : MediaRow → Bool) (f : MediaRow → MediaRow) (rows : List MediaRow)
      → count_where (has_media id) rows ≡ 0
      → (count_where (λ r. has_media id r && p r) rows ≡ 0)
        × All Runs (update_where (λ r. has_media id r && p r) f rows)
  none_named p f [] h = (refl, tt)
  none_named p f (r ∷ rows) h = elim (Bool-cases (has_media id r)) [
    | inl e ↦ absurd (ground arith)
    | inr e ↦
        let (a, b) = none_named p f rows (ground arith) in
        (ground (arith, a), rw e ((λ k. absurd (ground (arith, k, e))), b))
  ]

  -- Where one row has the id and the claim changed it, that row runs.
  claimed-Runs :
      (p : MediaRow → Bool) (rows : List MediaRow)
      → count_where (has_media id) rows ≤ 1
      → count_where (λ r. has_media id r && p r) rows ≡ 1
      → All Runs (update_where (λ r. has_media id r && p r) (claimed_row t) rows)
  claimed-Runs p [] u h = tt
  claimed-Runs p (r ∷ rows) u h = elim (Bool-cases (has_media id r)) [
    | inr e ↦
        rw e
          ((λ k. absurd (ground (arith, k, e))), claimed-Runs p rows (ground arith) (ground arith))
    | inl e ↦
        let (a, b) = none_named p (claimed_row t) rows (ground arith) in
        elim (Bool-cases (p r)) [
          | inl c ↦ rw e (rw c ((λ k. (refl, refl)), b))
          | inr c ↦ absurd (ground (arith, a))
        ]
  ]

  nothing_to_claim :
      (now : Time) (limit : ℕ) (rows : List MediaRow)
      → now < t + stale_download_after
      → All Runs rows
      → count_where (recoverable now id limit) rows ≡ 0
  nothing_to_claim now limit [] soon h = refl
  nothing_to_claim now limit (r ∷ rows) soon h =
      let rest = nothing_to_claim now limit rows soon h.1 in
      elim (Bool-cases (has_media id r)) [
        | inr e ↦ ground (arith, rest)
        | inl e ↦
            let missed = running_not_recoverable now id limit r soon h.0 e in
            ground (arith, rest, missed)
      ]

-- the rows that the claim changed: one
claim-go :
    (now : Time) (id : String) (max_attempts : ℕ) (b : Bool) (w u : World MediaDb)
    → claim_download_recoverable now id max_attempts w ≡ (go b, u)
    → (b ≡ (
        count_where (recoverable now (trim_space id) (attempts_limit max_attempts)) w.db.media
        == 1))
      × (u.db.media
          ≡ update_where
              (recoverable now (trim_space id) (attempts_limit max_attempts))
              (claimed_row now)
              w.db.media)
unfolding claim_download_recoverable
claim-go now id m b w u h =
    let (x, y) = query-go _ _ b w u h in (x, ap (λ (d : MediaDb). d.media) y)

-- A download has one worker at a time: where one row has the id, after ClaimDownloadRecoverable has
-- claimed it, no other ClaimDownloadRecoverable of it within 15 minutes claims it too, whatever its
-- limit of attempts is, and whatever statements run in between, failed ones too: registrations under
-- other ids, claims of any rows, again of stale ones within the 15 minutes, and results recorded of
-- rows with other ids.
pub claim_excludes :
    (now₁ now₂ : Time) (id : String) (m₁ m₂ : ℕ) (b : Bool) (w u v x : World MediaDb)
    → count_where (has_media (trim_space id)) w.db.media ≤ 1
    → claim_download_recoverable now₁ id m₁ w ≡ (go true, u)
    → WhileRunning (trim_space id) now₁ u v
    → now₂ < now₁ + stale_download_after
    → claim_download_recoverable now₂ id m₂ v ≡ (go b, x)
    → b ≡ false
claim_excludes now₁ now₂ id m₁ m₂ b w u v x one first between soon second =
    let (a, c) = claim-go now₁ id m₁ true w u first in
    let (d, e) = claim-go now₂ id m₂ b v x second in
    let free : MediaRow → Bool = λ r.
      ltb r.attempt_count (attempts_limit m₁)
      && (waits r.status || (runs r.status && is_stale now₁ r.last_attempt_at)) in
    let runs_now : All (Runs (trim_space id) now₁) u.db.media =
      subst (All (Runs (trim_space id) now₁)) (sym c)
        (claimed-Runs (trim_space id) now₁ free w.db.media one (ground (arith, a))) in
    let runs_still = WhileRunning-keep (trim_space id) now₁ u v between runs_now in
    let nothing_left =
      nothing_to_claim (trim_space id) now₁ now₂ (attempts_limit m₂) v.db.media soon runs_still in
    d ∙ rw nothing_left refl
