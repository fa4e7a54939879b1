-- ===== src/Media/Changes.antt =====
-- What each statement of internal/media/repository.go and claim.go does to the table message_media,
-- and sequences of them.
use telegram_gateway.Base.{
  ℕ, String, ◌≡◌, refl, Bool, true, false, Option, none, some, ◌≤◌, inl, inr, List, [], ◌∷◌, ◌++◌,
  arith, Bool-cases, find_row, update_where, trim_space, ltb→lt,
}
use telegram_gateway.Base.Handler.{World}
use telegram_gateway.Base.Handler.Ends.{
  From, stop_if-From, expect-From, query-From, last_query-From, last_stop_if-From, last_expect-From,
}
use telegram_gateway.Schema.{Time, Digest}
use telegram_gateway.Media.Repository.{
  MediaRow, MediaDb, DownloadStatus, pending, downloading, failed, skipped, ready, is_ready, runs,
  waits, register_pending, insert_media, insert_or, refreshed, conflicts, is_null, claim_download,
  claim_download_recoverable, claimable, recoverable, claimed_row, attempts_limit, mark_ready,
  ready_row, owned, mark_failed, failed_row,
}

-- The stored file of a ready row.
pub record SameFile (r s : MediaRow) : Type 0 where
  pub still_ready : is_ready s.status ≡ true
  pub same_object : s.object_key ≡ r.object_key
  pub same_digest : s.sha256 ≡ r.sha256
  pub same_attempts : s.attempt_count ≡ r.attempt_count

-- What an UPDATE may make of the row `r`, where claims are limited to `cap` attempts.
pub record Updated (cap : ℕ) (r s : MediaRow) : Type 0 where
  pub same_id : s.id ≡ r.id
  pub bounded : r.attempt_count ≤ cap → s.attempt_count ≤ cap
  pub keeps_file : is_ready r.status ≡ true → SameFile r s

pub data MediaChange (cap : ℕ) (d : MediaDb) : MediaDb → Type 0 where
  unchanged : MediaChange cap d d
  updated :
      (p : MediaRow → Bool) (f : MediaRow → MediaRow)
      → ((r : MediaRow) → p r ≡ true → Updated cap r (f r))
      → MediaChange cap d (record d { media = update_where p f d.media })
  inserted :
      (new : MediaRow)
      → new.attempt_count ≡ 0
      → MediaChange cap d (record d { media = d.media ++ (new ∷ []) })

refreshed-Updated : (cap : ℕ) (new r : MediaRow) → Updated cap r (refreshed new r)
refreshed-Updated cap new r = record {
  same_id = refl;
  bounded = λ h. h;
  keeps_file =
      λ h. record { still_ready = h; same_object = refl; same_digest = refl; same_attempts = refl };
}

insert_media-MediaChange :
    (cap : ℕ) (new : MediaRow) (d : MediaDb)
    → new.attempt_count ≡ 0
    → MediaChange cap d (insert_media new d).1
unfolding insert_media
insert_media-MediaChange cap new d z = at (find_row (conflicts new) d.media)
  where
    at : (o : Option MediaRow) → MediaChange cap d (insert_or new d o).1
    at none = inserted new z
    at (some r) = elim (Bool-cases (is_null new.telegram_file_id)) [
      | inl n ↦ rw n unchanged
      | inr n ↦ rw n (updated (conflicts new) (refreshed new) (λ s h. refreshed-Updated cap new s))
    ]

-- A row that is not ready may change its file.
not_ready-Updated :
    (cap : ℕ) (r s : MediaRow)
    → s.id ≡ r.id
    → is_ready r.status ≡ false
    → (r.attempt_count ≤ cap → s.attempt_count ≤ cap)
    → Updated cap r s
not_ready-Updated cap r s i n b = record {
  same_id = i;
  bounded = b;
  keeps_file = λ h. absurd (ground (arith, n, h));
}

waits_not_ready : (s : DownloadStatus) → waits s ≡ true → is_ready s ≡ false
waits_not_ready pending h = refl
waits_not_ready failed h = refl
waits_not_ready downloading h = absurd (cc)
waits_not_ready ready h = absurd (cc)
waits_not_ready skipped h = absurd (cc)

runs_not_ready : (s : DownloadStatus) → runs s ≡ true → is_ready s ≡ false
runs_not_ready downloading h = refl
runs_not_ready pending h = absurd (cc)
runs_not_ready failed h = absurd (cc)
runs_not_ready ready h = absurd (cc)
runs_not_ready skipped h = absurd (cc)

claimable-Updated :
    (cap : ℕ) (now : Time) (id : String) (limit : ℕ) (r : MediaRow)
    → limit ≤ cap
    → claimable id limit r ≡ true
    → Updated cap r (claimed_row now r)
claimable-Updated cap now id limit r l h =
    not_ready-Updated cap r (claimed_row now r) refl (waits_not_ready r.status (ground arith))
      (λ b. omega (arith, ltb→lt r.attempt_count limit (ground arith)))

recoverable-Updated :
    (cap : ℕ) (now : Time) (id : String) (limit : ℕ) (r : MediaRow)
    → limit ≤ cap
    → recoverable now id limit r ≡ true
    → Updated cap r (claimed_row now r)
recoverable-Updated cap now id limit r l h =
    not_ready-Updated cap r (claimed_row now r) refl
      (elim (Bool-cases (waits r.status)) [
        | inl e ↦ waits_not_ready r.status e
        | inr e ↦ runs_not_ready r.status (ground arith)
      ])
      (λ b. omega (arith, ltb→lt r.attempt_count limit (ground arith)))

owned-Updated :
    (cap : ℕ) (id : String) (r s : MediaRow)
    → s.id ≡ r.id
    → s.attempt_count ≡ r.attempt_count
    → owned id r ≡ true
    → Updated cap r s
owned-Updated cap id r s i a h =
    not_ready-Updated cap r s i (runs_not_ready r.status (ground arith)) (λ b. omega (arith, a))

pub claim_download-MediaChange :
    (cap : ℕ) (now : Time) (id : String) (max_attempts : ℕ) (d : MediaDb)
    → attempts_limit max_attempts ≤ cap
    → From (MediaChange cap d) d (claim_download now id max_attempts)
unfolding claim_download
claim_download-MediaChange cap now id m d l =
    last_query-From (MediaChange cap d) _ _ d unchanged
      (updated _ _ (λ r. claimable-Updated cap now (trim_space id) (attempts_limit m) r l))

pub claim_download_recoverable-MediaChange :
    (cap : ℕ) (now : Time) (id : String) (max_attempts : ℕ) (d : MediaDb)
    → attempts_limit max_attempts ≤ cap
    → From (MediaChange cap d) d (claim_download_recoverable now id max_attempts)
unfolding claim_download_recoverable
claim_download_recoverable-MediaChange cap now id m d l =
    last_query-From (MediaChange cap d) _ _ d unchanged
      (updated _ _ (λ r. recoverable-Updated cap now (trim_space id) (attempts_limit m) r l))

pub mark_ready-MediaChange :
    (cap : ℕ) (now : Time) (id key mime : String) (size : Option ℕ) (digest : Digest) (d : MediaDb)
    → From (MediaChange cap d) d (mark_ready now id key mime size digest)
unfolding mark_ready
mark_ready-MediaChange cap now id key mime size digest d =
    stop_if-From (MediaChange cap d) _ _ _ d unchanged λ _.
      expect-From (MediaChange cap d) _ _ _ d unchanged λ bytes _.
        query-From (MediaChange cap d) _ _ _ d unchanged (
          last_stop_if-From (MediaChange cap d) _ _ _ (
            updated _ _ (λ r.
              owned-Updated cap (trim_space id) r
                (ready_row now (trim_space key) mime bytes digest r) refl refl)))

pub mark_failed-MediaChange :
    (cap : ℕ) (id : String) (message : List ℕ) (d : MediaDb)
    → From (MediaChange cap d) d (mark_failed id message)
unfolding mark_failed
mark_failed-MediaChange cap id message d = query-From (MediaChange cap d) _ _ _ d unchanged (
    last_stop_if-From (MediaChange cap d) _ _ _
      (updated _ _ (λ r. owned-Updated cap (trim_space id) r (failed_row message r) refl refl)))

pub register_pending-MediaChange :
    (cap : ℕ) (id message kind : String) (file : Option ℕ) (key mime name : Option String)
    (size : Option (Option ℕ)) (d : MediaDb)
    → From (MediaChange cap d) d (register_pending id message kind file key mime name size)
unfolding register_pending
register_pending-MediaChange cap id message kind file key mime name size d =
    stop_if-From (MediaChange cap d) _ _ _ d unchanged λ _.
      expect-From (MediaChange cap d) _ _ _ d unchanged λ bytes _.
        query-From (MediaChange cap d) _ _ _ d unchanged
          (last_expect-From (MediaChange cap d) _ _ _ (insert_media-MediaChange cap _ d refl))

-- Statements on the table one after the other, failed ones too, where every claim gives at most `cap`
-- attempts.
pub data MediaWrites (cap : ℕ) (w : World MediaDb) : World MediaDb → Type 0 where
  no_writes : MediaWrites cap w w
  then_register :
      (u : World MediaDb) (id message kind : String) (file : Option ℕ)
      (key mime name : Option String) (size : Option (Option ℕ))
      → MediaWrites cap w u
      → MediaWrites cap w (register_pending id message kind file key mime name size u).1
  then_claim :
      (u : World MediaDb) (now : Time) (id : String) (max_attempts : ℕ)
      → attempts_limit max_attempts ≤ cap
      → MediaWrites cap w u
      → MediaWrites cap w (claim_download now id max_attempts u).1
  then_recover :
      (u : World MediaDb) (now : Time) (id : String) (max_attempts : ℕ)
      → attempts_limit max_attempts ≤ cap
      → MediaWrites cap w u
      → MediaWrites cap w (claim_download_recoverable now id max_attempts u).1
  then_mark_ready :
      (u : World MediaDb) (now : Time) (id key mime : String) (size : Option ℕ) (digest : Digest)
      → MediaWrites cap w u
      → MediaWrites cap w (mark_ready now id key mime size digest u).1
  then_mark_failed :
      (u : World MediaDb) (id : String) (message : List ℕ)
      → MediaWrites cap w u
      → MediaWrites cap w (mark_failed id message u).1

-- A property of the table that every statement keeps.
pub MediaWrites-keep :
    (cap : ℕ) (P : List MediaRow → Type 0)
    → ((d e : MediaDb) → MediaChange cap d e → P d.media → P e.media)
    → (w u : World MediaDb) → MediaWrites cap w u
    → P w.db.media
    → P u.db.media
MediaWrites-keep cap P k w u no_writes p = p
MediaWrites-keep cap P k w u (then_register v id m t f q i n s r) p =
    k v.db _ (register_pending-MediaChange cap id m t f q i n s v.db v refl)
      (MediaWrites-keep cap P k w v r p)
MediaWrites-keep cap P k w u (then_claim v now id m l r) p =
    k v.db _ (claim_download-MediaChange cap now id m v.db l v refl)
      (MediaWrites-keep cap P k w v r p)
MediaWrites-keep cap P k w u (then_recover v now id m l r) p =
    k v.db _ (claim_download_recoverable-MediaChange cap now id m v.db l v refl)
      (MediaWrites-keep cap P k w v r p)
MediaWrites-keep cap P k w u (then_mark_ready v now id q m s g r) p =
    k v.db _ (mark_ready-MediaChange cap now id q m s g v.db v refl)
      (MediaWrites-keep cap P k w v r p)
MediaWrites-keep cap P k w u (then_mark_failed v id m r) p =
    k v.db _ (mark_failed-MediaChange cap id m v.db v refl) (MediaWrites-keep cap P k w v r p)
