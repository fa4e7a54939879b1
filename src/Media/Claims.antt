-- ===== src/Media/Claims.antt =====
-- Attempts and ready files (internal/media/repository.go, claim.go).
use telegram_gateway.Base.{
  ℕ, String, ◌≡◌, refl, ap, ◌∙◌, Bool, true, some, ◌≤◌, inl, inr, List, [], ◌∷◌, arith, All,
  Bool-cases, find_row, update_where, if◌then◌else◌,
}
use telegram_gateway.Base.Handler.{World}
use telegram_gateway.Base.Lookup.{find_row-map, update_where-map, find_row-append}
use telegram_gateway.Base.Slices.{All-append}
use telegram_gateway.Media.Repository.{MediaRow, MediaDb, is_ready, has_media}
use telegram_gateway.Media.Changes.{
  MediaWrites, MediaWrites-keep, MediaChange, unchanged, updated, inserted, Updated, SameFile,
}

abbrev pub Bounded : ℕ → List MediaRow → Type 0
Bounded cap rows = All (λ r. r.attempt_count ≤ cap) rows

update_where-Bounded :
    (cap : ℕ) (p : MediaRow → Bool) (f : MediaRow → MediaRow) (rows : List MediaRow)
    → ((r : MediaRow) → p r ≡ true → Updated cap r (f r))
    → Bounded cap rows
    → Bounded cap (update_where p f rows)
update_where-Bounded cap p f [] k h = tt
update_where-Bounded cap p f (r ∷ rows) k h = elim (Bool-cases (p r)) [
  | inl e ↦ rw e ((k r e).bounded h.0, update_where-Bounded cap p f rows k h.1)
  | inr e ↦ rw e (h.0, update_where-Bounded cap p f rows k h.1)
]

MediaChange-Bounded :
    (cap : ℕ) (d e : MediaDb) → MediaChange cap d e → Bounded cap d.media → Bounded cap e.media
MediaChange-Bounded cap d e unchanged h = h
MediaChange-Bounded cap d e (updated p f k) h = update_where-Bounded cap p f d.media k h
MediaChange-Bounded cap d e (inserted new z) h =
    All-append (λ r. r.attempt_count ≤ cap) d.media (new ∷ []) h (omega (arith, z), tt)

-- No download is tried more often than its claims allow: when every claim of a sequence of statements
-- (registrations, claims, recoveries, results, failed ones too) is limited to at most `cap` attempts
-- and no row has more before, none has more after.
pub attempts_within_cap :
    (cap : ℕ) (w u : World MediaDb)
    → MediaWrites cap w u
    → Bounded cap w.db.media
    → Bounded cap u.db.media
attempts_within_cap cap = MediaWrites-keep cap (Bounded cap) (MediaChange-Bounded cap)

-- The row of the id has the stored file of `r`.
abbrev pub Stored : String → MediaRow → List MediaRow → Type 0
Stored id r rows = (s : MediaRow) × (find_row (has_media id) rows ≡ some s) × SameFile r s

SameFile-trans : (r s t : MediaRow) → SameFile r s → SameFile s t → SameFile r t
SameFile-trans r s t a b = record {
  still_ready = b.still_ready;
  same_object = b.same_object ∙ a.same_object;
  same_digest = b.same_digest ∙ a.same_digest;
  same_attempts = b.same_attempts ∙ a.same_attempts;
}

updated-Stored :
    (cap : ℕ) (id : String) (r : MediaRow) (p : MediaRow → Bool) (f : MediaRow → MediaRow)
    (rows : List MediaRow)
    → ((s : MediaRow) → p s ≡ true → Updated cap s (f s))
    → Stored id r rows
    → Stored id r (update_where p f rows)
updated-Stored cap id r p f rows k (s, e, same) =
    let found : find_row (has_media id) (update_where p f rows) ≡ some (if p s then f s else s) =
      ap (find_row (has_media id)) (update_where-map p f rows)
      ∙ find_row-map (has_media id) (λ a. if p a then f a else a) rows key_kept
      ∙ rw e refl in
    elim (Bool-cases (p s)) [
      | inl h ↦ (
        f s,
        found ∙ rw h refl,
        SameFile-trans r s (f s) same ((k s h).keeps_file same.still_ready),
      )
      | inr h ↦ (s, found ∙ rw h refl, same)
    ]
  where
    key_kept : (a : MediaRow) → has_media id (if p a then f a else a) ≡ has_media id a
    key_kept a = elim (Bool-cases (p a)) [
      | inl h ↦ rw h (rw ((k a h).same_id) refl)
      | inr h ↦ rw h refl
    ]

MediaChange-Stored :
    (cap : ℕ) (id : String) (r : MediaRow) (d e : MediaDb)
    → MediaChange cap d e
    → Stored id r d.media
    → Stored id r e.media
MediaChange-Stored cap id r d e unchanged h = h
MediaChange-Stored cap id r d e (updated p f k) h = updated-Stored cap id r p f d.media k h
MediaChange-Stored cap id r d e (inserted new z) (s, found, same) =
    (s, find_row-append (has_media id) d.media new ∙ rw found refl, same)

-- A stored file stays: once a download is ready, after any sequence of statements (registrations of
-- it again, claims, recoveries, results of other workers, failed ones too) the row of its id is ready,
-- with the same object key, digest and number of attempts.
pub ready_media_stays :
    (cap : ℕ) (id : String) (r : MediaRow) (w u : World MediaDb)
    → find_row (has_media id) w.db.media ≡ some r
    → is_ready r.status ≡ true
    → MediaWrites cap w u
    → (s : MediaRow) × (find_row (has_media id) u.db.media ≡ some s)
      × (is_ready s.status ≡ true)
      × (s.object_key ≡ r.object_key)
      × (s.sha256 ≡ r.sha256)
      × (s.attempt_count ≡ r.attempt_count)
ready_media_stays cap id r w u e ready_now writes =
    let here : SameFile r r = record {
      still_ready = ready_now;
      same_object = refl;
      same_digest = refl;
      same_attempts = refl;
    } in
    let (s, found, same) =
      MediaWrites-keep cap (Stored id r) (MediaChange-Stored cap id r) w u writes (r, e, here) in
    (s, found, same.still_ready, same.same_object, same.same_digest, same.same_attempts)
