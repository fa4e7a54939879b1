-- ===== src/Media/Results.antt =====
-- What recording the result of a download leaves (internal/media/repository.go, service.go).
use telegram_gateway.Base.{
  ℕ, String, ◌≡◌, refl, ap, ◌∙◌, Bool, true, false, some, ◌||◌, inl, inr, List, [], Bool-cases,
  Option-cases, find_row, find_row_sound, any_row, update_where, if◌then◌else◌, is_empty,
  trim_space,
}
use telegram_gateway.Base.Keyed.{find_row-update_where}
use telegram_gateway.Base.Handler.{World, Outcome, reply, go, ◌>>=◌, stop_if}
use telegram_gateway.Schema.{Time, Digest}
use telegram_gateway.Media.Repository.{
  MediaRow, MediaDb, MediaError, missing_id, not_downloading, no_reader, negative_size, store_error,
  has_media, runs, owned, mark_failed, failed_row, mark_ready, ready_row,
}
use telegram_gateway.Media.Service.{Content, object_key, store_download}

abbrev pub quiet : MediaDb → World MediaDb
quiet db = record { db = db; faults = [] }

-- the row of the id is there
abbrev pub There : String → MediaDb → Type 0
There id d = (s : MediaRow) × (find_row (has_media id) d.media ≡ some s)

-- … and no download of it runs
abbrev pub Idle : String → MediaDb → Type 0
Idle id d = (s : MediaRow) × (find_row (has_media id) d.media ≡ some s) × (runs s.status ≡ false)

owned-Idle :
    (id : String) (f : MediaRow → MediaRow) (d : MediaDb)
    → ((r : MediaRow) → (f r).id ≡ r.id)
    → ((r : MediaRow) → runs (f r).status ≡ false)
    → There id d
    → Idle id (record d { media = update_where (owned id) f d.media })
owned-Idle id f d key_kept stops (s, e) =
    let found : find_row (has_media id) (update_where (owned id) f d.media)
        ≡ some (if owned id s then f s else s) =
      find_row-update_where (owned id) (has_media id) f d.media s (λ a. rw (key_kept a) refl) e in
    let named : has_media id s ≡ true = find_row_sound (has_media id) d.media {a = s} e in
    elim (Bool-cases (runs s.status)) [
      | inl h ↦ (f s, found ∙ rw named (rw h refl), stops s)
      | inr h ↦ (s, found ∙ rw named (rw h refl), h)
    ]

-- Run without a database error, the handler leaves a database with the property.
abbrev pub Leaves :
    {R A : Type 0}
    → (MediaDb → Type 0)
    → (World MediaDb → Outcome R A × World MediaDb)
    → MediaDb
    → Type 0
Leaves {R} {A} P m d = (e : MediaDb) × ((m (quiet d)).1 ≡ quiet e) × P e

stop_if-world : (R : Type 0) (b : Bool) (r : R) (w : World MediaDb) → (stop_if b r w).1 ≡ w
unfolding stop_if
stop_if-world R true r w = refl
stop_if-world R false r w = refl

pub mark_failed-Idle :
    (id media : String) (message : List ℕ) (d : MediaDb)
    → trim_space media ≡ id
    → There id d
    → Leaves (Idle id) (mark_failed media message) d
unfolding mark_failed ◌>>=◌
mark_failed-Idle id media message d t there = (
  record d { media = update_where (owned (trim_space media)) (failed_row message) d.media },
  stop_if-world _ _ _ _,
  rw t (owned-Idle id (failed_row message) d (λ r. refl) (λ r. refl) there),
)

-- What StoreDownload leaves: where it succeeds, no download runs.
abbrev pub StoreEnd :
    String → (World MediaDb → Outcome MediaError (Unit {0}) × World MediaDb) → MediaDb → Type 0
StoreEnd id m d =
    (o : Outcome MediaError (Unit {0})) × (e : MediaDb) × (m (quiet d) ≡ (o, quiet e))
    × There id e
    × (o ≡ go tt → Idle id e)

mark_ready-StoreEnd :
    (id : String) (now : Time) (media key mime : String) (bytes : ℕ) (digest : Digest) (d : MediaDb)
    → trim_space media ≡ id
    → There id d
    → StoreEnd id (mark_ready now media key mime (some bytes) digest) d
unfolding mark_ready ◌>>=◌
mark_ready-StoreEnd id now media key mime bytes digest d t (s, here) =
    elim (Bool-cases (is_empty (trim_space media) || is_empty (trim_space key))) [
      | inl e ↦ (reply missing_id, d, rw e refl, (s, here), λ h. absurd (cc))
      | inr e ↦
          let after : MediaDb = record d {
            media =
                update_where (owned (trim_space media))
                  (ready_row now (trim_space key) mime bytes digest) d.media;
          } in
          let idle : Idle id after = rw t (
            owned-Idle id (ready_row now (trim_space key) mime bytes digest) d (λ r. refl)
              (λ r. refl) (s, here)) in
          elim (Bool-cases (any_row (owned (trim_space media)) d.media)) [
            | inl h ↦ (go tt, after, rw e (rw h refl), (idle.0, idle.1), λ k. idle)
            | inr h ↦ (reply not_downloading, after, rw e (rw h refl), (idle.0, idle.1), λ k. idle)
          ]
    ]

pub store_download-StoreEnd :
    (id : String) (now : Time) (cause : List ℕ) (account media : String) (c : Content) (d : MediaDb)
    → trim_space media ≡ id
    → There id d
    → StoreEnd id (store_download now cause account media c) d
unfolding store_download ◌>>=◌
store_download-StoreEnd id now cause account media c d t there = elim (Bool-cases c.has_reader) [
  | inr e ↦ (reply no_reader, d, rw e refl, there, λ h. absurd (cc))
  | inl e ↦ elim (Option-cases c.size) [
    | inl z ↦ (reply negative_size, d, rw e (rw z refl), there, λ h. absurd (cc))
    | inr (bytes, z) ↦ keyed e bytes z (object_key account media) refl
  ]
]
  where
    keyed :
        c.has_reader ≡ true
        → (bytes : ℕ) → c.size ≡ some bytes
        → (o : Outcome MediaError String) → object_key account media ≡ o
        → StoreEnd id (store_download now cause account media c) d
    keyed e bytes z (reply x) k = (reply x, d, rw e (rw z (rw k refl)), there, λ h. absurd (cc))
    keyed e bytes z (go key) k = elim (Bool-cases c.put) [
      | inr p ↦
          let (f, run, idle) = mark_failed-Idle id media cause d t there in
          (
            reply store_error,
            f,
            rw e (rw z (rw k (rw p (ap (λ w. (reply store_error, w)) run)))),
            (idle.0, idle.1),
            λ h. absurd (cc),
          )
      | inl p ↦
          let (o, f, run, here, idle) =
            mark_ready-StoreEnd id now media key (trim_space c.content_type) bytes c.digest d t
              there in
          (
            o,
            f,
            rw e (
                rw z (
                  rw k (
                    rw p (
                      ap
                        (λ n.
                          mark_ready now media key (trim_space c.content_type) n c.digest (quiet d))
                        z
                      ∙ run)))),
            here,
            idle,
          )
    ]
