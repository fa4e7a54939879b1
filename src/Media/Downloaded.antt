-- ===== src/Media/Downloaded.antt =====
-- What the part of a media job that has the claim leaves (internal/worker/media.go).
use telegram_gateway.Base.{
  ℕ, String, ◌≡◌, refl, ap, ◌∙◌, Option, none, some, ◌||◌, ◌⊎◌, inl, inr, List, Bool-cases,
  trim_space, not,
}
use telegram_gateway.Base.Handler.{Outcome, reply, go, ◌>>=◌, call}
use telegram_gateway.Schema.{Time}
use telegram_gateway.Worker.{Error, plain, wrapped, permanent_error, telegram_error}
use telegram_gateway.Media.Repository.{MediaDb, MediaError, is_null}
use telegram_gateway.Media.Service.{Content, store_download}
use telegram_gateway.Media.Download.{
  MediaJob, Session, SourceResult, found, no_source, source_error, fail_with, store, after_store,
  fetched, resolve, with_source, download,
}
use telegram_gateway.Media.Results.{
  There, Idle, Leaves, StoreEnd, mark_failed-Idle, store_download-StoreEnd,
}

module _ (set_cooldown : ℕ → Option ℕ) (text : Error → List ℕ) (now : Time) (id : String)
    (job : MediaJob) (named : trim_space job.media_id ≡ id) where
  fail_with-Leaves :
      (media : String) (e : Error) (d : MediaDb)
      → trim_space media ≡ id
      → There id d
      → Leaves (Idle id) (fail_with set_cooldown text now media e) d
  unfolding fail_with ◌>>=◌
  fail_with-Leaves media e d t there = mark_failed-Idle id media (text e) d t there

  store-Leaves :
      (audited : Option Error) (c : Content) (d : MediaDb)
      → There id d
      → Leaves (Idle id) (store set_cooldown text now job audited c) d
  unfolding store ◌>>=◌
  store-Leaves audited c d there = elim (Bool-cases (not c.has_reader || is_null c.size)) [
    | inl e ↦ rw e (fail_with-Leaves job.media_id plain d named there)
    | inr e ↦ rw e (
        end
          (store_download-StoreEnd id now (text plain) job.account_id job.media_id c d named there))
  ]
    where
      at :
          (o : Outcome MediaError (Unit {0})) (f : MediaDb)
          → There id f
          → (o ≡ go tt → Idle id f)
          → Leaves (Idle id) (after_store set_cooldown text now job.media_id audited o) f
      at (reply x) f here idle = fail_with-Leaves job.media_id (wrapped plain) f named here
      at (go done) f here idle = (f, refl, idle refl)

      end :
          StoreEnd id (store_download now (text plain) job.account_id job.media_id c) d
          → Leaves
              (Idle id)
              (call (store_download now (text plain) job.account_id job.media_id c)
                >>= after_store set_cooldown text now job.media_id audited)
              d
      end (o, f, run, here, idle) =
          let (g, there_after, settled) = at o f here idle in
          (
            g,
            ap (λ x. (after_store set_cooldown text now job.media_id audited x.0 x.1).1) run
                ∙ there_after,
            settled,
          )

  fetched-Leaves :
      (audited : Option Error) (x : Error ⊎ Content) (d : MediaDb)
      → There id d
      → Leaves (Idle id) (fetched set_cooldown text now job audited x) d
  fetched-Leaves audited (inl e) d there =
      fail_with-Leaves job.media_id (telegram_error set_cooldown e) d named there
  fetched-Leaves audited (inr c) d there = store-Leaves audited c d there

  pub download-Leaves :
      (s : Session) (item : String) (d : MediaDb)
      → trim_space item ≡ id
      → There id d
      → Leaves (Idle id) (download set_cooldown text now job s item) d
  download-Leaves s item d t there = elim (Bool-cases s.resolves) [
    | inr e ↦ rw e (fetched-Leaves s.audited s.downloaded d there)
    | inl e ↦ rw e (from s.source)
  ]
    where
      resolved_file :
          (o : Option Error) → Leaves (Idle id) (resolve set_cooldown text now job s o item) d
      resolved_file none = fetched-Leaves s.audited s.downloaded d there
      resolved_file (some e) = fail_with-Leaves item (telegram_error set_cooldown e) d t there

      from :
          (r : SourceResult) → Leaves (Idle id) (with_source set_cooldown text now job s r item) d
      from found = resolved_file s.resolved
      from no_source = fail_with-Leaves item (permanent_error plain) d t there
      from (source_error e) = fail_with-Leaves item e d t there
