-- ===== src/SyncState/Fencing.antt =====
-- internal/syncstate/repository.go: leases that a later acquisition has superseded.
use telegram_gateway.Base.{
  ℕ, String, Bool, true, false, Option, none, some, List, [], ◌∷◌, ◌&&◌, ◌||◌, ◌+◌, ◌<◌, ◌≤◌, ◌≡◌,
  refl, sym, ap, ◌∙◌, arith, eq_iff, ◌⊎◌, text_eq, trim_space, find_row, find_row_sound, any_row,
  if◌then◌else◌, Bool-cases, inl, inr,
}
use mathlib.Core.Path.{subst}
use telegram_gateway.Base.Keyed.{
  change, no_row, refused, changed, change-Change, find_row-update_where,
}
use telegram_gateway.Base.Handler.{World, Outcome, reply, go, ◌>>=◌, query, expect}
use telegram_gateway.Base.Handler.Inversion.{parts, >>=-go, stop_if-keeps, query-go, pure-go}
use telegram_gateway.Base.Handler.Keeps.{
  Preorder, Keeps, >>=-Keeps, stop_if-Keeps, expect-Keeps, query-Keeps, pure-Keeps,
}
use telegram_gateway.Schema.{Time, Uuid}
use telegram_gateway.SyncState.{
  State, Lease, SyncError, lease_lost, bad_cursor, has_id, insert_state, ensure, database_error,
  acquire, progress, complete, fail, is_held_by, is_free, granted, progressed, finished,
  is_unexpired, in_scope, new_state,
}

-- Every state of the earlier table is still there, with at least its generation.
pub Later : List State → List State → Type 0
Later d d' =
    (id : String) (s : State)
    → find_row (has_id id) d ≡ some s
    → (t : State) × (find_row (has_id id) d' ≡ some t) × (s.generation ≤ t.generation)

Later-refl : (d : List State) → Later d d
unfolding Later
Later-refl d id s h = (s, h, omega arith)

Later-trans : (a b c : List State) → Later a b → Later b c → Later a c
unfolding Later
Later-trans a b c p q id s h =
    let (t, found, le) = p id s h in let (u, found', le') = q id t found in (u, found', omega arith)

change-Later :
    (key test : State → Bool) (f : State → State) (d : List State)
    → ((s : State) → (f s).id ≡ s.id)
    → ((s : State) → s.generation ≤ (f s).generation)
    → Later d (change key test f d).1
unfolding Later
change-Later key test f d same grows id s h = elim (change-Change key test f d) [
  | no_row o e n ↦ (s, rw e h, omega arith)
  | refused r o e n t ↦ (s, rw e h, omega arith)
  | changed r o e n t ↦ (
    if key s then f s else s,
    rw e (find_row-update_where key (has_id id) f d s (λ a. ap (λ i. text_eq i id) (same a)) h),
    elim (Bool-cases (key s)) [ inl y ↦ rw y (grows s) | inr y ↦ rw y (omega arith) ],
  )
]

true_ne_false : true ≡ false → ⊥
true_ne_false h = cc

find_row-any_row :
    (id : String) (d : List State) (s : State)
    → find_row (has_id id) d ≡ some s
    → any_row (has_id id) d ≡ true
find_row-any_row id [] s h = absurd (cc)
find_row-any_row id (x ∷ d) s h = ground (arith, find_row-any_row id d s)

-- The operations of the repository, in any order, at any times, with any failures.
pub data Step : List State → List State → Type 0 where
  ensured :
      (id account : String) (chat : Option String) (kind : String) (w : World (List State))
      → Step w.db (ensure id account chat kind w).1.db
  acquired :
      (now : Time) (token : Uuid) (id owner : String) (ttl : ℕ) (w : World (List State))
      → Step w.db (acquire now token id owner ttl w).1.db
  progressed_to :
      (now : Time) (l : Lease) (cursor : Option String) (oldest newest : Option ℕ)
      (w : World (List State))
      → Step w.db (progress now l cursor oldest newest w).1.db
  completed_at :
      (now : Time) (l : Lease) (w : World (List State)) → Step w.db (complete now l w).1.db
  failed_at :
      (now : Time) (l : Lease) (cause : Option (List ℕ)) (retry : ℕ) (w : World (List State))
      → Step w.db (fail now l cause retry w).1.db

later : Preorder (List State)
later = record { order = Later; stays = Later-refl; joins = Later-trans }

insert_state-Later :
    (id account : String) (chat : Option String) (kind : String) (d : List State)
    → Later d (insert_state id account chat kind d)
unfolding Later insert_state
insert_state-Later id account chat kind d sid s h =
    elim (Bool-cases (any_row (has_id id) d || any_row (in_scope account chat kind) d)) [
      | inl there ↦ (s, rw there h, omega arith)
      | inr fresh ↦
          (s, rw fresh (fresh_id (ground arith) (Bool-cases (text_eq id sid))), omega arith)
    ]
  where
    fresh_id :
        any_row (has_id id) d ≡ false
        → (text_eq id sid ≡ true) ⊎ (text_eq id sid ≡ false)
        → find_row (has_id sid) (new_state id account chat kind ∷ d) ≡ some s
    fresh_id unused (inl same) =
        let e : id ≡ sid = (eq_iff id sid).0 same in
        absurd (
          true_ne_false
            (sym (find_row-any_row sid d s h) ∙ subst (λ i. any_row (has_id i) d ≡ false) e unused))
    fresh_id unused (inr other) = rw other h

ensure-Later :
    (id account : String) (chat : Option String) (kind : String)
    → Keeps SyncError later (ensure id account chat kind)
unfolding ensure later
ensure-Later id account chat kind =
    >>=-Keeps SyncError later _ _ (stop_if-Keeps SyncError later _ _) (λ _.
      >>=-Keeps SyncError later _ _ (expect-Keeps SyncError later _ _) (λ c.
        >>=-Keeps SyncError later _ _
          (query-Keeps SyncError later _ _
            (insert_state-Later id (trim_space account) c (trim_space kind)))
          (λ _.
            >>=-Keeps SyncError later _ _ (query-Keeps SyncError later _ _ Later-refl)
              (expect-Keeps SyncError later _))))

acquire-Later :
    (now : Time) (token : Uuid) (id owner : String) (ttl : ℕ)
    → Keeps SyncError later (acquire now token id owner ttl)
unfolding acquire later
acquire-Later now token id owner ttl =
    >>=-Keeps SyncError later _ _ (stop_if-Keeps SyncError later _ _) (λ _.
      >>=-Keeps SyncError later _ _ (stop_if-Keeps SyncError later _ _) (λ _.
        >>=-Keeps SyncError later _ _
          (query-Keeps SyncError later _ _
            (λ d. change-Later _ _ _ d (λ s. refl) (λ s. omega arith)))
          (λ _. pure-Keeps SyncError later _)))

progress-Later :
    (now : Time) (l : Lease) (cursor : Option String) (oldest newest : Option ℕ)
    → Keeps SyncError later (progress now l cursor oldest newest)
unfolding progress later
progress-Later now l cursor oldest newest =
    >>=-Keeps SyncError later _ _ (expect-Keeps SyncError later _ _) (λ _.
      >>=-Keeps SyncError later _ _
        (query-Keeps SyncError later _ _ (λ d. change-Later _ _ _ d (λ s. refl) (λ s. omega arith)))
        (expect-Keeps SyncError later _))

complete-Later : (now : Time) (l : Lease) → Keeps SyncError later (complete now l)
unfolding complete later
complete-Later now l =
    >>=-Keeps SyncError later _ _
      (query-Keeps SyncError later _ _ (λ d. change-Later _ _ _ d (λ s. refl) (λ s. omega arith)))
      (expect-Keeps SyncError later _)

fail-Later :
    (now : Time) (l : Lease) (cause : Option (List ℕ)) (retry : ℕ)
    → Keeps SyncError later (fail now l cause retry)
unfolding fail later
fail-Later now l cause retry =
    >>=-Keeps SyncError later _ _
      (query-Keeps SyncError later _ _ (λ d. change-Later _ _ _ d (λ s. refl) (λ s. omega arith)))
      (expect-Keeps SyncError later _)

Step-Later : (d d' : List State) → Step d d' → Later d d'
unfolding later
Step-Later d d' (ensured id account chat kind w) = ensure-Later id account chat kind w
Step-Later d d' (acquired now token id owner ttl w) = acquire-Later now token id owner ttl w
Step-Later d d' (progressed_to now l cursor oldest newest w) =
    progress-Later now l cursor oldest newest w
Step-Later d d' (completed_at now l w) = complete-Later now l w
Step-Later d d' (failed_at now l cause retry w) = fail-Later now l cause retry w

pub data Steps : List State → List State → Type 0 where
  done : (d : List State) → Steps d d
  step : (a b c : List State) → Step a b → Steps b c → Steps a c

Steps-Later : (d d' : List State) → Steps d d' → Later d d'
Steps-Later _ _ (done d) = Later-refl d
Steps-Later _ _ (step a b c s r) = Later-trans a b c (Step-Later a b s) (Steps-Later b c r)

-- The state of the lease has moved on to a later generation.
Superseded : Lease → List State → Type 0
Superseded l d =
    (s : State) × (find_row (has_id l.state_id) d ≡ some s) × (l.generation < s.generation)

Superseded-Later : (l : Lease) (d d' : List State) → Later d d' → Superseded l d → Superseded l d'
unfolding Later Superseded
Superseded-Later l d d' later_than (s, found, lt) =
    let (t, found', le) = later_than l.state_id s found in (t, found', omega arith)

-- What a granted lease says of the table before and after.
acquire-granted :
    (now : Time) (token : Uuid) (id owner : String) (ttl : ℕ) (l : Lease)
    (w w' : World (List State))
    → acquire now token id owner ttl w ≡ (go (some l), w')
    → (s t : State) × (find_row (has_id l.state_id) w.db ≡ some s)
      × (find_row (has_id l.state_id) w'.db ≡ some t)
      × (t.generation ≡ s.generation + 1)
      × (l.generation ≡ t.generation)
unfolding acquire
acquire-granted now token id owner ttl l w w' h = elim (>>=-go _ _ _ _ _ h) [
  | parts _ u₁ e₁ h₁ ↦ elim (>>=-go _ _ _ _ _ h₁) [
    | parts _ u₂ e₂ h₂ ↦ elim (>>=-go _ _ _ _ _ h₂) [
      | parts row u₃ e₃ h₃ ↦
          let (row_eq, db_eq) = query-go _ _ row u₂ u₃ e₃ in
          let (lease_eq, end_eq) = pure-go _ (some l) u₃ w' h₃ in
          let same : u₂.db ≡ w.db = stop_if-keeps _ _ _ u₁ u₂ e₂ ∙ stop_if-keeps _ _ _ w u₁ e₁ in
          elim (change-Change (has_id (trim_space id)) (is_free now)
            (granted now token (trim_space owner) ttl) u₂.db) [
              | no_row o e n ↦ absurd (ground arith)
              | refused r o e n t ↦ absurd (ground arith)
              | changed r o e n t ↦
                  let id_eq : r.id ≡ trim_space id =
                    (eq_iff r.id (trim_space id)).0
                      (find_row_sound (has_id (trim_space id)) u₂.db n) in
                  let lease_id : l.state_id ≡ trim_space id = ground arith in
                  let next = granted now token (trim_space owner) ttl r in
                  let mine =
                    find_row-update_where (has_id (trim_space id)) (has_id (trim_space id))
                      (granted now token (trim_space owner) ttl) u₂.db r (λ s. refl) n in
                  let found : find_row (has_id (trim_space id)) w'.db ≡ some next =
                    ap (find_row (has_id (trim_space id))) (end_eq ∙ db_eq ∙ e)
                    ∙ mine
                    ∙ rw (find_row_sound (has_id (trim_space id)) u₂.db n) refl in
                  (
                    r,
                    next,
                    ap (λ k. find_row (has_id k) w.db) lease_id
                        ∙ ap (find_row (has_id (trim_space id))) (sym same)
                        ∙ n,
                    ap (λ k. find_row (has_id k) w'.db) lease_id ∙ found,
                    refl,
                    ground arith,
                  )
            ]
    ]
  ]
]

Faults-cases :
    (fs : List Bool)
    → ((fs ≡ []) ⊎ ((rest : List Bool) × (fs ≡ false ∷ rest)))
      ⊎ ((rest : List Bool) × (fs ≡ true ∷ rest))
Faults-cases [] = inl (inl refl)
Faults-cases (false ∷ fs) = inl (inr (fs, refl))
Faults-cases (true ∷ fs) = inr (fs, refl)

-- The operation has answered an error and the table is as it was.
pub Refused : {A : Type 0} → World (List State) → Outcome SyncError A × World (List State) → Type 0
Refused w x = (e : SyncError) × (x.0 ≡ reply e) × (x.1.db ≡ w.db)

not_held : (l : Lease) (s : State) → l.generation < s.generation → is_held_by l s ≡ false
unfolding is_held_by
not_held l s h = ground arith

change-refused :
    (l : Lease) (test : State → Bool) (f : State → State) (d : List State)
    → ((s : State) → l.generation < s.generation → test s ≡ false)
    → Superseded l d
    → change (has_id l.state_id) test f d ≡ (none, d)
unfolding change Superseded
change-refused l test f d no_test (s, found, lt) = ground (arith, no_test s lt)

update-Refused :
    (l : Lease) (test : State → Bool) (f : State → State) (w : World (List State))
    → ((s : State) → l.generation < s.generation → test s ≡ false)
    → Superseded l w.db
    → Refused w (
        (query database_error (change (has_id l.state_id) test f) >>= λ row. expect lease_lost row)
          w)
unfolding ◌>>=◌ Refused
update-Refused l test f w no_test old =
    let refusal = change-refused l test f w.db no_test old in
    elim (Faults-cases w.faults) [
      | inl ok ↦ (lease_lost, ground arith, ground arith)
      | inr (rest, ko) ↦ (database_error, ground arith, ground arith)
    ]

progress-bad_cursor :
    (now : Time) (l : Lease) (oldest newest : Option ℕ) (w : World (List State))
    → Refused w (progress now l none oldest newest w)
unfolding progress ◌>>=◌ Refused
progress-bad_cursor now l oldest newest w = (bad_cursor, refl, refl)

progress-Refused :
    (now : Time) (l : Lease) (cursor : Option String) (oldest newest : Option ℕ)
    (w : World (List State))
    → Superseded l w.db
    → Refused w (progress now l cursor oldest newest w)
unfolding progress expect query ◌>>=◌
progress-Refused now l none oldest newest w old = progress-bad_cursor now l oldest newest w
progress-Refused now l (some c) oldest newest w old =
    update-Refused l (λ s. is_held_by l s && is_unexpired now s) (progressed now c oldest newest) w
      (λ s lt. rw (not_held l s lt) refl) old

complete-Refused :
    (now : Time) (l : Lease) (w : World (List State))
    → Superseded l w.db
    → Refused w (complete now l w)
unfolding complete
complete-Refused now l w old = update-Refused l (is_held_by l) (finished now) w (not_held l) old

fail-Refused :
    (now : Time) (l : Lease) (cause : Option (List ℕ)) (retry : ℕ) (w : World (List State))
    → Superseded l w.db
    → Refused w (fail now l cause retry w)
unfolding fail
fail-Refused now l cause retry w old = update-Refused l (is_held_by l) _ w (not_held l) old

superseded :
    (l m : Lease) (t s' t' : State) (a b c d : List State)
    → find_row (has_id l.state_id) a ≡ some t
    → Later a b
    → find_row (has_id m.state_id) b ≡ some s'
    → find_row (has_id m.state_id) c ≡ some t'
    → t'.generation ≡ s'.generation + 1
    → l.generation ≡ t.generation
    → m.state_id ≡ l.state_id
    → Later c d
    → Superseded l d
unfolding Later Superseded
superseded l m t s' t' a b c d found p before found' grown gen same q =
    let (u, fu, le) = p l.state_id t found in
    let (v, fv, le') = q l.state_id t' (ap (λ k. find_row (has_id k) c) (sym same) ∙ found') in
    let moved : find_row (has_id l.state_id) b ≡ some s' =
      ap (λ k. find_row (has_id k) b) (sym same) ∙ before in
    let one : u.generation ≡ s'.generation = ground arith in (v, fv, ground arith)

-- A lease can change nothing any more, whatever happens in between, once its state has been leased
-- again: the owner's progress, completion and failure are each answered with an error and leave the
-- table as it is.
pub superseded_lease-Refused :
    (now now' : Time) (token token' : Uuid) (id id' owner owner' : String) (ttl ttl' : ℕ)
    (l m : Lease) (w₁ w₂ w₃ w₄ w₅ : World (List State)) (at : Time) (cursor : Option String)
    (oldest newest : Option ℕ) (cause : Option (List ℕ)) (retry : ℕ)
    → acquire now token id owner ttl w₁ ≡ (go (some l), w₂)
    → Steps w₂.db w₃.db
    → acquire now' token' id' owner' ttl' w₃ ≡ (go (some m), w₄)
    → m.state_id ≡ l.state_id
    → Steps w₄.db w₅.db
    → Refused w₅ (progress at l cursor oldest newest w₅)
      × Refused w₅ (complete at l w₅)
      × Refused w₅ (fail at l cause retry w₅)
superseded_lease-Refused now now' token token' id id' owner owner' ttl ttl' l m w₁ w₂ w₃ w₄ w₅ at
      cursor oldest newest cause retry first between second same after =
    let (s, t, before, found, grown, gen) = acquire-granted now token id owner ttl l w₁ w₂ first in
    let (s', t', before', found', grown', gen') =
      acquire-granted now' token' id' owner' ttl' m w₃ w₄ second in
    let old =
      superseded l m t s' t' w₂.db w₃.db w₄.db w₅.db found (Steps-Later _ _ between) before' found'
        grown' gen same (Steps-Later _ _ after) in
    (
      progress-Refused at l cursor oldest newest w₅ old,
      complete-Refused at l w₅ old,
      fail-Refused at l cause retry w₅ old,
    )
