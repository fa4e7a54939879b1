-- ===== src/Runtime/Growth.antt =====
-- internal/runtime/repository.go: what the statements of the repository do to the generations of the
-- sessions, in any order, at any times, with any failures.
use telegram_gateway.Base.{
  ℕ, String, Bool, true, false, Option, some, List, [], ◌∷◌, ◌||◌, ◌≤◌, ◌≡◌, refl, sym, ap, arith,
  eq_iff, text_eq, not, find_row, any_row, if◌then◌else◌, Bool-cases, inl, inr,
}
use mathlib.Core.Path.{subst}
use telegram_gateway.Base.Keyed.{
  change, no_row, refused, changed, change-Change, find_row-update_where,
}
use telegram_gateway.Base.Handler.{World}
use telegram_gateway.Base.Handler.Keeps.{
  Preorder, Keeps, >>=-Keeps, stop_if-Keeps, expect-Keeps, query-Keeps, pure-Keeps, in_tx-Keeps,
}
use telegram_gateway.Schema.{Time, Uuid}
use telegram_gateway.Runtime.{
  SessionRow, SessionLease, ObservedState, RuntimeError, of_account, new_row, ensure_row,
  acquire_session, renew, release, set_observed_state, set_desired_online,
}

-- Every session of the earlier table is still there, with at least its generation.
unfoldable pub Later : List SessionRow → List SessionRow → Type 0
Later d d' =
    (id : String) (r : SessionRow)
    → find_row (of_account id) d ≡ some r
    → (t : SessionRow) × (find_row (of_account id) d' ≡ some t) × (r.generation ≤ t.generation)

Later-refl : (d : List SessionRow) → Later d d
unfolding Later
Later-refl d id r h = (r, h, omega arith)

Later-trans : (a b c : List SessionRow) → Later a b → Later b c → Later a c
unfolding Later
Later-trans a b c p q id r h =
    let (t, found, le) = p id r h in let (u, found', le') = q id t found in (u, found', omega arith)

later : Preorder (List SessionRow)
later = record { order = Later; stays = Later-refl; joins = Later-trans }

change-Later :
    (key test : SessionRow → Bool) (f : SessionRow → SessionRow) (d : List SessionRow)
    → ((r : SessionRow) → (f r).account_id ≡ r.account_id)
    → ((r : SessionRow) → r.generation ≤ (f r).generation)
    → Later d (change key test f d).1
unfolding Later
change-Later key test f d same grows id r h = elim (change-Change key test f d) [
  | no_row o e n ↦ (r, rw e h, omega arith)
  | refused s o e n t ↦ (r, rw e h, omega arith)
  | changed s o e n t ↦ (
    if key r then f r else r,
    rw e (find_row-update_where key (of_account id) f d r (λ a. ap (λ i. text_eq i id) (same a)) h),
    elim (Bool-cases (key r)) [ inl y ↦ rw y (grows r) | inr y ↦ rw y (omega arith) ],
  )
]

find_row-any_row :
    (id : String) (d : List SessionRow) (r : SessionRow)
    → find_row (of_account id) d ≡ some r
    → any_row (of_account id) d ≡ true
find_row-any_row id [] r h = absurd (cc)
find_row-any_row id (x ∷ d) r h = ground (arith, find_row-any_row id d r)

-- A session that is there keeps its row when another one is added.
find_row-new_row :
    (account shard id : String) (d : List SessionRow) (r : SessionRow)
    → any_row (of_account account) d ≡ false
    → find_row (of_account id) d ≡ some r
    → find_row (of_account id) (new_row account shard ∷ d) ≡ some r
find_row-new_row account shard id d r unused h = elim (Bool-cases (text_eq account id)) [
  | inr other ↦ rw other h
  | inl same ↦
      let there : any_row (of_account account) d ≡ true =
        subst (λ i. any_row (of_account i) d ≡ true) (sym ((eq_iff account id).0 same))
          (find_row-any_row id d r h) in
      absurd (ground (arith, there, unused))
]

pub ensure_row-Later :
    (eligible : Bool) (account shard : String) (d : List SessionRow)
    → Later d (ensure_row eligible account shard d)
unfolding Later ensure_row
ensure_row-Later eligible account shard d id r h =
    elim (Bool-cases (any_row (of_account account) d || not eligible)) [
      | inl there ↦ (r, rw there h, omega arith)
      | inr fresh ↦
          (r, rw fresh (find_row-new_row account shard id d r (ground arith) h), omega arith)
    ]

-- The operations of the repository.
pub data Step : List SessionRow → List SessionRow → Type 0 where
  acquired :
      (eligible : Bool) (now : Time) (token : Uuid) (account worker shard : String) (ttl : ℕ)
      (w : World (List SessionRow))
      → Step w.db (acquire_session eligible now token account worker shard ttl w).1.db
  renewed :
      (now : Time) (l : SessionLease) (ttl : ℕ) (w : World (List SessionRow))
      → Step w.db (renew now l ttl w).1.db
  let_go : (l : SessionLease) (w : World (List SessionRow)) → Step w.db (release l w).1.db
  reported :
      (now : Time) (l : SessionLease) (state : Option ObservedState) (text : String)
      (w : World (List SessionRow))
      → Step w.db (set_observed_state now l state text w).1.db
  switched :
      (account : String) (online : Bool) (w : World (List SessionRow))
      → Step w.db (set_desired_online account online w).1.db

acquire_session-Later :
    (eligible : Bool) (now : Time) (token : Uuid) (account worker shard : String) (ttl : ℕ)
    → Keeps RuntimeError later (acquire_session eligible now token account worker shard ttl)
unfolding acquire_session later
acquire_session-Later eligible now token account worker shard ttl =
    >>=-Keeps RuntimeError later _ _ (stop_if-Keeps RuntimeError later _ _) (λ _.
      >>=-Keeps RuntimeError later _ _ (stop_if-Keeps RuntimeError later _ _) (λ _.
        >>=-Keeps RuntimeError later _ _
          (in_tx-Keeps RuntimeError later _ _ _ (
            >>=-Keeps RuntimeError later _ _
              (query-Keeps RuntimeError later _ _ (ensure_row-Later eligible _ _))
              (λ _.
                >>=-Keeps RuntimeError later _ _
                  (query-Keeps RuntimeError later _ _
                    (λ d. change-Later _ _ _ d (λ r. refl) (λ r. omega arith)))
                  (λ _. expect-Keeps RuntimeError later _ _))))
          (λ _. pure-Keeps RuntimeError later _)))

renew-Later : (now : Time) (l : SessionLease) (ttl : ℕ) → Keeps RuntimeError later (renew now l ttl)
unfolding renew later
renew-Later now l ttl =
    >>=-Keeps RuntimeError later _ _ (stop_if-Keeps RuntimeError later _ _) (λ _.
      >>=-Keeps RuntimeError later _ _ (stop_if-Keeps RuntimeError later _ _) (λ _.
        >>=-Keeps RuntimeError later _ _
          (query-Keeps RuntimeError later _ _
            (λ d. change-Later _ _ _ d (λ r. refl) (λ r. omega arith)))
          (expect-Keeps RuntimeError later _)))

release-Later : (l : SessionLease) → Keeps RuntimeError later (release l)
unfolding release later
release-Later l =
    >>=-Keeps RuntimeError later _ _
      (query-Keeps RuntimeError later _ _
        (λ d. change-Later _ _ _ d (λ r. refl) (λ r. omega arith)))
      (expect-Keeps RuntimeError later _)

set_observed_state-Later :
    (now : Time) (l : SessionLease) (state : Option ObservedState) (text : String)
    → Keeps RuntimeError later (set_observed_state now l state text)
unfolding set_observed_state later
set_observed_state-Later now l state text =
    >>=-Keeps RuntimeError later _ _ (expect-Keeps RuntimeError later _ _) (λ _.
      >>=-Keeps RuntimeError later _ _
        (query-Keeps RuntimeError later _ _
          (λ d. change-Later _ _ _ d (λ r. refl) (λ r. omega arith)))
        (expect-Keeps RuntimeError later _))

set_desired_online-Later :
    (account : String) (online : Bool)
    → Keeps RuntimeError later (set_desired_online account online)
unfolding set_desired_online later
set_desired_online-Later account online =
    >>=-Keeps RuntimeError later _ _
      (query-Keeps RuntimeError later _ _
        (λ d. change-Later _ _ _ d (λ r. refl) (λ r. omega arith)))
      (expect-Keeps RuntimeError later _)

Step-Later : (d d' : List SessionRow) → Step d d' → Later d d'
unfolding later
Step-Later d d' (acquired e now token a k s ttl w) = acquire_session-Later e now token a k s ttl w
Step-Later d d' (renewed now l ttl w) = renew-Later now l ttl w
Step-Later d d' (let_go l w) = release-Later l w
Step-Later d d' (reported now l state text w) = set_observed_state-Later now l state text w
Step-Later d d' (switched account online w) = set_desired_online-Later account online w

pub data Steps : List SessionRow → List SessionRow → Type 0 where
  done : (d : List SessionRow) → Steps d d
  step : (a b c : List SessionRow) → Step a b → Steps b c → Steps a c

pub Steps-Later : (d d' : List SessionRow) → Steps d d' → Later d d'
Steps-Later _ _ (done d) = Later-refl d
Steps-Later _ _ (step a b c s r) = Later-trans a b c (Step-Later a b s) (Steps-Later b c r)
