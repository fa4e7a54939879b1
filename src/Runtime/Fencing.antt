-- ===== src/Runtime/Fencing.antt =====
-- internal/runtime/repository.go: what an acquisition leaves to the owners of earlier leases.
use telegram_gateway.Base.{
  ℕ, String, Bool, true, false, Option, none, some, List, [], ◌∷◌, ◌&&◌, ◌+◌, ◌<◌, ◌≡◌, refl, sym,
  ap, ◌∙◌, arith, eq_iff, ◌⊎◌, inl, inr, trim_space, is_empty, find_row, find_row_sound,
  if◌then◌else◌,
}
use telegram_gateway.Base.Keyed.{
  change, no_row, refused, changed, change-Change, change-no, find_row-update_where,
}
use telegram_gateway.Base.Handler.{
  World, Outcome, reply, go, Handler, ◌>>=◌, query, expect, stop_if,
}
use telegram_gateway.Base.Handler.Inversion.{
  parts, >>=-go, committed, in_tx-go, query-go, expect-go, pure-go, stop_if-keeps,
}
use telegram_gateway.Schema.{Time, Uuid}
use telegram_gateway.Runtime.{
  SessionRow, SessionLease, ObservedState, RuntimeError, lease_lost, invalid_argument,
  database_error, of_account, acquire_session, renew, release, set_observed_state, is_owned_by,
  can_start, started, lease_of_row, is_running, extended, released, observed, ensure_row,
}
use telegram_gateway.Runtime.Growth.{Later, ensure_row-Later, Steps, Steps-Later}

-- The row that an acquisition leaves, under the lease's account and of its generation, which is past
-- the one that any row of that account had.
acquired_row :
    (eligible : Bool) (now : Time) (token : Uuid) (account worker shard : String) (ttl : ℕ)
    (l : SessionLease) (w w' : World (List SessionRow))
    → acquire_session eligible now token account worker shard ttl w ≡ (go l, w')
    → (r : SessionRow) × (find_row (of_account l.account_id) w'.db ≡ some r)
      × (r.generation ≡ l.generation)
      × ((s : SessionRow)
          → find_row (of_account l.account_id) w.db ≡ some s
          → s.generation < l.generation)
unfolding acquire_session Later
acquired_row eligible now token account worker shard ttl l w w' h = elim (>>=-go _ _ _ _ _ h) [
  | parts _ u₁ e₁ h₁ ↦ elim (>>=-go _ _ _ _ _ h₁) [
    | parts _ u₂ e₂ h₂ ↦ elim (>>=-go _ _ _ _ _ h₂) [
      | parts s u₃ e₃ h₃ ↦ elim (in_tx-go _ _ _ _ _ _ e₃) [
        | committed v u same run final ↦ elim (>>=-go _ _ _ _ _ run) [
          | parts _ v₁ f₁ k₁ ↦ elim (>>=-go _ _ _ _ _ k₁) [
            | parts o v₂ f₂ k₂ ↦
                let (_, made) = query-go _ _ _ v v₁ f₁ in
                let ensured : v₁.db
                    ≡ ensure_row eligible (trim_space account)
                        (if is_empty (trim_space shard) then "default" else trim_space shard) w.db =
                  made
                  ∙ ap (ensure_row eligible (trim_space account) _)
                      (same ∙ stop_if-keeps _ _ _ u₁ u₂ e₂ ∙ stop_if-keeps _ _ _ w u₁ e₁) in
                let (o_eq, db_eq) = query-go _ _ o v₁ v₂ f₂ in
                let (s_eq, end_eq) = expect-go _ o s v₂ u k₂ in
                let (l_eq, w_eq) = pure-go _ l u₃ w' h₃ in
                elim (change-Change (of_account (trim_space account)) (can_start now)
                  (started now token (trim_space worker)
                    (if is_empty (trim_space shard) then "default" else trim_space shard) ttl)
                  v₁.db) [
                    | no_row p e n ↦ absurd (ground arith)
                    | refused r p e n t ↦ absurd (ground arith)
                    | changed r p e n t ↦
                        let next =
                          started now token (trim_space worker)
                            (if is_empty (trim_space shard) then "default" else trim_space shard)
                            ttl r in
                        let at_account = find_row_sound (of_account (trim_space account)) v₁.db n in
                        let id_eq : r.account_id ≡ trim_space account =
                          (eq_iff r.account_id (trim_space account)).0 at_account in
                        let s_next : s ≡ next = ground arith in
                        let l_next : l ≡ lease_of_row now token (trim_space worker) ttl next =
                          ground arith in
                        let mine =
                          find_row-update_where (of_account (trim_space account))
                            (of_account (trim_space account))
                            (started now token (trim_space worker)
                              (if is_empty (trim_space shard) then "default" else trim_space shard)
                              ttl)
                            v₁.db r (λ s. refl) n in
                        (
                          next,
                          ap (λ k. find_row (of_account k) w'.db)
                                (ap (λ x. x.account_id) l_next ∙ id_eq)
                              ∙ ap (find_row (of_account (trim_space account)))
                                  (w_eq ∙ final ∙ end_eq ∙ db_eq ∙ e)
                              ∙ mine
                              ∙ rw at_account refl,
                          ap (λ x. x.generation) (sym l_next),
                          λ s there.
                              let (t, found, le) =
                                ensure_row-Later eligible (trim_space account)
                                  (if is_empty (trim_space shard)
                                    then "default"
                                    else trim_space shard)
                                  w.db l.account_id s there in
                              let at_row : find_row (of_account l.account_id) v₁.db ≡ some r =
                                ap (λ k. find_row (of_account k) v₁.db)
                                  (ap (λ x. x.account_id) l_next ∙ id_eq)
                                ∙ n in
                              let one : t ≡ r = ground (
                                arith,
                                sym found
                                    ∙ ap (find_row (of_account l.account_id)) (sym ensured)
                                    ∙ at_row,
                              ) in
                              let grown : l.generation ≡ r.generation + 1 =
                                ap (λ x. x.generation) l_next in
                              omega (arith, le, grown, ap (λ x. x.generation) one),
                        )
                  ]
          ]
        ]
      ]
    ]
  ]
]

not_owned :
    (l : SessionLease) (r : SessionRow) → l.generation < r.generation → is_owned_by l r ≡ false
unfolding is_owned_by
not_owned l r h = ground arith

-- The session of the lease has moved on to a later generation.
Superseded : SessionLease → List SessionRow → Type 0
Superseded l d =
    (r : SessionRow) × (find_row (of_account l.account_id) d ≡ some r)
    × (l.generation < r.generation)

-- The operation has answered an error and the table is as it was.
pub Refused :
    {A : Type 0}
    → World (List SessionRow)
    → Outcome RuntimeError A × World (List SessionRow)
    → Type 0
Refused w x = (e : RuntimeError) × (x.0 ≡ reply e) × (x.1.db ≡ w.db)

Faults-cases :
    (fs : List Bool)
    → ((fs ≡ []) ⊎ ((rest : List Bool) × (fs ≡ false ∷ rest)))
      ⊎ ((rest : List Bool) × (fs ≡ true ∷ rest))
Faults-cases [] = inl (inl refl)
Faults-cases (false ∷ fs) = inl (inr (fs, refl))
Faults-cases (true ∷ fs) = inr (fs, refl)

change-refused :
    (l : SessionLease) (test : SessionRow → Bool) (f : SessionRow → SessionRow)
    (d : List SessionRow)
    → ((r : SessionRow) → l.generation < r.generation → test r ≡ false)
    → Superseded l d
    → change (of_account l.account_id) test f d ≡ (none, d)
unfolding Superseded
change-refused l test f d no_test (r, found, lt) =
    change-no (of_account l.account_id) test f d r found (no_test r lt)

update-Refused :
    (l : SessionLease) (test : SessionRow → Bool) (f : SessionRow → SessionRow)
    (w : World (List SessionRow))
    → ((r : SessionRow) → l.generation < r.generation → test r ≡ false)
    → Superseded l w.db
    → Refused w (
        (query database_error (change (of_account l.account_id) test f) >>= λ row.
        expect lease_lost row)
          w)
unfolding ◌>>=◌ Refused
update-Refused l test f w no_test old =
    let refusal = change-refused l test f w.db no_test old in
    elim (Faults-cases w.faults) [
      | inl ok ↦ (lease_lost, ground arith, ground arith)
      | inr (rest, ko) ↦ (database_error, ground arith, ground arith)
    ]

guard-Refused :
    {A : Type 0}
    → (b : Bool) (e : RuntimeError) (m : Handler RuntimeError (List SessionRow) A)
      (w : World (List SessionRow))
    → Refused w (m w)
    → Refused w ((stop_if b e >>= λ _. m) w)
unfolding ◌>>=◌ Refused
guard-Refused true e m w h = (e, refl, refl)
guard-Refused false e m w h = h

renew-Refused :
    (now : Time) (l : SessionLease) (ttl : ℕ) (w : World (List SessionRow))
    → Superseded l w.db
    → Refused w (renew now l ttl w)
unfolding renew
renew-Refused now l ttl w old = guard-Refused _ invalid_argument _ w (
    guard-Refused _ invalid_argument _ w (
      update-Refused l (λ r. is_owned_by l r && is_running now r) (extended now ttl) w
        (λ r lt. rw (not_owned l r lt) refl) old))

release-Refused :
    (l : SessionLease) (w : World (List SessionRow)) → Superseded l w.db → Refused w (release l w)
unfolding release
release-Refused l w old = update-Refused l (is_owned_by l) released w (not_owned l) old

observe-bad_state :
    (now : Time) (l : SessionLease) (text : String) (w : World (List SessionRow))
    → Refused w (set_observed_state now l none text w)
unfolding set_observed_state ◌>>=◌ Refused
observe-bad_state now l text w = (invalid_argument, refl, refl)

observe-Refused :
    (now : Time) (l : SessionLease) (state : Option ObservedState) (text : String)
    (w : World (List SessionRow))
    → Superseded l w.db
    → Refused w (set_observed_state now l state text w)
unfolding set_observed_state expect query ◌>>=◌
observe-Refused now l none text w old = observe-bad_state now l text w
observe-Refused now l (some state) text w old =
    update-Refused l (is_owned_by l) (observed now state (trim_space text)) w (not_owned l) old

superseded :
    (l m : SessionLease) (r s : SessionRow) (a b c d : List SessionRow)
    → find_row (of_account l.account_id) a ≡ some r
    → r.generation ≡ l.generation
    → Later a b
    → m.account_id ≡ l.account_id
    → ((t : SessionRow)
        → find_row (of_account m.account_id) b ≡ some t
        → t.generation < m.generation)
    → find_row (of_account m.account_id) c ≡ some s
    → s.generation ≡ m.generation
    → Later c d
    → Superseded l d
unfolding Later Superseded
superseded l m r s a b c d found gen p same passed found' gen' q =
    let (t, there, le) = p l.account_id r found in
    let (v, there', le') =
      q l.account_id s (ap (λ k. find_row (of_account k) c) (sym same) ∙ found') in
    let lt = passed t (ap (λ k. find_row (of_account k) b) same ∙ there) in
    (v, there', omega (arith, le, le', lt, gen, gen'))

-- The lease of a session can change nothing any more, whatever happens in between, once the session has
-- been acquired again: renewing it, releasing it and reporting a state under it are each answered with
-- an error and leave the table as it is.
pub acquired_session_fenced :
    (eligible eligible' : Bool) (now now' later : Time) (token token' : Uuid)
    (account account' worker worker' shard shard' : String) (ttl ttl' ttl'' : ℕ)
    (l m : SessionLease) (w₁ w₂ w₃ w₄ w₅ : World (List SessionRow)) (state : Option ObservedState)
    (text : String)
    → acquire_session eligible now token account worker shard ttl w₁ ≡ (go l, w₂)
    → Steps w₂.db w₃.db
    → acquire_session eligible' now' token' account' worker' shard' ttl' w₃ ≡ (go m, w₄)
    → m.account_id ≡ l.account_id
    → Steps w₄.db w₅.db
    → Refused w₅ (renew later l ttl'' w₅)
      × Refused w₅ (release l w₅)
      × Refused w₅ (set_observed_state later l state text w₅)
acquired_session_fenced eligible eligible' now now' later token token' account account' worker
      worker' shard shard' ttl ttl' ttl'' l m w₁ w₂ w₃ w₄ w₅ state text first between second same
      after =
    let (r, found, gen, _) =
      acquired_row eligible now token account worker shard ttl l w₁ w₂ first in
    let (s, found', gen', passed) =
      acquired_row eligible' now' token' account' worker' shard' ttl' m w₃ w₄ second in
    let old =
      superseded l m r s w₂.db w₃.db w₄.db w₅.db found gen (Steps-Later _ _ between) same passed
        found' gen' (Steps-Later _ _ after) in
    (
      renew-Refused later l ttl'' w₅ old,
      release-Refused l w₅ old,
      observe-Refused later l state text w₅ old,
    )
