-- ===== src/Base/Handler.antt =====
-- A request handler over a database: every statement may fail (the next element of `faults` says
-- whether it does), an early `return` is the outcome `reply`, and a transaction that is not
-- committed leaves the database as it was.
pub mod Inversion
pub mod Ends
pub mod Keeps
use mathlib.Core.Bool.{Bool, true, false}
use mathlib.Core.List.{List, [], ◌∷◌}
use mathlib.Core.Option.{Option, none, some}

pub record World (S : Type 0) : Type 0 where
  pub db : S
  pub faults : List Bool

pub data Outcome (R A : Type 0) : Type 0 where
  reply : R → Outcome R A
  go : A → Outcome R A

abbrev pub Handler : Type 0 → Type 0 → Type 0 → Type 0
Handler R S A = World S → Outcome R A × World S

module _ {R S : Type 0} where
  -- if test { fail(…); return }
  unfoldable pub stop_if : Bool → R → Handler R S Unit
  stop_if true r w = (reply r, w)
  stop_if false r w = (go tt, w)

module _ {R S A : Type 0} where
  unfoldable pub pure : A → Handler R S A
  pure a w = (go a, w)

  unfoldable pub respond : R → Handler R S A
  respond r w = (reply r, w)

  abbrev run_query : List Bool → R → (S → A × S) → World S → Outcome R A × World S
  run_query [] r f w = (go (f w.db).0, record w { db = (f w.db).1 })
  run_query (true ∷ fs) r f w = (reply r, record w { faults = fs })
  run_query (false ∷ fs) r f w = (go (f w.db).0, record { db = (f w.db).1; faults = fs })

  -- One statement: on a database error the handler answers `r` and nothing has changed.
  unfoldable pub query : R → (S → A × S) → Handler R S A
  query r f w = run_query w.faults r f w

  -- One statement whose error is dropped: `_, _ = pool.Exec(…)`.
  abbrev run_attempt : List Bool → A → (S → S) → World S → Outcome R A × World S
  run_attempt [] a f w = (go a, record w { db = f w.db })
  run_attempt (true ∷ fs) a f w = (go a, record w { faults = fs })
  run_attempt (false ∷ fs) a f w = (go a, record { db = f w.db; faults = fs })

  unfoldable pub attempt : A → (S → S) → Handler R S A
  attempt a f w = run_attempt w.faults a f w

  -- A row that has to be there: `pgx.ErrNoRows` is answered like any other error.
  unfoldable pub expect : R → Option A → Handler R S A
  expect r none w = (reply r, w)
  expect r (some a) w = (go a, w)

  abbrev close : List Bool → (A → R) → A → S → World S → Outcome R A × World S
  close [] lost a before w = (go a, w)
  close (true ∷ fs) lost a before w = (reply (lost a), record { db = before; faults = fs })
  close (false ∷ fs) lost a before w = (go a, record w { faults = fs })

  abbrev settle : (A → R) → S → Outcome R A × World S → Outcome R A × World S
  settle lost before (reply r, w) = (reply r, record w { db = before })
  settle lost before (go a, w) = close w.faults lost a before w

  abbrev open_tx : List Bool → R → (A → R) → Handler R S A → World S → Outcome R A × World S
  open_tx [] r lost m w = settle lost w.db (m w)
  open_tx (true ∷ fs) r lost m w = (reply r, record w { faults = fs })
  open_tx (false ∷ fs) r lost m w = settle lost w.db (m (record w { faults = fs }))

  -- Begin, the body, then Commit: `r` answers a failed Begin, `lost` a failed Commit. An early
  -- return of the body and a failed Commit roll back.
  unfoldable pub in_tx : R → (A → R) → Handler R S A → Handler R S A
  in_tx r lost m w = open_tx w.faults r lost m w

module _ {Q R S A : Type 0} where
  abbrev renamed : (Q → R) → Outcome Q A × World S → Outcome R A × World S
  renamed f (go a, w) = (go a, w)
  renamed f (reply q, w) = (reply (f q), w)

  -- A call whose error is answered by what `f` makes of it.
  unfoldable pub within : (Q → R) → Handler Q S A → Handler R S A
  within f m w = renamed f (m w)

  -- A call whose result or error is a value of the caller.
  unfoldable pub call : Handler Q S A → Handler R S (Outcome Q A)
  call m w = (go (m w).0, (m w).1)

module _ {R S A B : Type 0} where
  abbrev continue : Outcome R A × World S → (A → Handler R S B) → Outcome R B × World S
  continue (go a, w) f = f a w
  continue (reply r, w) f = (reply r, w)

  infixl 5 ◌>>=◌ ◌>>◌
  unfoldable pub ◌>>=◌ : Handler R S A → (A → Handler R S B) → Handler R S B
  unfolding stop_if pure respond query attempt expect in_tx within call
  ◌>>=◌ m f w = continue (m w) f

  abbrev pub ◌>>◌ : Handler R S A → Handler R S B → Handler R S B
  m >> n = m >>= λ _. n
