-- ===== src/Base/Handler/Keeps.antt =====
-- A reflexive and transitive relation that every statement of a handler respects holds between the
-- database before the handler and the one after it.
use mathlib.Core.Bool.{Bool, true, false}
use mathlib.Core.List.{List, [], ◌∷◌}
use mathlib.Core.Option.{Option, none, some}
use telegram_gateway.Base.Handler.{
  World, Outcome, reply, go, Handler, query, stop_if, in_tx, ◌>>=◌, continue, settle, open_tx,
  expect, pure, attempt, run_query, run_attempt, close,
}

pub record Preorder (S : Type 0) : Type 1 where
  pub order : S → S → Type 0
  pub stays : (s : S) → order s s
  pub joins : (a b c : S) → order a b → order b c → order a c

module _ (R : Type 0) {S : Type 0} (P : Preorder S) where
  open P use {order, stays, joins}

  abbrev pub Keeps : {A : Type 0} → Handler R S A → Type 0
  Keeps m = (w : World S) → order w.db (m w).1.db

  pub stop_if-Keeps : (b : Bool) (r : R) → Keeps (stop_if {R = R} b r)
  unfolding stop_if
  stop_if-Keeps true r w = stays w.db
  stop_if-Keeps false r w = stays w.db

  pub pure-Keeps : {A : Type 0} → (a : A) → Keeps (pure {R = R} a)
  unfolding pure
  pure-Keeps a w = stays w.db

  pub expect-Keeps : {A : Type 0} → (r : R) (o : Option A) → Keeps (expect r o)
  unfolding expect
  expect-Keeps r none w = stays w.db
  expect-Keeps r (some a) w = stays w.db

  pub query-Keeps :
      {A : Type 0} → (r : R) (f : S → A × S) → ((s : S) → order s (f s).1) → Keeps (query r f)
  unfolding query
  query-Keeps r f k w = at w.faults
    where
      at : (fs : List Bool) → order w.db (run_query fs r f w).1.db
      at [] = k w.db
      at (true ∷ fs) = stays w.db
      at (false ∷ fs) = k w.db

  pub attempt-Keeps :
      {A : Type 0} → (a : A) (f : S → S) → ((s : S) → order s (f s)) → Keeps (attempt {R = R} a f)
  unfolding attempt
  attempt-Keeps a f k w = at w.faults
    where
      at : (fs : List Bool) → order w.db (run_attempt {R = R} fs a f w).1.db
      at [] = k w.db
      at (true ∷ fs) = stays w.db
      at (false ∷ fs) = k w.db

  pub >>=-Keeps :
      {A B : Type 0}
      → (m : Handler R S A) (f : A → Handler R S B) → Keeps m
      → ((a : A) → Keeps (f a))
      → Keeps (m >>= f)
  unfolding ◌>>=◌
  >>=-Keeps {A = A} {B = B} m f k l w = at (m w) (k w)
    where
      at : (x : Outcome R A × World S) → order w.db x.1.db → order w.db (continue x f).1.db
      at (go a, u) p = joins w.db u.db (f a u).1.db p (l a u)
      at (reply r, u) p = p

  pub in_tx-Keeps :
      {A : Type 0} → (r : R) (lost : A → R) (m : Handler R S A) → Keeps m → Keeps (in_tx r lost m)
  unfolding in_tx
  in_tx-Keeps {A = A} r lost m k w = at w.faults
    where
      done :
          (before : S) (fs : List Bool) (a : A) (u : World S)
          → order before u.db
          → order before (close {R = R} fs lost a before u).1.db
      done before [] a u p = p
      done before (true ∷ fs) a u p = stays before
      done before (false ∷ fs) a u p = p

      ends :
          (before : S) (x : Outcome R A × World S)
          → order before x.1.db
          → order before (settle lost before x).1.db
      ends before (go a, u) p = done before u.faults a u p
      ends before (reply r', u) p = stays before

      at : (fs : List Bool) → order w.db (open_tx fs r lost m w).1.db
      at [] = ends w.db (m w) (k w)
      at (true ∷ fs) = stays w.db
      at (false ∷ fs) = let v : World S = record w { faults = fs } in ends w.db (m v) (k v)
