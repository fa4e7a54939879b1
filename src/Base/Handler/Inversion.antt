-- ===== src/Base/Handler/Inversion.antt =====
-- What holds of the parts of a handler that goes on.
use mathlib.Core.Path.{◌≡◌, refl}
use mathlib.Core.Bool.{Bool, true, false}
use mathlib.Core.Option.{Option, none, some}
use mathlib.Core.List.{List, [], ◌∷◌}
use native.Mathlib.Omega.{arith}
use telegram_gateway.Base.Handler.{
  World, Outcome, reply, go, Handler, query, stop_if, expect, pure, in_tx, ◌>>=◌, continue, settle,
  open_tx,
}

module _ {R S A B : Type 0} where
  -- The two parts of a sequence that goes on, and the state between them.
  pub data Parts (m : Handler R S A) (f : A → Handler R S B) (w : World S) (b : B) (w' : World S)
      : Type 0 where
    parts : (a : A) (u : World S) → m w ≡ (go a, u) → f a u ≡ (go b, w') → Parts m f w b w'

  pub >>=-go :
      (m : Handler R S A) (f : A → Handler R S B) (w : World S) (b : B) (w' : World S)
      → (m >>= f) w ≡ (go b, w')
      → Parts m f w b w'
  unfolding ◌>>=◌
  >>=-go m f w b w' h = step (m w) refl h
    where
      step : (x : Outcome R A × World S) → m w ≡ x → continue x f ≡ (go b, w') → Parts m f w b w'
      step (go a, u) e k = parts a u e k
      step (reply r, u) e k = absurd (cc)

  -- A sequence whose first part goes on.
  pub >>=-run :
      (m : Handler R S A) (f : A → Handler R S B) (w u : World S) (a : A)
      → m w ≡ (go a, u)
      → (m >>= f) w ≡ f a u
  unfolding ◌>>=◌
  >>=-run m f w u a h = rw h refl

module _ {R S A : Type 0} where
  -- The run of a transaction's body that was committed, from the database before to the one after.
  pub data Committed (m : Handler R S A) (w : World S) (a : A) (w' : World S) : Type 0 where
    committed : (v u : World S) → v.db ≡ w.db → m v ≡ (go a, u) → w'.db ≡ u.db → Committed m w a w'

  settle-go :
      (lost : A → R) (m : Handler R S A) (w v : World S) (a : A) (w' : World S)
      → v.db ≡ w.db
      → (x : Outcome R A × World S) → m v ≡ x
      → settle lost w.db x ≡ (go a, w')
      → Committed m w a w'
  settle-go lost m w v a w' same (reply r, u) e h = absurd (cc)
  settle-go lost m w v a w' same (go b, u) e h = committed v u same (ground arith) (ground arith)

  -- A handler that went on through a transaction ran its body to the end, and committed.
  pub in_tx-go :
      (r : R) (lost : A → R) (m : Handler R S A) (w : World S) (a : A) (w' : World S)
      → in_tx r lost m w ≡ (go a, w')
      → Committed m w a w'
  unfolding in_tx
  in_tx-go r lost m w a w' h = at w.faults h
    where
      at : (fs : List Bool) → open_tx fs r lost m w ≡ (go a, w') → Committed m w a w'
      at [] k = settle-go lost m w w a w' refl (m w) refl k
      at (true ∷ fs) k = absurd (cc)
      at (false ∷ fs) k =
          let v : World S = record w { faults = fs } in settle-go lost m w v a w' refl (m v) refl k

module _ {R S : Type 0} where
  pub query-noop :
      (r : R) (u : Unit {0}) (w w' : World S) → query r (λ s. (tt, s)) w ≡ (go u, w') → w'.db ≡ w.db
  unfolding query
  query-noop r u w w' h = ground arith

  pub stop_if-keeps :
      (b : Bool) (r : R) (u : Unit {0}) (w w' : World S) → stop_if b r w ≡ (go u, w') → w'.db ≡ w.db
  unfolding stop_if
  stop_if-keeps true r u w w' h = absurd (cc)
  stop_if-keeps false r u w w' h = ground arith

module _ {R S A : Type 0} where
  -- A sequence that went on past a test.
  pub >>=-stop_if :
      (b : Bool) (r : R) (f : Unit {0} → Handler R S A) (a : A) (w w' : World S)
      → (stop_if b r >>= f) w ≡ (go a, w')
      → (b ≡ false) × (f tt w ≡ (go a, w'))
  unfolding ◌>>=◌
  >>=-stop_if true r f a w w' h = absurd (cc)
  >>=-stop_if false r f a w w' h = (refl, h)

module _ {R S A : Type 0} where
  pub expect-go :
      (r : R) (o : Option A) (a : A) (w w' : World S)
      → expect r o w ≡ (go a, w')
      → (o ≡ some a) × (w'.db ≡ w.db)
  unfolding expect
  expect-go r none a w w' h = absurd (cc)
  expect-go r (some b) a w w' h = (ground arith, ground arith)

  pub query-go :
      (r : R) (f : S → A × S) (a : A) (w w' : World S)
      → query r f w ≡ (go a, w')
      → (a ≡ (f w.db).0) × (w'.db ≡ (f w.db).1)
  unfolding query
  query-go r f a w w' h = (ground arith, ground arith)

  pub pure-go :
      (a b : A) (w w' : World S) → pure {R = R} a w ≡ (go b, w') → (b ≡ a) × (w'.db ≡ w.db)
  unfolding pure
  pure-go a b w w' h = (ground arith, ground arith)
