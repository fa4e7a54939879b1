-- ===== src/Base/Handler/Ends.antt =====
-- A property of the database after a handler, however it ends, from a property of each of its parts.
use mathlib.Core.Path.{◌≡◌, refl, subst, sym}
use mathlib.Core.Bool.{Bool, true, false}
use mathlib.Core.List.{List, [], ◌∷◌}
use mathlib.Core.Option.{Option, none, some}
use telegram_gateway.Base.Handler.{
  World, Handler, query, stop_if, ◌>>=◌, continue, expect, pure, attempt, run_query, run_attempt,
}

module _ {R S : Type 0} (P : S → Type 0) where
  abbrev pub Ends : {A : Type 0} → Handler R S A → World S → Type 0
  Ends m w = P (m w).1.db

  -- From a database equal to `d`, the handler ends in a database with the property.
  abbrev pub From : {A : Type 0} → S → Handler R S A → Type 0
  From d m = (w : World S) → w.db ≡ d → P (m w).1.db

  pub stop_if-From :
      {B : Type 0} (b : Bool) (r : R) (f : Unit {0} → Handler R S B) (d : S)
      → P d
      → (b ≡ false → From d (f tt))
      → From d (stop_if b r >>= f)
  unfolding ◌>>=◌
  stop_if-From {B} true r f d p k w e = subst P (sym e) p
  stop_if-From {B} false r f d p k w e = k refl w e

  pub expect-From :
      {A B : Type 0} (r : R) (o : Option A) (f : A → Handler R S B) (d : S)
      → P d
      → ((a : A) → o ≡ some a → From d (f a))
      → From d (expect r o >>= f)
  unfolding ◌>>=◌
  expect-From {A} {B} r none f d p k w e = subst P (sym e) p
  expect-From {A} {B} r (some a) f d p k w e = k a refl w e

  pub query-From :
      {A B : Type 0} (r : R) (g : S → A × S) (f : A → Handler R S B) (d : S)
      → P d
      → From (g d).1 (f (g d).0)
      → From d (query r g >>= f)
  unfolding ◌>>=◌
  query-From {A} {B} r g f d p k w e = at w.faults
    where
      good : (u : World S) → u.db ≡ (g w.db).1 → P (f (g w.db).0 u).1.db
      good u h = subst (λ d. From (g d).1 (f (g d).0)) (sym e) k u h

      at : (fs : List Bool) → P (continue (run_query fs r g w) f).1.db
      at [] = good (record w { db = (g w.db).1 }) refl
      at (true ∷ fs) = subst P (sym e) p
      at (false ∷ fs) = good (record { db = (g w.db).1; faults = fs }) refl

  -- A statement that ends the handler.
  pub last_query-From :
      {A : Type 0} (r : R) (g : S → A × S) (d : S) → P d → P (g d).1 → From d (query r g)
  unfolding query
  last_query-From {A} r g d p k w e = at w.faults
    where
      at : (fs : List Bool) → P (run_query fs r g w).1.db
      at [] = subst (λ d. P (g d).1) (sym e) k
      at (true ∷ fs) = subst P (sym e) p
      at (false ∷ fs) = subst (λ d. P (g d).1) (sym e) k

  -- A test or an expected row that ends the handler.
  pub last_stop_if-From : (b : Bool) (r : R) (d : S) → P d → From d (stop_if b r)
  unfolding stop_if
  last_stop_if-From true r d p w e = subst P (sym e) p
  last_stop_if-From false r d p w e = subst P (sym e) p

  pub last_expect-From : {A : Type 0} (r : R) (o : Option A) (d : S) → P d → From d (expect r o)
  unfolding expect
  last_expect-From {A} r none d p w e = subst P (sym e) p
  last_expect-From {A} r (some a) d p w e = subst P (sym e) p

  pub attempt-From :
      {A B : Type 0} (a : A) (g : S → S) (f : A → Handler R S B) (d : S)
      → From d (f a)
      → From (g d) (f a)
      → From d (attempt a g >>= f)
  unfolding ◌>>=◌
  attempt-From {A} {B} a g f d p k w e = at w.faults
    where
      good : (u : World S) → u.db ≡ g w.db → P (f a u).1.db
      good u h = subst (λ d. From (g d) (f a)) (sym e) k u h

      at : (fs : List Bool) → P (continue (run_attempt {R = R} fs a g w) f).1.db
      at [] = good (record w { db = g w.db }) refl
      at (true ∷ fs) = p (record w { faults = fs }) e
      at (false ∷ fs) = good (record { db = g w.db; faults = fs }) refl

module _ (R : Type 0) {S : Type 0} (P : S → Type 0) where
  pub pure-From : {A : Type 0} (a : A) (d : S) → P d → From {R = R} P d (pure {R = R} a)
  unfolding pure
  pure-From {A} a d p w e = subst P (sym e) p
