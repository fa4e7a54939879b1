-- ===== src/Base/Keyed.antt =====
-- A table with a primary key: UPDATE … WHERE key AND test RETURNING, whose result is `none` where no
-- row qualifies (`RowsAffected` 0, or no rows).
use mathlib.Core.Path.{◌≡◌}
use mathlib.Core.Bool.{Bool, true, false}
use mathlib.Core.Option.{Option, none, some}
use mathlib.Core.List.{List, [], ◌∷◌}
use native.Mathlib.Omega.{arith}
use telegram_gateway.Base.Tests.{if◌then◌else◌, Bool-cases, Option-cases}
use telegram_gateway.Base.Rows.{find_row, update_where}
use mathlib.Core.Logic.{inl, inr}

module _ {ℓ} {A : Type ℓ} where
  unfoldable pub change : (A → Bool) → (A → Bool) → (A → A) → List A → Option A × List A
  change key test f xs = elim (find_row key xs) [
    | none ↦ (none, xs)
    | some r ↦ if test r then (some (f r), update_where key f xs) else (none, xs)
  ]

  -- What a statement that changed no row left, and what one that changed a row did.
  pub data Change (key test : A → Bool) (f : A → A) (xs ys : List A) (o : Option A) : Type ℓ where
    no_row : o ≡ none → ys ≡ xs → find_row key xs ≡ none → Change key test f xs ys o
    refused :
        (r : A)
        → o ≡ none
        → ys ≡ xs
        → find_row key xs ≡ some r
        → test r ≡ false
        → Change key test f xs ys o
    changed :
        (r : A)
        → o ≡ some (f r)
        → ys ≡ update_where key f xs
        → find_row key xs ≡ some r
        → test r ≡ true
        → Change key test f xs ys o

  pub change-Change :
      (key test : A → Bool) (f : A → A) (xs : List A)
      → Change key test f xs (change key test f xs).1 (change key test f xs).0
  unfolding change
  change-Change key test f xs = elim (Option-cases (find_row key xs)) [
    | inl n ↦ no_row (ground arith) (ground arith) n
    | inr (r, e) ↦ elim (Bool-cases (test r)) [
      | inl t ↦ changed r (ground arith) (ground arith) e t
      | inr t ↦ refused r (ground arith) (ground arith) e t
    ]
  ]

  pub change-no :
      (key test : A → Bool) (f : A → A) (xs : List A) (r : A)
      → find_row key xs ≡ some r
      → test r ≡ false
      → change key test f xs ≡ (none, xs)
  unfolding change
  change-no key test f xs r e t = ground arith

  pub change_missing :
      (key test : A → Bool) (f : A → A) (xs : List A)
      → find_row key xs ≡ none
      → change key test f xs ≡ (none, xs)
  unfolding change
  change_missing key test f xs e = ground arith

  pub change_present :
      (key test : A → Bool) (f : A → A) (xs : List A) (r : A)
      → find_row key xs ≡ some r
      → test r ≡ true
      → change key test f xs ≡ (some (f r), update_where key f xs)
  unfolding change
  change_present key test f xs r e t = ground arith

  -- An update that keeps every row under its key keeps the row that a key finds, updated or not.
  pub find_row-update_where :
      (p key : A → Bool) (f : A → A) (xs : List A) (r : A)
      → ((a : A) → key (f a) ≡ key a)
      → find_row key xs ≡ some r
      → find_row key (update_where p f xs) ≡ some (if p r then f r else r)
  find_row-update_where p key f [] r k h = absurd (cc)
  find_row-update_where p key f (x ∷ xs) r k h = elim (Bool-cases (key x)) [
    | inl found ↦ elim (Bool-cases (p x)) [
      | inl t ↦ ground (arith, k x)
      | inr t ↦ ground (arith, k x)
    ]
    | inr other ↦ elim (Bool-cases (p x)) [
      | inl t ↦ ground (arith, k x, find_row-update_where p key f xs r k)
      | inr t ↦ ground (arith, k x, find_row-update_where p key f xs r k)
    ]
  ]
