-- ===== src/Base/Lookup.antt =====
-- What a key finds in a table that has changed.
use mathlib.Core.Path.{◌≡◌, refl, ap}
use mathlib.Core.Bool.{Bool, true, false}
use mathlib.Core.Logic.{inl, inr}
use mathlib.Core.Option.{none, some}
use mathlib.Core.List.{List, [], ◌∷◌, ◌++◌, map}
use native.Mathlib.Omega.{arith}
use telegram_gateway.Base.Tests.{if◌then◌else◌, Bool-cases}
use telegram_gateway.Base.Rows.{find_row, any_row, All, update_where}
use telegram_gateway.Base.Options.{option_map}

module _ {ℓ} {A : Type ℓ} where
  -- A change of every row that keeps its key.
  pub find_row-map :
      (key : A → Bool) (g : A → A) (xs : List A)
      → ((a : A) → key (g a) ≡ key a)
      → find_row key (map g xs) ≡ option_map g (find_row key xs)
  find_row-map key g [] h = refl
  find_row-map key g (x ∷ xs) h = ground (arith, h x, find_row-map key g xs h)

  pub update_where-map :
      (p : A → Bool) (f : A → A) (xs : List A)
      → update_where p f xs ≡ map (λ a. if p a then f a else a) xs
  update_where-map p f [] = refl
  update_where-map p f (x ∷ xs) = ap (◌∷◌ (if p x then f x else x)) (update_where-map p f xs)

  -- A new last row is found only where no other is.
  pub find_row-append :
      (key : A → Bool) (xs : List A) (a : A)
      → find_row key (xs ++ (a ∷ []))
        ≡ elim (find_row key xs) [ none ↦ if key a then some a else none | some r ↦ some r ]
  find_row-append key [] a = refl
  find_row-append key (x ∷ xs) a = ground (arith, find_row-append key xs a)

  pub any_row-map :
      (key : A → Bool) (g : A → A) (xs : List A)
      → ((a : A) → key (g a) ≡ key a)
      → any_row key (map g xs) ≡ any_row key xs
  any_row-map key g [] h = refl
  any_row-map key g (x ∷ xs) h = ground (arith, h x, any_row-map key g xs h)

  pub any_row-append :
      (key : A → Bool) (xs : List A) (a : A)
      → any_row key xs ≡ true
      → any_row key (xs ++ (a ∷ [])) ≡ true
  any_row-append key [] a h = absurd (cc)
  any_row-append key (x ∷ xs) a h = ground (arith, any_row-append key xs a)

  pub any_row-find_row :
      (key : A → Bool) (xs : List A) → find_row key xs ≡ none → any_row key xs ≡ false
  any_row-find_row key [] h = refl
  any_row-find_row key (x ∷ xs) h = ground (arith, any_row-find_row key xs)

  -- No row has a key that finds none.
  pub All-find_row :
      (key : A → Bool) (xs : List A) → find_row key xs ≡ none → All (λ a. key a ≡ false) xs
  All-find_row key [] h = tt
  All-find_row key (x ∷ xs) h = elim (Bool-cases (key x)) [
    | inl e ↦ absurd (ground arith)
    | inr e ↦ (e, All-find_row key xs (ground arith))
  ]

  pub All-map {κ μ} :
      (P : A → Type κ) (Q : A → Type μ) (g : A → A) (xs : List A)
      → ((a : A) → P a → Q (g a))
      → All P xs
      → All Q (map g xs)
  All-map P Q g [] f h = tt
  All-map P Q g (x ∷ xs) f h = (f x h.0, All-map P Q g xs f h.1)
