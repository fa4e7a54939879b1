-- ===== src/Base/Slices.antt =====
-- Slices of a list and nested conditions of a query.
use Prim.Native.Nat.{ℕ, zero, suc, ◌-◌, ◌<◌, ◌≤◌}
use mathlib.Core.Path.{◌≡◌, refl, ap}
use mathlib.Core.Bool.{Bool, true, ◌&&◌}
use mathlib.Core.Logic.{inl, inr}
use mathlib.Core.Option.{Option, none, some}
use mathlib.Core.List.{List, [], ◌∷◌, ◌++◌, Memᴰ}
use native.Mathlib.Omega.{arith}
use telegram_gateway.Base.Tests.{Bool-cases}
use telegram_gateway.Base.Rows.{length, take, select_where, All}

module _ {ℓ} {A : Type ℓ} where
  -- xs[n:]
  abbrev pub drop : ℕ → List A → List A
  drop zero xs = xs
  drop (suc n) [] = []
  drop (suc n) (x ∷ xs) = drop n xs

  -- xs[len(xs)-1]
  abbrev pub last : List A → Option A
  last [] = none
  last (x ∷ []) = some x
  last (x ∷ y ∷ xs) = last (y ∷ xs)

  pub take-append-drop : (n : ℕ) (xs : List A) → take n xs ++ drop n xs ≡ xs
  take-append-drop zero xs = refl
  take-append-drop (suc n) [] = refl
  take-append-drop (suc n) (x ∷ xs) = ap (◌∷◌ x) (take-append-drop n xs)

  pub length-drop : (n : ℕ) (xs : List A) → length (drop n xs) ≡ length xs - n
  length-drop zero xs = omega arith
  length-drop (suc n) [] = omega arith
  length-drop (suc n) (x ∷ xs) = omega (arith, length-drop n xs)

  pub take_all : (n : ℕ) (xs : List A) → length xs ≤ n → take n xs ≡ xs
  take_all zero [] h = refl
  take_all zero (x ∷ xs) h = absurd (omega arith)
  take_all (suc n) [] h = refl
  take_all (suc n) (x ∷ xs) h = ap (◌∷◌ x) (take_all n xs (omega arith))

  -- A longer prefix has the shorter one.
  pub take-take : (n : ℕ) (xs : List A) → take n (take (suc n) xs) ≡ take n xs
  take-take zero xs = refl
  take-take (suc n) [] = refl
  take-take (suc n) (x ∷ xs) = ap (◌∷◌ x) (take-take n xs)

  pub length-take_short : (n : ℕ) (xs : List A) → length (take (suc n) xs) ≤ n → length xs ≤ n
  length-take_short n [] h = omega arith
  length-take_short zero (x ∷ xs) h = absurd (omega arith)
  length-take_short (suc n) (x ∷ xs) h = omega (arith, length-take_short n xs (omega arith))

  pub length-take_long : (n : ℕ) (xs : List A) → n < length (take (suc n) xs) → n < length xs
  length-take_long n [] h = absurd (omega arith)
  length-take_long zero (x ∷ xs) h = omega arith
  length-take_long (suc n) (x ∷ xs) h = omega (arith, length-take_long n xs (omega arith))

  -- Two conditions one after the other.
  pub select_where-select_where :
      (p q : A → Bool) (xs : List A)
      → select_where q (select_where p xs) ≡ select_where (λ a. p a && q a) xs
  select_where-select_where p q [] = refl
  select_where-select_where p q (x ∷ xs) = ground (arith, select_where-select_where p q xs)

  pub select_where_ext :
      (p q : A → Bool) (xs : List A) → ((a : A) → p a ≡ q a) → select_where p xs ≡ select_where q xs
  select_where_ext p q [] h = refl
  select_where_ext p q (x ∷ xs) h = ground (arith, h x, select_where_ext p q xs h)

  pub select_where-All :
      (p : A → Bool) (xs : List A) → All (λ a. p a ≡ true) xs → select_where p xs ≡ xs
  select_where-All p [] h = refl
  select_where-All p (x ∷ xs) h = rw h.0 (ap (◌∷◌ x) (select_where-All p xs h.1))

  pub All-select_where {κ} :
      (P : A → Type κ) (p : A → Bool) (xs : List A) → All P xs → All P (select_where p xs)
  All-select_where P p [] h = tt
  All-select_where P p (x ∷ xs) h = elim (Bool-cases (p x)) [
    | inl e ↦ rw e (h.0, All-select_where P p xs h.1)
    | inr e ↦ rw e (All-select_where P p xs h.1)
  ]

  -- What a query returns satisfies its condition.
  pub All-selected : (p : A → Bool) (xs : List A) → All (λ a. p a ≡ true) (select_where p xs)
  All-selected p [] = tt
  All-selected p (x ∷ xs) = elim (Bool-cases (p x)) [
    | inl e ↦ rw e (e, All-selected p xs)
    | inr e ↦ rw e (All-selected p xs)
  ]

  pub All-imp {κ μ} :
      (P : A → Type κ) (Q : A → Type μ) (xs : List A) → ((a : A) → P a → Q a) → All P xs → All Q xs
  All-imp P Q [] f h = tt
  All-imp P Q (x ∷ xs) f h = (f x h.0, All-imp P Q xs f h.1)

  pub All-take {κ} : (P : A → Type κ) (n : ℕ) (xs : List A) → All P xs → All P (take n xs)
  All-take P zero xs h = tt
  All-take P (suc n) [] h = tt
  All-take P (suc n) (x ∷ xs) h = (h.0, All-take P n xs h.1)

  pub mem-last-take : (n : ℕ) (xs : List A) (a : A) → last (take n xs) ≡ some a → Memᴰ a xs
  mem-last-take zero xs a h = absurd (cc)
  mem-last-take (suc n) [] a h = absurd (cc)
  mem-last-take (suc zero) (x ∷ xs) a h = Memᴰ.head (ground arith)
  mem-last-take (suc (suc n)) (x ∷ []) a h = Memᴰ.head (ground arith)
  mem-last-take (suc (suc n)) (x ∷ y ∷ xs) a h = Memᴰ.tail (mem-last-take (suc n) (y ∷ xs) a h)

  -- A prefix of a list that is long enough has a last element.
  pub last-take-some :
      (n : ℕ) (xs : List A) → 0 < n → n < length xs → (a : A) × (last (take n xs) ≡ some a)
  last-take-some zero xs h k = absurd (omega arith)
  last-take-some (suc n) [] h k = absurd (omega arith)
  last-take-some (suc zero) (x ∷ xs) h k = (x, refl)
  last-take-some (suc (suc n)) (x ∷ []) h k = absurd (omega arith)
  last-take-some (suc (suc n)) (x ∷ y ∷ xs) h k =
      last-take-some (suc n) (y ∷ xs) (omega arith) (omega arith)

  pub All-both {κ μ} :
      (P : A → Type κ) (Q : A → Type μ) (xs : List A)
      → All P xs
      → All Q xs
      → All (λ a. P a × Q a) xs
  All-both P Q [] h k = tt
  All-both P Q (x ∷ xs) h k = ((h.0, k.0), All-both P Q xs h.1 k.1)

  pub All-append {κ} : (P : A → Type κ) (xs ys : List A) → All P xs → All P ys → All P (xs ++ ys)
  All-append P [] ys h k = k
  All-append P (x ∷ xs) ys h k = (h.0, All-append P xs ys h.1 k)
