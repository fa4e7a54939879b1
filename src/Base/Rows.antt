-- ===== src/Base/Rows.antt =====
-- A database table as the list of its rows, and the four statements that the queries are made of.
use Prim.Native.Nat.{ℕ, zero, suc}
use mathlib.Core.Path.{◌≡◌, refl, sym, ap, subst, ◌∙◌}
use mathlib.Core.Bool.{Bool, true, false}
use mathlib.Core.Logic.{inl, inr}
use mathlib.Core.Option.{Option, none, some}
use mathlib.Core.List.{List, [], ◌∷◌, Memᴰ}
use native.Mathlib.Omega.{arith}
use telegram_gateway.Base.Tests.{if◌then◌else◌, Bool-cases}

module _ {ℓ} {A : Type ℓ} where
  abbrev pub length : List A → ℕ
  length [] = 0
  length (x ∷ xs) = suc (length xs)

  abbrev pub take : ℕ → List A → List A
  take zero xs = []
  take (suc n) [] = []
  take (suc n) (x ∷ xs) = x ∷ take n xs

  -- SELECT … WHERE p LIMIT 1 (the first row in the table's order)
  abbrev pub find_row : (A → Bool) → List A → Option A
  find_row p [] = none
  find_row p (x ∷ xs) = let rest = find_row p xs in if p x then some x else rest

  -- SELECT … WHERE p
  abbrev pub select_where : (A → Bool) → List A → List A
  select_where p [] = []
  select_where p (x ∷ xs) = let rest = select_where p xs in if p x then x ∷ rest else rest

  -- DELETE … WHERE p
  abbrev pub delete_where : (A → Bool) → List A → List A
  delete_where p [] = []
  delete_where p (x ∷ xs) = let rest = delete_where p xs in if p x then rest else x ∷ rest

  -- UPDATE … SET f WHERE p
  abbrev pub update_where : (A → Bool) → (A → A) → List A → List A
  update_where p f [] = []
  update_where p f (x ∷ xs) = (if p x then f x else x) ∷ update_where p f xs

  -- the number of rows that satisfy p: `RowsAffected` of an UPDATE or DELETE … WHERE p
  abbrev pub count_where : (A → Bool) → List A → ℕ
  count_where p [] = 0
  count_where p (x ∷ xs) = let rest = count_where p xs in if p x then suc rest else rest

  -- EXISTS (SELECT 1 … WHERE p)
  abbrev pub any_row : (A → Bool) → List A → Bool
  any_row p [] = false
  any_row p (x ∷ xs) = let rest = any_row p xs in if p x then true else rest

  abbrev pub All {κ} : (A → Type κ) → List A → Type κ
  All P [] = Unit
  All P (x ∷ xs) = P x × All P xs

module _ {ℓ} {A : Type ℓ} where
  -- What a query returns satisfies its condition.
  pub find_row_sound : (p : A → Bool) (xs : List A) {a : A} → find_row p xs ≡ some a → p a ≡ true
  find_row_sound p [] h = cc
  find_row_sound p (x ∷ xs) {a} h = ground (arith, find_row_sound p xs {a = a})

  -- What a query returns is a row of the table.
  pub find_row_mem : (p : A → Bool) (xs : List A) {a : A} → find_row p xs ≡ some a → Memᴰ a xs
  find_row_mem p [] h = absurd (cc)
  find_row_mem p (x ∷ xs) {a} h = elim (Bool-cases (p x)) [
    | inl e ↦ Memᴰ.head (ground arith)
    | inr e ↦ Memᴰ.tail (find_row_mem p xs (rw e at h))
  ]

  -- No row that a deletion covers is found afterwards.
  pub find_row-delete_where :
      (p q : A → Bool) (xs : List A)
      → ((a : A) → p a ≡ true → q a ≡ true)
      → find_row p (delete_where q xs) ≡ none
  find_row-delete_where p q [] h = refl
  find_row-delete_where p q (x ∷ xs) h = ground (arith, h x, find_row-delete_where p q xs h)

  pub find_row-none :
      (p : A → Bool) (xs : List A) → All (λ a. p a ≡ false) xs → find_row p xs ≡ none
  find_row-none p [] h = refl
  find_row-none p (x ∷ xs) h = rw h.0 (find_row-none p xs h.1)

  pub All_mem {κ} : (P : A → Type κ) (a : A) (xs : List A) → All P xs → Memᴰ a xs → P a
  All_mem P a [] h m = elim m [ ]
  All_mem P a (x ∷ xs) h (Memᴰ.head e) = subst P (sym e) h.0
  All_mem P a (x ∷ xs) h (Memᴰ.tail m) = All_mem P a xs h.1 m

  -- A property of every row survives an update that keeps it, and a deletion.
  pub All-update_where {κ} :
      (P : A → Type κ) (q : A → Bool) (f : A → A) (xs : List A)
      → ((a : A) → P a → P (f a))
      → All P xs
      → All P (update_where q f xs)
  All-update_where P q f [] k h = tt
  All-update_where P q f (x ∷ xs) k h = elim (Bool-cases (q x)) [
    | inl e ↦ rw e (k x h.0, All-update_where P q f xs k h.1)
    | inr e ↦ rw e (h.0, All-update_where P q f xs k h.1)
  ]

  pub All-delete_where {κ} :
      (P : A → Type κ) (q : A → Bool) (xs : List A) → All P xs → All P (delete_where q xs)
  All-delete_where P q [] h = tt
  All-delete_where P q (x ∷ xs) h = elim (Bool-cases (q x)) [
    | inl e ↦ rw e (All-delete_where P q xs h.1)
    | inr e ↦ rw e (h.0, All-delete_where P q xs h.1)
  ]

  -- After an update each row is untouched or is the update of a row that it covered.
  pub All-update_where_covered {κ} :
      (P : A → Type κ) (q : A → Bool) (f : A → A) (xs : List A)
      → ((a : A) → q a ≡ true → P (f a))
      → ((a : A) → q a ≡ false → P a)
      → All P (update_where q f xs)
  All-update_where_covered P q f [] k l = tt
  All-update_where_covered P q f (x ∷ xs) k l = elim (Bool-cases (q x)) [
    | inl e ↦ rw e (k x e, All-update_where_covered P q f xs k l)
    | inr e ↦ rw e (l x e, All-update_where_covered P q f xs k l)
  ]

  -- A row that a query for `any_row` misses does not satisfy its condition.
  pub any_row-false :
      (p : A → Bool) (a : A) (xs : List A) → Memᴰ a xs → any_row p xs ≡ false → p a ≡ false
  any_row-false p a [] m h = elim m [ ]
  any_row-false p a (x ∷ xs) (Memᴰ.head e) h = ground (arith, ap p e)
  any_row-false p a (x ∷ xs) (Memᴰ.tail m) h = any_row-false p a xs m (ground arith)

  pub any_row-true :
      (p : A → Bool) (a : A) (xs : List A) → Memᴰ a xs → p a ≡ true → any_row p xs ≡ true
  any_row-true p a [] m h = elim m [ ]
  any_row-true p a (x ∷ xs) (Memᴰ.head e) h = ground (arith, ap p e)
  any_row-true p a (x ∷ xs) (Memᴰ.tail m) h = ground (arith, any_row-true p a xs m h)

  pub mem-update_where :
      (q : A → Bool) (f : A → A) (a : A) (xs : List A)
      → Memᴰ a xs
      → Memᴰ (if q a then f a else a) (update_where q f xs)
  mem-update_where q f a [] m = elim m [ ]
  mem-update_where q f a (x ∷ xs) (Memᴰ.head e) = Memᴰ.head (ap (λ y. if q y then f y else y) e)
  mem-update_where q f a (x ∷ xs) (Memᴰ.tail m) = Memᴰ.tail (mem-update_where q f a xs m)

  -- What a deletion leaves it does not cover.
  pub All-deleted : (q : A → Bool) (xs : List A) → All (λ a. q a ≡ false) (delete_where q xs)
  All-deleted q [] = tt
  All-deleted q (x ∷ xs) = elim (Bool-cases (q x)) [
    | inl e ↦ rw e (All-deleted q xs)
    | inr e ↦ rw e (e, All-deleted q xs)
  ]

  -- A row that a deletion does not cover stays.
  pub mem-delete_where :
      (q : A → Bool) (a : A) (xs : List A) → Memᴰ a xs → q a ≡ false → Memᴰ a (delete_where q xs)
  mem-delete_where q a [] m h = elim m [ ]
  mem-delete_where q a (x ∷ xs) (Memᴰ.head e) h = rw (ap q (sym e) ∙ h) (Memᴰ.head e)
  mem-delete_where q a (x ∷ xs) (Memᴰ.tail m) h = elim (Bool-cases (q x)) [
    | inl covered ↦ rw covered (mem-delete_where q a xs m h)
    | inr left ↦ rw left (Memᴰ.tail (mem-delete_where q a xs m h))
  ]
