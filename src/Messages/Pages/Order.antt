-- ===== src/Messages/Pages/Order.antt =====
-- The order of the pages (ORDER BY sent_at DESC, telegram_message_id DESC) and the rows below a
-- cursor.
use telegram_gateway.Base.{
  ℕ, zero, suc, ◌≡◌, refl, Bool, true, false, ◌||◌, inl, inr, some, List, [], ◌∷◌, length, arith,
  All, All_mem, Bool-cases, select_where, take, if◌then◌else◌,
}
use telegram_gateway.Base.Slices.{
  drop, last, All-imp, All-select_where, select_where-All, mem-last-take,
}
use mathlib.Core.List.{Perm}
use mathlib.Core.List.Perm
use mathlib.Core.Path.{subst}
use telegram_gateway.Messages.Table.{MessageRow}
use telegram_gateway.Messages.Reads.{is_below, cursor_of, insert_desc, order_desc}

-- the row `b` comes after `a`
abbrev pub is_older : MessageRow → MessageRow → Bool
is_older a b = is_below (cursor_of a) b

pub is_older_trans :
    (a b c : MessageRow) → is_older a b ≡ true → is_older b c ≡ true → is_older a c ≡ true
is_older_trans a b c h k = ground arith

is_older_asym : (a b : MessageRow) → is_older a b ≡ true → is_older b a ≡ false
is_older_asym a b h = ground arith

is_older_irrefl : (a : MessageRow) → is_older a a ≡ false
is_older_irrefl a = ground arith

-- Each row comes after all before it.
abbrev pub NewestFirst : List MessageRow → Type 0
NewestFirst [] = Unit
NewestFirst (x ∷ xs) = All (λ r. is_older x r ≡ true) xs × NewestFirst xs

-- No two rows have the same place in the order.
abbrev pub Apart : List MessageRow → Type 0
Apart [] = Unit
Apart (x ∷ xs) = All (λ r. (is_older x r || is_older r x) ≡ true) xs × Apart xs

All-insert_desc :
    (P : MessageRow → Type 0) (r : MessageRow) (xs : List MessageRow)
    → P r
    → All P xs
    → All P (insert_desc r xs)
All-insert_desc P r [] p h = (p, tt)
All-insert_desc P r (x ∷ xs) p h = elim (Bool-cases (is_older x r)) [
  | inl e ↦ rw e (h.0, All-insert_desc P r xs p h.1)
  | inr e ↦ rw e (p, h)
]

pub All-order_desc :
    (P : MessageRow → Type 0) (xs : List MessageRow) → All P xs → All P (order_desc xs)
All-order_desc P [] h = tt
All-order_desc P (x ∷ xs) h = All-insert_desc P x (order_desc xs) h.0 (All-order_desc P xs h.1)

insert_desc-NewestFirst :
    (r : MessageRow) (xs : List MessageRow)
    → All (λ x. (is_older r x || is_older x r) ≡ true) xs
    → NewestFirst xs
    → NewestFirst (insert_desc r xs)
insert_desc-NewestFirst r [] a s = (tt, tt)
insert_desc-NewestFirst r (x ∷ xs) a s = elim (Bool-cases (is_older x r)) [
  | inl e ↦
      rw e (
        All-insert_desc (λ y. is_older x y ≡ true) r xs e s.0,
        insert_desc-NewestFirst r xs a.1 s.1,
      )
  | inr e ↦
      let first : is_older r x ≡ true = ground (arith, a.0) in
      rw e ((first, All-imp _ _ xs (λ y. is_older_trans r x y first) s.0), s)
]

pub order_desc-NewestFirst : (xs : List MessageRow) → Apart xs → NewestFirst (order_desc xs)
order_desc-NewestFirst [] a = tt
order_desc-NewestFirst (x ∷ xs) a =
    insert_desc-NewestFirst x (order_desc xs) (All-order_desc _ xs a.0)
      (order_desc-NewestFirst xs a.1)

length-insert_desc :
    (r : MessageRow) (xs : List MessageRow) → length (insert_desc r xs) ≡ suc (length xs)
length-insert_desc r [] = refl
length-insert_desc r (x ∷ xs) = ground (arith, length-insert_desc r xs)

pub length-order_desc : (xs : List MessageRow) → length (order_desc xs) ≡ length xs
length-order_desc [] = refl
length-order_desc (x ∷ xs) =
    omega (arith, length-insert_desc x (order_desc xs), length-order_desc xs)

insert_desc-perm : (r : MessageRow) (xs : List MessageRow) → Perm (insert_desc r xs) (r ∷ xs)
insert_desc-perm r [] = Perm.refl _
insert_desc-perm r (x ∷ xs) = elim (Bool-cases (is_older x r)) [
  | inl e ↦ rw e (Perm.trans (Perm.cons x (insert_desc-perm r xs)) (Perm.swap r x xs))
  | inr e ↦ rw e (Perm.refl _)
]

pub order_desc-perm : (xs : List MessageRow) → Perm (order_desc xs) xs
order_desc-perm [] = Perm.refl _
order_desc-perm (x ∷ xs) =
    Perm.trans (insert_desc-perm x (order_desc xs)) (Perm.cons x (order_desc-perm xs))

insert_desc_first :
    (r : MessageRow) (xs : List MessageRow)
    → All (λ x. is_older r x ≡ true) xs
    → insert_desc r xs ≡ r ∷ xs
insert_desc_first r [] h = refl
insert_desc_first r (x ∷ xs) h = rw (is_older_asym r x h.0) refl

select_where-insert_desc :
    (p : MessageRow → Bool) (r : MessageRow) (xs : List MessageRow)
    → All (λ x. (is_older r x || is_older x r) ≡ true) xs
    → NewestFirst xs
    → select_where p (insert_desc r xs)
      ≡ (if p r then insert_desc r (select_where p xs) else select_where p xs)
select_where-insert_desc p r [] a s = ground arith
select_where-insert_desc p r (x ∷ xs) a s = elim (Bool-cases (is_older x r)) [
  | inl e ↦ ground (arith, select_where-insert_desc p r xs a.1 s.1)
  | inr e ↦
      let first : is_older r x ≡ true = ground (arith, a.0) in
      let below : All (λ y. is_older r y ≡ true) (x ∷ xs) =
        (first, All-imp _ _ xs (λ y. is_older_trans r x y first) s.0) in
      ground
        (arith, insert_desc_first r (select_where p (x ∷ xs)) (All-select_where _ p (x ∷ xs) below))
]

-- Selecting before or after ordering is the same.
pub select_where-order_desc :
    (p : MessageRow → Bool) (xs : List MessageRow)
    → Apart xs
    → select_where p (order_desc xs) ≡ order_desc (select_where p xs)
select_where-order_desc p [] a = refl
select_where-order_desc p (x ∷ xs) a = ground (
  arith,
  select_where-insert_desc p x (order_desc xs) (All-order_desc _ xs a.0)
      (order_desc-NewestFirst xs a.1),
  select_where-order_desc p xs a.1,
)

pub select_where-NewestFirst :
    (p : MessageRow → Bool) (xs : List MessageRow)
    → NewestFirst xs
    → NewestFirst (select_where p xs)
select_where-NewestFirst p [] s = tt
select_where-NewestFirst p (x ∷ xs) s = elim (Bool-cases (p x)) [
  | inl e ↦ rw e (All-select_where _ p xs s.0, select_where-NewestFirst p xs s.1)
  | inr e ↦ rw e (select_where-NewestFirst p xs s.1)
]

pub select_where-Apart :
    (p : MessageRow → Bool) (xs : List MessageRow) → Apart xs → Apart (select_where p xs)
select_where-Apart p [] s = tt
select_where-Apart p (x ∷ xs) s = elim (Bool-cases (p x)) [
  | inl e ↦ rw e (All-select_where _ p xs s.0, select_where-Apart p xs s.1)
  | inr e ↦ rw e (select_where-Apart p xs s.1)
]

-- Below the last row of a page is what the page left.
pub select_below_last :
    (n : ℕ) (xs : List MessageRow) (c : MessageRow)
    → NewestFirst xs
    → last (take n xs) ≡ some c
    → select_where (is_below (cursor_of c)) xs ≡ drop n xs
select_below_last zero xs c s h = absurd (cc)
select_below_last (suc n) [] c s h = refl
select_below_last (suc zero) (x ∷ xs) c s h =
    let same_row : x ≡ c = ground arith in
    subst (λ c. select_where (is_below (cursor_of c)) (x ∷ xs) ≡ xs) same_row
      (rw (is_older_irrefl x) (select_where-All (is_below (cursor_of x)) xs s.0))
select_below_last (suc (suc n)) (x ∷ []) c s h =
    let same_row : x ≡ c = ground arith in
    subst (λ c. select_where (is_below (cursor_of c)) (x ∷ []) ≡ []) same_row
      (rw (is_older_irrefl x) refl)
select_below_last (suc (suc n)) (x ∷ y ∷ xs) c s h =
    let below : is_older x c ≡ true =
      All_mem (λ r. is_older x r ≡ true) c (y ∷ xs) s.0 (mem-last-take (suc n) (y ∷ xs) c h) in
    rw (is_older_asym x c below) (select_below_last (suc n) (y ∷ xs) c s.1 h)
