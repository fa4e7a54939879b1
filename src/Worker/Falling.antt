-- ===== src/Worker/Falling.antt =====
-- Lists of messages whose ids fall, and what a history job wants of them (internal/worker/history.go).
use telegram_gateway.Base.{
  ℕ, zero, suc, ◌≡◌, refl, sym, ap, ◌∙◌, Bool, true, false, Option, some, ◌&&◌, ◌||◌, ◌==◌, ◌<◌,
  ◌⊎◌, inl, inr, List, [], ◌∷◌, ◌++◌, arith, All, All_mem, Memᴰ, Bool-cases, select_where, any_row,
  take, length, not, ltb,
}
use telegram_gateway.Base.Slices.{
  drop, last, All-imp, select_where-All, All-select_where, mem-last-take, select_where-select_where,
  select_where_ext, All-take,
}
use telegram_gateway.Worker.History.{Item, is_known}

-- Ids fall from each message to the next.
abbrev pub Falling : List Item → Type 0
Falling [] = Unit
Falling (x ∷ xs) = All (λ i. i.telegram_message_id < x.telegram_message_id) xs × Falling xs

abbrev pub IsValid : Item → Type 0
IsValid i = (0 < i.telegram_message_id) × (0 < i.sent_at)

-- what Telegram has of the chat below an id, 0 for all
abbrev pub older : ℕ → List Item → List Item
older before all = select_where (λ i. before == 0 || ltb i.telegram_message_id before) all

-- the messages that a job with the limit stores
abbrev pub wanted : ℕ → List Item → List Item
wanted stop items = select_where (λ i. not (is_known stop i)) items

pub wanted-append :
    (stop : ℕ) (xs ys : List Item) → wanted stop (xs ++ ys) ≡ wanted stop xs ++ wanted stop ys
wanted-append stop [] ys = refl
wanted-append stop (x ∷ xs) ys = elim (Bool-cases (is_known stop x)) [
  | inl e ↦ rw e (wanted-append stop xs ys)
  | inr e ↦ rw e (ap (◌∷◌ x) (wanted-append stop xs ys))
]

-- Below a known message all are known.
pub wanted_below :
    (stop : ℕ) (x : Item) (xs : List Item)
    → is_known stop x ≡ true
    → All (λ i. i.telegram_message_id < x.telegram_message_id) xs
    → wanted stop xs ≡ []
wanted_below stop x [] e h = refl
wanted_below stop x (y ∷ ys) e h =
    let known : is_known stop y ≡ true = ground (arith, h.0) in
    rw known (wanted_below stop x ys e h.1)

pub wanted_rest :
    (stop k : ℕ) (xs : List Item)
    → Falling xs
    → any_row (is_known stop) (take k xs) ≡ true
    → wanted stop (take k xs) ≡ wanted stop xs
wanted_rest stop zero xs f h = absurd (cc)
wanted_rest stop (suc k) [] f h = refl
wanted_rest stop (suc k) (x ∷ xs) f h = elim (Bool-cases (is_known stop x)) [
  | inl e ↦
      rw e (
        wanted_below stop x (take k xs) e (All-take _ k xs f.0)
        ∙ sym (wanted_below stop x xs e f.0))
  | inr e ↦ rw e (ap (◌∷◌ x) (wanted_rest stop k xs f.1 (ground arith)))
]

-- what the loop has of the oldest id after the messages
abbrev pub lowest : List Item → Option ℕ → Option ℕ
lowest [] o = o
lowest (x ∷ xs) o = lowest xs (some x.telegram_message_id)

pub lowest-last :
    (x : Item) (xs : List Item) (o : Option ℕ)
    → (l : Item) × (last (x ∷ xs) ≡ some l) × (lowest (x ∷ xs) o ≡ some l.telegram_message_id)
lowest-last x [] o = (x, refl, refl)
lowest-last x (y ∷ ys) o = lowest-last y ys (some x.telegram_message_id)

-- Below the last message of a page is what the page left.
pub select_below_last :
    (k : ℕ) (xs : List Item) (l : Item)
    → Falling xs
    → last (take k xs) ≡ some l
    → select_where (λ i. ltb i.telegram_message_id l.telegram_message_id) xs ≡ drop k xs
select_below_last zero xs l f h = absurd (cc)
select_below_last (suc k) [] l f h = refl
select_below_last (suc zero) (x ∷ xs) l f h =
    let ids : x.telegram_message_id ≡ l.telegram_message_id = ground arith in
    let first : ltb x.telegram_message_id l.telegram_message_id ≡ false = ground (arith, ids) in
    rw first (
      select_where-All (λ i. ltb i.telegram_message_id l.telegram_message_id) xs
        (All-imp _ _ xs (λ y k. ground (arith, ids, k)) f.0))
select_below_last (suc (suc k)) (x ∷ []) l f h =
    let ids : x.telegram_message_id ≡ l.telegram_message_id = ground arith in
    let first : ltb x.telegram_message_id l.telegram_message_id ≡ false = ground (arith, ids) in
    rw first refl
select_below_last (suc (suc k)) (x ∷ y ∷ xs) l f h =
    let below : l.telegram_message_id < x.telegram_message_id =
      All_mem (λ i. i.telegram_message_id < x.telegram_message_id) l (y ∷ xs) f.0
        (mem-last-take (suc k) (y ∷ xs) l h) in
    let after : ltb x.telegram_message_id l.telegram_message_id ≡ false = ground arith in
    rw after (select_below_last (suc k) (y ∷ xs) l f.1 h)

pub select_where-Falling :
    (p : Item → Bool) (xs : List Item) → Falling xs → Falling (select_where p xs)
select_where-Falling p [] f = tt
select_where-Falling p (x ∷ xs) f = elim (Bool-cases (p x)) [
  | inl e ↦ rw e (All-select_where _ p xs f.0, select_where-Falling p xs f.1)
  | inr e ↦ rw e (select_where-Falling p xs f.1)
]

pub take-Falling : (k : ℕ) (xs : List Item) → Falling xs → Falling (take k xs)
take-Falling zero xs f = tt
take-Falling (suc k) [] f = tt
take-Falling (suc k) (x ∷ xs) f = (All-take _ k xs f.0, take-Falling k xs f.1)

pub older-older :
    (before : ℕ) (all : List Item) (l : Item)
    → 0 < l.telegram_message_id
    → (before == 0 || ltb l.telegram_message_id before) ≡ true
    → older l.telegram_message_id all
      ≡ select_where (λ i. ltb i.telegram_message_id l.telegram_message_id) (older before all)
older-older before all l v b =
    select_where_ext _ _ all (λ i. older_than i) ∙ sym (select_where-select_where _ _ all)
  where
    older_than :
        (i : Item)
        → (l.telegram_message_id == 0 || ltb i.telegram_message_id l.telegram_message_id) ≡ (
            (before == 0 || ltb i.telegram_message_id before)
            && ltb i.telegram_message_id l.telegram_message_id)
    older_than i = ground arith

pub mem_length : (l : Item) (xs : List Item) → Memᴰ l xs → 0 < length xs
mem_length l [] m = elim m [ ]
mem_length l (x ∷ xs) m = omega arith

pub List-cases : (xs : List Item) → (xs ≡ []) ⊎ ((x : Item) × (ys : List Item) × (xs ≡ x ∷ ys))
List-cases [] = inl refl
List-cases (x ∷ xs) = inr (x, xs, refl)

pub take_empty : (k : ℕ) (xs : List Item) → 0 < k → take k xs ≡ [] → xs ≡ []
take_empty zero xs h e = absurd (omega arith)
take_empty (suc k) [] h e = refl
take_empty (suc k) (x ∷ xs) h e = absurd (cc)
