-- ===== src/Worker/Scanned.antt =====
-- The loop over a page of history (internal/worker/history.go).
use telegram_gateway.Base.{
  ℕ, ◌≡◌, refl, sym, ap, ◌∙◌, true, false, Option, none, some, ◌||◌, ◌==◌, ◌<◌, inl, inr, List, [],
  ◌∷◌, ◌++◌, arith, All, Bool-cases, any_row,
}
use telegram_gateway.Base.Handler.{go}
use telegram_gateway.Worker.History.{Item, Scan, seen, lower, is_known, scan}
use telegram_gateway.Worker.Falling.{Falling, IsValid, wanted, wanted_below, lowest}

abbrev pub Under : Option ℕ → List Item → Type 0
Under none items = Unit
Under (some o) items = All (λ i. i.telegram_message_id < o) items

abbrev pub ScanEnd : ℕ → List Item → Scan → Type 0
ScanEnd stop items s =
    (t : Scan) × (scan stop (λ i. none) items s ≡ go t)
    × (t.stored ≡ s.stored ++ wanted stop items)
    × (t.reached_known ≡ (s.reached_known || any_row (is_known stop) items))
    × (any_row (is_known stop) items ≡ false → t.oldest ≡ lowest items s.oldest)

pub Under-lower :
    (o : Option ℕ) (x : Item) (xs : List Item)
    → Under o (x ∷ xs)
    → lower x.telegram_message_id o ≡ some x.telegram_message_id
Under-lower none x xs u = refl
Under-lower (some o) x xs u = ground (arith, u.0)

pub append_nil : (xs : List Item) → xs ++ [] ≡ xs
append_nil [] = refl
append_nil (x ∷ xs) = ap (◌∷◌ x) (append_nil xs)

pub append_assoc :
    (xs : List Item) (x : Item) (ys : List Item) → (xs ++ (x ∷ [])) ++ ys ≡ xs ++ (x ∷ ys)
append_assoc [] x ys = refl
append_assoc (z ∷ xs) x ys = ap (◌∷◌ z) (append_assoc xs x ys)

pub scan-ScanEnd :
    (stop : ℕ) (items : List Item) (s : Scan)
    → Falling items
    → All IsValid items
    → Under s.oldest items
    → ScanEnd stop items s
unfolding scan
scan-ScanEnd stop [] s f v u = (s, refl, sym (append_nil s.stored), ground arith, λ h. refl)
scan-ScanEnd stop (x ∷ xs) s f v u = elim (Bool-cases (is_known stop x)) [
  | inl e ↦ (
    record s { reached_known = true },
    rw e refl,
    rw e (sym (append_nil s.stored) ∙ ap (λ l. s.stored ++ l) (sym (wanted_below stop x xs e f.0))),
    rw e (ground arith),
    λ h. absurd (ground arith),
  )
  | inr e ↦
      let next : lower x.telegram_message_id s.oldest ≡ some x.telegram_message_id =
        Under-lower s.oldest x xs u in
      let (t, run, stored, reached, low) = scan-ScanEnd stop xs (seen x s) f.1 v.1 (rw next f.0) in
      let id_set : (x.telegram_message_id == 0) ≡ false = ground (arith, v.0.0) in
      let time_set : (x.sent_at == 0) ≡ false = ground (arith, v.0.1) in
      (
        t,
        rw e (rw id_set (rw time_set run)),
        rw e (stored ∙ append_assoc s.stored x (wanted stop xs)),
        rw e reached,
        λ h. low (ground arith) ∙ ap (lowest xs) next,
      )
]
