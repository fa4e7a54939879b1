-- ===== src/Access/Scopes/Normal.antt =====
-- What `NormalizeScopes` returns.
use telegram_gateway.Base.{
  String, ◌≡◌, ◌≢◌, ◌↔◌, refl, sym, Option-cases, true, false, none, some, List, [], ◌∷◌, arith,
  text_eq, eq_iff, if◌then◌else◌, Bool-cases, inl, inr, ◌∙◌,
}
use telegram_gateway.Access.Scopes.{
  ScopeError, has_scope, is_allowed, first_unsupported, validate_scopes, distinct, insert, sort,
  normalized, refused, normalize_scopes,
}
use mathlib.Core.Path.{subst}

has_scope-insert :
    (s : String) (xs : List String) (t : String)
    → has_scope (insert s xs) t ≡ (if text_eq s t then true else has_scope xs t)
unfolding has_scope insert
has_scope-insert s [] t = refl
has_scope-insert s (x ∷ xs) t = ground (arith, has_scope-insert s xs t)

has_scope-sort : (xs : List String) (t : String) → has_scope (sort xs) t ≡ has_scope xs t
unfolding sort has_scope
has_scope-sort [] t = refl
has_scope-sort (x ∷ xs) t = ground (arith, has_scope-insert x (sort xs) t, has_scope-sort xs t)

has_scope-distinct : (xs : List String) (t : String) → has_scope (distinct xs) t ≡ has_scope xs t
unfolding distinct has_scope
has_scope-distinct [] t = refl
has_scope-distinct (x ∷ xs) t =
    ground (arith, has_scope-distinct xs t, has_scope-distinct xs x, eq_iff x t)

-- no text stands twice in the list
abbrev pub IsDistinct : List String → Type 0
IsDistinct [] = Unit
IsDistinct (x ∷ xs) = (has_scope xs x ≡ false) × IsDistinct xs

distinct-IsDistinct : (xs : List String) → IsDistinct (distinct xs)
unfolding distinct
distinct-IsDistinct [] = tt
distinct-IsDistinct (x ∷ xs) = elim (Bool-cases (has_scope (distinct xs) x)) [
  | inl e ↦ rw e (distinct-IsDistinct xs)
  | inr e ↦ rw e (e, distinct-IsDistinct xs)
]

insert-IsDistinct :
    (s : String) (xs : List String)
    → has_scope xs s ≡ false
    → IsDistinct xs
    → IsDistinct (insert s xs)
unfolding insert has_scope
insert-IsDistinct s [] h d = (refl, tt)
insert-IsDistinct s (x ∷ xs) h d =
    ground (arith, has_scope-insert s xs x, eq_iff s x, eq_iff x s, insert-IsDistinct s xs)

sort-IsDistinct : (xs : List String) → IsDistinct xs → IsDistinct (sort xs)
unfolding sort
sort-IsDistinct [] d = tt
sort-IsDistinct (x ∷ xs) d =
    insert-IsDistinct x (sort xs) (has_scope-sort xs x ∙ d.0) (sort-IsDistinct xs d.1)

first_unsupported-none :
    (xs : List String) (t : String)
    → first_unsupported xs ≡ none
    → has_scope xs t ≡ true
    → is_allowed t ≡ true
unfolding first_unsupported has_scope
first_unsupported-none [] t h m = cc
first_unsupported-none (x ∷ xs) t h m = ground (arith, first_unsupported-none xs t, eq_iff x t)

validate_scopes-none :
    (xs : List String) (t : String)
    → validate_scopes xs ≡ none
    → has_scope xs t ≡ true
    → is_allowed t ≡ true
unfolding validate_scopes
validate_scopes-none [] t h m = cc
validate_scopes-none (x ∷ xs) t h m = first_unsupported-none (x ∷ xs) t h m

-- a list that `ValidateScopes` accepts is not empty
pub validate_scopes_nonempty : (xs : List String) → validate_scopes xs ≡ none → xs ≢ []
unfolding validate_scopes
validate_scopes_nonempty [] h e = cc
validate_scopes_nonempty (x ∷ xs) h e = cc

-- When `NormalizeScopes` accepts a list, its result holds exactly the scopes of that list, each of
-- them allowed, and none of them twice.
pub normalize_scopes_exact :
    (xs ys : List String)
    → normalize_scopes xs ≡ normalized ys
    → ((t : String) → has_scope ys t ≡ has_scope xs t)
      × ((t : String) → has_scope ys t ≡ true → is_allowed t ≡ true)
      × IsDistinct ys
unfolding normalize_scopes
normalize_scopes_exact xs ys h = elim (Option-cases (validate_scopes xs)) [
  | inl e ↦
      let out : sort (distinct xs) ≡ ys = ground arith in
      let same : (t : String) → has_scope ys t ≡ has_scope xs t =
        λ t. rw (← out) (has_scope-sort (distinct xs) t ∙ has_scope-distinct xs t) in
      (
        same,
        λ t m. validate_scopes-none xs t e (sym (same t) ∙ m),
        subst IsDistinct out (sort-IsDistinct (distinct xs) (distinct-IsDistinct xs)),
      )
  | inr (e, bad) ↦ absurd (ground arith)
]

-- `NormalizeScopes` refuses exactly the lists that `ValidateScopes` refuses, with its error.
pub normalize_scopes_refused :
    (xs : List String) (e : ScopeError)
    → (normalize_scopes xs ≡ refused e) ↔ (validate_scopes xs ≡ some e)
unfolding normalize_scopes
normalize_scopes_refused xs e = (ground arith, ground arith)
