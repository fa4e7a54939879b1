-- ===== src/Base/Text.antt =====
-- `strings.TrimSpace` of Go's standard library, and the characters that it trims.
use Prim.Native.Char.{Char, code}
use Prim.Native.String.{String}
use mathlib.Core.Path.{◌≡◌, refl}
use mathlib.Core.Bool.{Bool, true, false, ◌&&◌, ◌||◌}
use Prim.Native.Nat.{ℕ}
use mathlib.Core.Logic.{inl, inr}
use mathlib.Core.List.{List, [], ◌∷◌}
use native.Mathlib.Omega.{arith}
use telegram_gateway.Base.Tests.{◌==◌, leb, if◌then◌else◌, Bool-cases}

-- unicode.IsSpace
unfoldable pub is_space : Char → Bool
is_space c =
    let r = code c in
    (leb 9 r && leb r 13)
    || r == 32
    || r == 0x85
    || r == 0xa0
    || r == 0x1680
    || (leb 0x2000 r && leb r 0x200a)
    || r == 0x2028
    || r == 0x2029
    || r == 0x202f
    || r == 0x205f
    || r == 0x3000

abbrev pub is_empty : String → Bool
is_empty String.[] = true
is_empty (String.◌∷◌ c s) = false

pub trim_left : String → String
trim_left String.[] = ""
trim_left (String.◌∷◌ c s) = let rest = trim_left s in if is_space c then rest else String.◌∷◌ c s

pub trim_right : String → String
trim_right String.[] = ""
trim_right (String.◌∷◌ c s) =
    let rest = trim_right s in if is_empty rest && is_space c then "" else String.◌∷◌ c rest

unfoldable pub trim_space : String → String
unfolding trim_left trim_right is_space
trim_space s = trim_right (trim_left s)

trim_right_idem : (s : String) → trim_right (trim_right s) ≡ trim_right s
unfolding trim_right
trim_right_idem String.[] = refl
trim_right_idem (String.◌∷◌ c s) = elim (Bool-cases (is_empty (trim_right s) && is_space c)) [
  | inl e ↦ rw e
  | inr e ↦ rw e (rw (trim_right_idem s) (rw e))
]

trim_left-trim_right-trim_left :
    (s : String) → trim_left (trim_right (trim_left s)) ≡ trim_right (trim_left s)
unfolding trim_left trim_right
trim_left-trim_right-trim_left String.[] = refl
trim_left-trim_right-trim_left (String.◌∷◌ c s) = ground (arith, trim_left-trim_right-trim_left s)

-- Trimming a trimmed text changes nothing.
pub trim_space_idem : (s : String) → trim_space (trim_space s) ≡ trim_space s
unfolding trim_space
trim_space_idem s = rw (trim_left-trim_right-trim_left s) (trim_right_idem (trim_left s))

abbrev pub has_no_space : String → Bool
has_no_space String.[] = true
has_no_space (String.◌∷◌ c s) = let rest = has_no_space s in if is_space c then false else rest

trim_right_plain : (s : String) → has_no_space s ≡ true → trim_right s ≡ s
unfolding trim_right
trim_right_plain String.[] h = refl
trim_right_plain (String.◌∷◌ c s) h = elim (Bool-cases (is_space c)) [
  | inl e ↦ absurd (ground arith)
  | inr e ↦ rw (trim_right_plain s (ground arith)) (rw e (ground arith))
]

trim_left_plain : (s : String) → has_no_space s ≡ true → trim_left s ≡ s
unfolding trim_left
trim_left_plain String.[] h = refl
trim_left_plain (String.◌∷◌ c s) h = elim (Bool-cases (is_space c)) [
  | inl e ↦ absurd (ground arith)
  | inr e ↦ rw e refl
]

-- A text without spaces stays as it is.
pub trim_space_plain : (s : String) → has_no_space s ≡ true → trim_space s ≡ s
unfolding trim_space
trim_space_plain s h = rw (trim_left_plain s h) (trim_right_plain s h)

trim_example : trim_space " \ttgw_ab \n" ≡ "tgw_ab"
unfolding trim_space
trim_example = refl

-- A character in front of the first of the pieces.
abbrev push : Char → List String → List String
push c [] = String.◌∷◌ c "" ∷ []
push c (piece ∷ pieces) = String.◌∷◌ c piece ∷ pieces

-- the pieces between single spaces, empty ones too
pieces : String → List String
pieces String.[] = "" ∷ []
pieces (String.◌∷◌ c s) = let rest = pieces s in if is_space c then "" ∷ rest else push c rest

drop_empty : List String → List String
drop_empty [] = []
drop_empty (piece ∷ rest) =
    let others = drop_empty rest in if is_empty piece then others else piece ∷ others

-- strings.Fields
unfoldable pub fields : String → List String
unfolding pieces drop_empty is_space
fields s = drop_empty (pieces s)

fields_example : fields "  chat:read  media:read " ≡ "chat:read" ∷ "media:read" ∷ []
unfolding fields
fields_example = refl

-- every character of the text satisfies the test
abbrev pub all_chars : (ℕ → Bool) → String → Bool
all_chars test String.[] = true
all_chars test (String.◌∷◌ c s) = let rest = all_chars test s in test (code c) && rest
