-- ===== src/Messages/Search/Escape.antt =====
-- The pattern of a search (internal/messages/repository.go, escapeLike).
use telegram_gateway.Base.{
  ℕ, String, ◌≡◌, refl, ◌∙◌, Bool, true, false, ◌||◌, ◌==◌, Option, none, some, inl, inr, arith,
  Bool-cases, if◌then◌else◌,
}
use Prim.Native.Char.{Char, code}
use telegram_gateway.Base.Options.{option_map}
use telegram_gateway.Messages.Search.{backslash, escape_like}

abbrev is_wildcard : ℕ → Bool
is_wildcard c = c == b'%' || c == b'_'

-- The only text that a LIKE pattern stands for, where a backslash takes away the meaning of the next
-- character: none where a wildcard is left, or a backslash is the last character.
unfoldable pub literal : String → Option String
literal String.[] = some ""
literal (String.◌∷◌ x String.[]) =
    if code x == b'\\' || is_wildcard (code x) then none else some (String.◌∷◌ x "")
literal (String.◌∷◌ x (String.◌∷◌ y s)) =
    let after = literal s in
    let rest = literal (String.◌∷◌ y s) in
    if code x == b'\\'
    then option_map (String.◌∷◌ y) after
    else if is_wildcard (code x)
    then none
    else option_map (String.◌∷◌ x) rest

abbrev pub is_special : ℕ → Bool
is_special c = c == b'\\' || is_wildcard c

escape_like_special :
    (x : Char) (s : String)
    → is_special (code x) ≡ true
    → escape_like (String.◌∷◌ x s) ≡ String.◌∷◌ backslash (String.◌∷◌ x (escape_like s))
unfolding escape_like
escape_like_special x s h = elim (Bool-cases (code x == b'\\')) [
  | inl a ↦
      let b : (code x == b'%') ≡ false = ground arith in
      let c : (code x == b'_') ≡ false = ground arith in rw a (rw b (rw c refl))
  | inr a ↦ elim (Bool-cases (code x == b'%')) [
    | inl b ↦ let c : (code x == b'_') ≡ false = ground arith in rw a (rw b (rw c refl))
    | inr b ↦ let c : (code x == b'_') ≡ true = ground arith in rw a (rw b (rw c refl))
  ]
]

escape_like_plain :
    (x : Char) (s : String)
    → is_special (code x) ≡ false
    → escape_like (String.◌∷◌ x s) ≡ String.◌∷◌ x (escape_like s)
unfolding escape_like
escape_like_plain x s h =
    let a : (code x == b'\\') ≡ false = ground arith in
    let b : (code x == b'%') ≡ false = ground arith in
    let c : (code x == b'_') ≡ false = ground arith in rw a (rw b (rw c refl))

literal_plain :
    (x : Char) (s : String)
    → is_special (code x) ≡ false
    → literal (String.◌∷◌ x s) ≡ option_map (String.◌∷◌ x) (literal s)
unfolding literal
literal_plain x String.[] h = rw h refl
literal_plain x (String.◌∷◌ y s) h =
    let a : (code x == b'\\') ≡ false = ground arith in
    let w : is_wildcard (code x) ≡ false = ground arith in rw a (rw w refl)

-- For every text of a search, the pattern that escapeLike makes of it has no wildcard left and
-- stands for that text only.
pub literal-escape_like : (s : String) → literal (escape_like s) ≡ some s
unfolding literal escape_like
literal-escape_like String.[] = refl
literal-escape_like (String.◌∷◌ x s) = elim (Bool-cases (is_special (code x))) [
  | inl e ↦ rw (escape_like_special x s e) (rw (literal-escape_like s) refl)
  | inr e ↦
      rw (escape_like_plain x s e)
        (literal_plain x (escape_like s) e ∙ rw (literal-escape_like s) refl)
]
