-- ===== src/Media/Keys.antt =====
-- Object keys (internal/media/service.go, ObjectKey).
use telegram_gateway.Base.{
  String, ◌≡◌, refl, sym, ap, ◌∙◌, false, ◌||◌, ◌==◌, inl, inr, arith, Bool-cases, trim_space,
  is_empty, if◌then◌else◌,
}
use Prim.Native.Char.{code}
use telegram_gateway.Base.Handler.{go}
use telegram_gateway.Media.Service.{◌⊕◌, has_slash, object_key}

-- the text before the first slash
before_slash : String → String
before_slash String.[] = ""
before_slash (String.◌∷◌ c s) =
    let rest = before_slash s in if code c == b'/' then "" else String.◌∷◌ c rest

-- the text after the first slash
after_slash : String → String
after_slash String.[] = ""
after_slash (String.◌∷◌ c s) = let rest = after_slash s in if code c == b'/' then s else rest

before_slash-append : (a s : String) → has_slash a ≡ false → before_slash (a ⊕ ("/media/" ⊕ s)) ≡ a
unfolding before_slash
before_slash-append String.[] s h = refl
before_slash-append (String.◌∷◌ c a) s h = elim (Bool-cases (code c == b'/')) [
  | inl e ↦ absurd (ground arith)
  | inr e ↦ rw e (ap (String.◌∷◌ c) (before_slash-append a s (ground arith)))
]

after_slash-append :
    (a s : String) → has_slash a ≡ false → after_slash (a ⊕ ("/media/" ⊕ s)) ≡ "media/" ⊕ s
unfolding after_slash
after_slash-append String.[] s h = refl
after_slash-append (String.◌∷◌ c a) s h = elim (Bool-cases (code c == b'/')) [
  | inl e ↦ absurd (ground arith)
  | inr e ↦ rw e (after_slash-append a s (ground arith))
]

-- The parts of a key that was given out.
object_key-parts :
    (account media k : String)
    → object_key account media ≡ go k
    → (before_slash (after_slash k) ≡ trim_space account)
      × (after_slash (after_slash (after_slash k)) ≡ trim_space media)
unfolding object_key after_slash
object_key-parts account media k h =
    elim (Bool-cases (is_empty (trim_space account) || is_empty (trim_space media))) [
      | inl e ↦ absurd (ground arith)
      | inr e ↦ elim (Bool-cases (has_slash (trim_space account) || has_slash (trim_space media))) [
        | inl f ↦ absurd (ground arith)
        | inr f ↦
            let plain : has_slash (trim_space account) ≡ false = ground arith in
            let key : k ≡ "accounts/" ⊕ trim_space account ⊕ "/media/" ⊕ trim_space media =
              ground arith in
            let rest : after_slash k ≡ trim_space account ⊕ "/media/" ⊕ trim_space media =
              ap after_slash key in
            (
              ap before_slash rest
                  ∙ before_slash-append (trim_space account) (trim_space media) plain,
              ap (λ s. after_slash (after_slash s)) rest
                  ∙ ap after_slash
                      (after_slash-append (trim_space account) (trim_space media) plain),
            )
      ]
    ]

-- Two downloads never share an object: where ObjectKey gives two accounts and media ids the same key,
-- they are the same, but for spaces around them.
pub object_key_distinct :
    (a b m n k : String)
    → object_key a m ≡ go k
    → object_key b n ≡ go k
    → (trim_space a ≡ trim_space b) × (trim_space m ≡ trim_space n)
object_key_distinct a b m n k h j =
    let (x, y) = object_key-parts a m k h in
    let (z, t) = object_key-parts b n k j in (sym x ∙ z, sym y ∙ t)
