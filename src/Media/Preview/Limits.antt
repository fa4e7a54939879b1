-- ===== src/Media/Preview/Limits.antt =====
-- The size of a preview and where its points come from (internal/media/preview.go).
use telegram_gateway.Base.{
  ℕ, ◌≡◌, refl, Option, none, some, List, ◌+◌, ◌*◌, ◌/◌, ◌≤◌, ◌<◌, ◌||◌, ◌==◌, inl, inr, arith, ltb,
  leb, max, length, take, if◌then◌else◌, Bool-cases, leb→le,
}
use native.Mathlib.Nat.{
  div-lt_iff_lt-mul, div-le_of_le-mul, mul-le-mul_right, mul-lt-mul_of_pos_right, mul_comm,
}
use telegram_gateway.Base.Handler.{reply, go}
use mathlib.Core.Path.{subst}
use telegram_gateway.Media.Preview.{
  too_long, Picture, Decoded, max_image_bytes, max_side, scaled, resampled, sized, image_preview,
}

positive_max : (n : ℕ) → 0 < max 1 n
positive_max n = omega arith

-- The scaled side is within the limit and no longer than the side.
scaled_side :
    (a b : ℕ)
    → 0 < a
    → max_side < b
    → a ≤ b
    → (max 1 (a * max_side / b) ≤ max_side) × (max 1 (a * max_side / b) ≤ a)
scaled_side a b p l h =
    let limit : a * max_side / b ≤ max_side = div-le_of_le-mul b (omega (arith, h)) in
    let short : a * max_side / b ≤ a =
      div-le_of_le-mul b
        (omega (arith, mul-le-mul_right {m = max_side} {n = b} a (omega (arith, l)))) in
    (omega (arith, limit), omega (arith, short, p))

-- What the preview has of a picture of the width and height.
pub record Within (w h pw ph : ℕ) : Type 0 where
  pub not_empty : (0 < pw) × (0 < ph)
  pub limited : (pw ≤ max_side) × (ph ≤ max_side)
  pub not_enlarged : (pw ≤ w) × (ph ≤ h)

scaled-Within : (w h : ℕ) → 0 < w → 0 < h → Within w h (scaled w h).0 (scaled w h).1
scaled-Within w h p q = elim (Bool-cases (ltb max_side w || ltb max_side h)) [
  | inr e ↦ rw e (record {
    not_empty = (p, q);
    limited = (ground arith, ground arith);
    not_enlarged = (omega arith, omega arith);
  })
  | inl e ↦ elim (Bool-cases (leb h w)) [
    | inl f ↦
        let side : (max 1 (h * max_side / w) ≤ max_side) × (max 1 (h * max_side / w) ≤ h) =
          scaled_side h w q (ground arith) (leb→le h w f) in
        rw e (
          rw f (record {
            not_empty = (omega arith, positive_max (h * max_side / w));
            limited = (omega arith, side.0);
            not_enlarged = (ground arith, side.1);
          }))
    | inr f ↦
        let side : (max 1 (w * max_side / h) ≤ max_side) × (max 1 (w * max_side / h) ≤ w) =
          scaled_side w h p (ground arith) (ground arith) in
        rw e (
          rw f (record {
            not_empty = (positive_max (w * max_side / h), omega arith);
            limited = (side.0, omega arith);
            not_enlarged = (side.1, ground arith);
          }))
  ]
]

-- A point of the preview is taken from inside the picture.
inside : (x side full : ℕ) → 0 < full → x < side → x * full / side < full
inside x side full p h =
    (div-lt_iff_lt-mul (omega (arith, h))).1
      (omega (arith, mul-lt-mul_of_pos_right {m = x} {n = side} {k = full} h p, mul_comm full side))

-- The picture that a preview was made of; `width` and `height` are its declared size. A point of the
-- preview is one within that size, counted from the corner of the picture's bounds.
pub record Shrunk (P : Type 0) (config : Option (ℕ × ℕ)) (decoded : Option (Decoded P))
    (p : Picture P) : Type 0 where
  pub width : ℕ
  pub height : ℕ
  pub source : Decoded P
  pub of_size : config ≡ some (width, height)
  pub of_source : decoded ≡ some source
  pub few_pixels : width * height ≤ 40000000
  pub within : Within width height p.width p.height
  pub points :
      (x y : ℕ)
      → x < p.width
      → y < p.height
      → (sx : ℕ) × (sy : ℕ) × (sx < width)
        × (sy < height)
        × (p.at x y ≡ source.at (source.min_x + sx) (source.min_y + sy))
        × (width ≤ source.dx → sx < source.dx)
        × (height ≤ source.dy → sy < source.dy)

sized-Shrunk :
    (P : Type 0) (config : Option (ℕ × ℕ)) (decoded : Option (Decoded P)) (p : Picture P)
    → sized P config decoded ≡ go p
    → Shrunk P config decoded p
sized-Shrunk P none decoded p h = absurd (cc)
sized-Shrunk P (some (w, k)) none p h =
    elim (Bool-cases (w == 0 || (k == 0 || ltb 40000000 (w * k)))) [
      | inl e ↦ absurd (ground arith)
      | inr e ↦ absurd (ground arith)
    ]
sized-Shrunk P (some (w, k)) (some source) p h =
    elim (Bool-cases (w == 0 || (k == 0 || ltb 40000000 (w * k)))) [
      | inl e ↦ absurd (ground arith)
      | inr e ↦
          let some_width : 0 < w = ground arith in
          let some_height : 0 < k = ground arith in
          let made : resampled P w k source ≡ p = ground arith in
          subst (Shrunk P (some (w, k)) (some source)) made (record {
            width = w;
            height = k;
            source = source;
            of_size = refl;
            of_source = refl;
            few_pixels = ground arith;
            within = scaled-Within w k some_width some_height;
            points = λ x y a b. (
              x * w / (scaled w k).0,
              y * k / (scaled w k).1,
              inside x (scaled w k).0 w some_width a,
              inside y (scaled w k).1 k some_height b,
              refl,
              λ wide. omega (arith, wide, inside x (scaled w k).0 w some_width a),
              λ high. omega (arith, high, inside y (scaled w k).1 k some_height b),
            );
          })
    ]

-- The two tests after the bytes are read.
bounded :
    (P : Type 0) (decode_config : List ℕ → Option (ℕ × ℕ)) (decode : List ℕ → Option (Decoded P))
    (b : List ℕ) (limit : ℕ) (p : Picture P)
    → (if ltb limit (length b) then reply too_long else sized P (decode_config b) (decode b)) ≡ go p
    → (length b ≤ limit) × Shrunk P (decode_config b) (decode b) p
bounded P decode_config decode b limit p h = elim (Bool-cases (ltb limit (length b))) [
  | inl e ↦ absurd (ground arith)
  | inr e ↦ (ground arith, sized-Shrunk P (decode_config b) (decode b) p (ground arith))
]

-- A preview is bounded and is made of the picture: where ImagePreview gives one, the bytes are at most
-- 16 MiB and decode to a picture of a declared size of at most 40 million pixels; the preview is not
-- empty, at most 1280 wide and high and no wider or higher than the declared size, and each of its
-- points has the colour of a point within the declared size, counted from the corner of the bounds of
-- the decoded picture, which is inside them where they are at least as wide and high as declared.
pub preview_bounded :
    (P : Type 0) (decode_config : List ℕ → Option (ℕ × ℕ)) (decode : List ℕ → Option (Decoded P))
    (content : List ℕ) (p : Picture P)
    → image_preview P decode_config decode (some content) ≡ go p
    → (length (take (max_image_bytes + 1) content) ≤ max_image_bytes)
      × Shrunk P
          (decode_config (take (max_image_bytes + 1) content))
          (decode (take (max_image_bytes + 1) content))
          p
unfolding image_preview
preview_bounded P decode_config decode content p h =
    bounded P decode_config decode (take (max_image_bytes + 1) content) max_image_bytes p h
