-- ===== src/Media/Preview.antt =====
-- internal/media/preview.go, ImagePreview. The decoders of Go's image packages are parameters:
-- DecodeConfig gives the declared size (a width or height that is not positive is 0), and Decode a
-- picture with bounds of its own, which may be smaller (the first frame of a GIF), and with a colour
-- at every point, also outside its bounds. The JPEG encoder, which runs on the result, is left out.
pub mod Limits
use telegram_gateway.Base.{
  ℕ, zero, suc, ◌≡◌, refl, sym, ap, Bool, true, false, Option, none, some, List, ◌+◌, ◌*◌, ◌/◌, ◌≤◌,
  ◌<◌, ◌||◌, ◌==◌, inl, inr, arith, ltb, leb, max, length, take, if◌then◌else◌, Bool-cases,
  Option-cases, leb→le,
}
use native.Mathlib.Nat.{
  div-lt_iff_lt-mul, div-le_of_le-mul, mul-le-mul_right, mul-lt-mul_of_pos_right, mul_comm,
}
use telegram_gateway.Base.Handler.{Outcome, reply, go}

pub data PreviewError : Type 0 where
  read_failed too_long unsupported too_many_pixels undecodable : PreviewError

abbrev pub max_image_bytes : ℕ
max_image_bytes = 16777216

abbrev pub max_side : ℕ
max_side = 1280

-- the width of the preview, and its height
abbrev pub scaled : ℕ → ℕ → ℕ × ℕ
scaled w h =
    if ltb max_side w || ltb max_side h
    then (if leb h w
        then (max_side, max 1 (h * max_side / w))
        else (max 1 (w * max_side / h), max_side))
    else (w, h)

pub record Picture (P : Type 0) : Type 0 where
  pub width : ℕ
  pub height : ℕ
  pub at : ℕ → ℕ → P

-- What Decode gives: the bounds (Min.X, Min.Y, Dx(), Dy()) and the method At.
pub record Decoded (P : Type 0) : Type 0 where
  pub min_x : ℕ
  pub min_y : ℕ
  pub dx : ℕ
  pub dy : ℕ
  pub at : ℕ → ℕ → P

module _ (P : Type 0) where
  abbrev pub resampled : ℕ → ℕ → Decoded P → Picture P
  resampled w h source = record {
    width = (scaled w h).0;
    height = (scaled w h).1;
    at = λ x y.
        source.at (source.min_x + x * w / (scaled w h).0) (source.min_y + y * h / (scaled w h).1);
  }

  abbrev pub drawn : ℕ → ℕ → Option (Decoded P) → Outcome PreviewError (Picture P)
  drawn w h none = reply undecodable
  drawn w h (some source) = go (resampled w h source)

  abbrev pub sized : Option (ℕ × ℕ) → Option (Decoded P) → Outcome PreviewError (Picture P)
  sized none source = reply unsupported
  sized (some (w, h)) source =
      if w == 0 || (h == 0 || ltb 40000000 (w * h)) then reply too_many_pixels else drawn w h source

  module _ (decode_config : List ℕ → Option (ℕ × ℕ)) (decode : List ℕ → Option (Decoded P)) where
    -- ImagePreview of what the reader has, `none` where it fails
    unfoldable pub image_preview : Option (List ℕ) → Outcome PreviewError (Picture P)
    image_preview none = reply read_failed
    image_preview (some content) =
        let b = take (max_image_bytes + 1) content in
        if ltb max_image_bytes (length b)
        then reply too_long
        else sized (decode_config b) (decode b)
