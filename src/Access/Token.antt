-- ===== src/Access/Token.antt =====
-- internal/access/token.go. `sha256` and the base64 text of 32 random bytes are arguments.
use Prim.Native.String.{len, slice, ◌++◌}
use text.Mathlib.Text.{starts_with}
use telegram_gateway.Base.{
  ℕ, String, ◌≡◌, Option, none, some, arith, ltb, is_empty, if◌then◌else◌, trim_space,
  trim_space_idem,
}
use telegram_gateway.Schema.{Digest}

abbrev pub token_prefix : String
token_prefix = "tgw_"

abbrev pub visible_prefix : ℕ
visible_prefix = 16

pub record GeneratedToken : Type 0 where
  pub plaintext : String
  pub prefix : String
  pub hash : Digest

module _ (sha256 : String → Digest) where
  -- `none` is one of the two errors of `TokenFromPlaintext`. The visible prefix is counted in
  -- characters; Go counts bytes, which is the same for the ASCII tokens that GenerateToken makes.
  unfoldable pub token_from_plaintext : String → Option GeneratedToken
  token_from_plaintext raw =
      let plaintext = trim_space raw in
      if is_empty plaintext
      then none
      else if starts_with plaintext token_prefix
      then some (record {
        plaintext = plaintext;
        prefix =
            slice plaintext 0
              (if ltb (len plaintext) visible_prefix then len plaintext else visible_prefix);
        hash = sha256 plaintext;
      })
      else none

  -- `random` is the base64 text of `randomTokenSize` random bytes.
  unfoldable pub generate_token : String → Option GeneratedToken
  unfolding token_from_plaintext
  generate_token random = token_from_plaintext (token_prefix ++ random)

  -- An accepted token reads back as itself from the plaintext that it carries, so that the hash that
  -- is stored for it is the hash under which it is looked up again.
  pub token_from_plaintext_again :
      (raw : String) (t : GeneratedToken)
      → token_from_plaintext raw ≡ some t
      → token_from_plaintext t.plaintext ≡ some t
  unfolding token_from_plaintext
  token_from_plaintext_again raw t h = ground (arith, trim_space_idem raw)
