-- ===== src/Messages/Search.antt =====
-- internal/messages/repository.go: the searches. `ilike` is PostgreSQL's ILIKE … ESCAPE '\', first the
-- text and then the pattern.
pub mod Escape
use telegram_gateway.Base.{
  ℕ, String, Bool, true, false, Option, none, some, List, ◌&&◌, ◌==◌, text_eq, is_empty, trim_space,
  if◌then◌else◌,
}
use Prim.Native.Char.{Char, code}
use Prim.Native.String.{◌++◌}
use telegram_gateway.Base.Handler.{Handler, ◌>>=◌, ◌>>◌, stop_if}
use telegram_gateway.Messages.Table.{MessageRow, MessagesDb, MessageError, missing_query}
use telegram_gateway.Messages.Reads.{read, select_active, in_chat, normalize_limit}

abbrev pub backslash : Char
backslash = "\\"

-- strings.ReplaceAll of the character with the code by a backslash and the character
abbrev pub escape : ℕ → String → String
escape c String.[] = ""
escape c (String.◌∷◌ x s) =
    let rest = escape c s in
    if code x == c then String.◌∷◌ backslash (String.◌∷◌ x rest) else String.◌∷◌ x rest

-- escapeLike: first the backslash, then % and _
unfoldable pub escape_like : String → String
escape_like value = escape b'_' (escape b'%' (escape b'\\' value))

module _ (ilike : String → String → Bool) where
  -- content ILIKE ('%' || $2 || '%')
  abbrev pub matches : String → MessageRow → Bool
  matches q r = elim r.content [ none ↦ false | some c ↦ ilike c (("%" ++ escape_like q) ++ "%") ]

  unfoldable pub search_active :
      String → String → ℕ → Handler MessageError MessagesDb (List MessageRow)
  search_active account query limit = do
    let q = trim_space query
    stop_if (is_empty q) missing_query
    read (select_active (λ r. text_eq r.account_id account && matches q r) (normalize_limit limit))

  unfoldable pub search_active_chat :
      String → String → String → ℕ → Handler MessageError MessagesDb (List MessageRow)
  search_active_chat account chat query limit = do
    let q = trim_space query
    stop_if (is_empty q) missing_query
    read (select_active (λ r. in_chat account chat r && matches q r) (normalize_limit limit))
