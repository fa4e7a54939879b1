-- ===== src/Media/Service.antt =====
-- internal/media/service.go: object keys, storing a download and reading it. The object store is what
-- it answers: `put` whether Put succeeds, `link` the address that PresignedGet returns.
use telegram_gateway.Base.{
  ℕ, String, Bool, true, false, Option, none, some, List, ◌||◌, ◌==◌, ◌+◌, ◌*◌, not, is_empty,
  trim_space, if◌then◌else◌,
}
use Prim.Native.Char.{code}
use telegram_gateway.Base.Handler.{
  Outcome, reply, go, Handler, ◌>>=◌, ◌>>◌, expect, stop_if, pure, respond, call,
}
use telegram_gateway.Schema.{Time, Digest, minute}
use telegram_gateway.Media.Repository.{
  MediaDb, MediaError, missing_id, negative_size, not_ready, no_reader, store_error,
  invalid_identifier, link_error, mark_ready, mark_failed, get_active, is_ready, is_blank,
}

-- strings.ContainsAny(s, "/\\")
abbrev pub has_slash : String → Bool
has_slash String.[] = false
has_slash (String.◌∷◌ c s) =
    let rest = has_slash s in if code c == b'/' || code c == b'\\' then true else rest

-- s + t
infixr 5 ◌⊕◌
abbrev pub ◌⊕◌ : String → String → String
String.[] ⊕ t = t
(String.◌∷◌ c s) ⊕ t = String.◌∷◌ c (s ⊕ t)

-- ObjectKey
unfoldable pub object_key : String → String → Outcome MediaError String
object_key account_id media_id =
    let account = trim_space account_id in
    let media = trim_space media_id in
    if is_empty account || is_empty media
    then reply missing_id
    else if has_slash account || has_slash media
    then reply invalid_identifier
    else go ("accounts/" ⊕ account ⊕ "/media/" ⊕ media)

abbrev pub returned : {A : Type 0} → Outcome MediaError A → Handler MediaError MediaDb A
returned {A} (go a) = pure a
returned {A} (reply e) = respond e

-- what is downloaded: whether there is a reader, its size, type and digest, and whether Put succeeds
pub record Content : Type 0 where
  pub has_reader : Bool
  pub size : Option ℕ
  pub content_type : String
  pub digest : Digest
  pub put : Bool

-- StoreDownload; `cause` is the text of Put's error
unfoldable pub store_download :
    Time → List ℕ → String → String → Content → Handler MediaError MediaDb (Unit {0})
store_download now cause account_id media_id c = do
  stop_if (not c.has_reader) no_reader
  _ ← expect negative_size c.size
  key ← returned (object_key account_id media_id)
  elim c.put [
    | false ↦ call {R = MediaError} (mark_failed media_id cause) >> respond store_error
    | true ↦ mark_ready now media_id key (trim_space c.content_type) c.size c.digest
  ]

abbrev pub present : Option String → Bool
present none = false
present (some s) = true

abbrev pub filled : Option String → Bool
filled none = false
filled (some s) = not (is_blank s)

-- CheckReady
unfoldable pub check_ready : String → String → Handler MediaError MediaDb (Unit {0})
check_ready account_id media_id = do
  item ← get_active account_id media_id
  stop_if (not (is_ready item.status) || not (present item.object_key)) not_ready

-- readURLTTL
abbrev pub read_url_ttl : Time
read_url_ttl = 5 * minute

abbrev pub text_of : Option String → String
text_of none = ""
text_of (some s) = s

-- CreateReadURL: the address and the time until which it is good; `link` is PresignedGet of an object
-- key and a file name.
unfoldable pub create_read_url :
    Time
    → (String → String → Option String)
    → String
    → String
    → Handler MediaError MediaDb (String × Time)
create_read_url now link account_id media_id = do
  item ← get_active account_id media_id
  stop_if (not (is_ready item.status) || not (filled item.object_key)) not_ready
  key ← expect not_ready item.object_key
  url ← expect link_error (link key (text_of item.file_name))
  pure (url, now + read_url_ttl)

abbrev name_or_download : Option String → String
name_or_download none = "download"
name_or_download (some name) = name

-- OpenRead: `object` is what Get and Stat answer for a key, the size and type of the object
unfoldable pub open_read :
    (String → Option (ℕ × String))
    → String
    → String
    → Handler MediaError MediaDb (ℕ × String × String)
open_read object account_id media_id = do
  item ← get_active account_id media_id
  stop_if (not (is_ready item.status) || not (present item.object_key)) not_ready
  key ← expect not_ready item.object_key
  stat ← expect store_error (object key)
  pure (stat.0, stat.1, name_or_download item.file_name)
