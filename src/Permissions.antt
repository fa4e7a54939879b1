-- ===== src/Permissions.antt =====
-- internal/httpserver/chat_permissions.go: `allowChat`, `allowMedia` and `accountPermission`. A chat, a
-- medium and an account are uuids (`none` where uuid.Parse refuses the text); `owner` is the answer of
-- `browserPrincipal`, and `audit_refusal` the status that `auditRead` answers where it fails.
pub mod Deny
use telegram_gateway.Base.{
  ℕ, Bool, true, false, Option, none, some, List, [], ◌∷◌, ◌&&◌, ◌==◌, not, if◌then◌else◌, find_row,
  any_row, update_where,
}
use telegram_gateway.Base.Handler.{Handler, ◌>>=◌, ◌>>◌, query, expect, stop_if, pure}
use telegram_gateway.Schema.{Uuid}

-- A row of the view active_chats, of chat_permissions, and of the view active_message_media.
pub record ActiveChat : Type 0 where
  pub id : Uuid
  pub account_id : Uuid

pub record ChatPermission : Type 0 where
  pub account_id : Uuid
  pub chat_id : Uuid
  pub can_read : Bool
  pub can_send : Bool

pub record ActiveMedia : Type 0 where
  pub id : Uuid
  pub account_id : Uuid
  pub chat_id : Uuid

pub record ChatDb : Type 0 where
  pub chats : List ActiveChat
  pub permissions : List ChatPermission
  pub media : List ActiveMedia

pub data Answer : Type 0 where
  refused : ℕ → Answer
  saved : Bool → Bool → Answer

abbrev pub is_chat : Uuid → Uuid → ActiveChat → Bool
is_chat account chat c = c.id == chat && c.account_id == account

abbrev pub is_permission : Uuid → Uuid → ChatPermission → Bool
is_permission account chat p = p.account_id == account && p.chat_id == chat

abbrev pub permits : Uuid → Uuid → Bool → ChatPermission → Bool
permits account chat send p =
    is_permission account chat p && (if send then p.can_send else p.can_read)

-- SELECT EXISTS (… chat_permissions p JOIN active_chats c …)
unfoldable pub is_allowed_chat : Uuid → Uuid → Bool → ChatDb → Bool
is_allowed_chat account chat send d =
    any_row (is_chat account chat) d.chats && any_row (permits account chat send) d.permissions

unfoldable pub allow_chat : Uuid → Option Uuid → Bool → Handler Answer ChatDb Unit
allow_chat account chat_id send = do
  chat ← expect (refused 400) chat_id
  allowed ← query (refused 503) (λ d. (is_allowed_chat account chat send d, d))
  stop_if (not allowed) (refused 403)

abbrev is_medium : Uuid → Uuid → ActiveMedia → Bool
is_medium account id m = m.account_id == account && m.id == id

abbrev chat_of : Option ActiveMedia → Option Uuid
chat_of none = none
chat_of (some m) = some m.chat_id

unfoldable pub allow_media : Uuid → Option Uuid → Handler Answer ChatDb Unit
allow_media account media_id = do
  id ← expect (refused 400) media_id
  row ← query (refused 404) (λ d. (chat_of (find_row (is_medium account id) d.media), d))
  chat ← expect (refused 404) row
  allow_chat account (some chat) false

-- INSERT … SELECT … FROM active_chats … ON CONFLICT (account_id, chat_id) DO UPDATE, and whether a row
-- was written
unfoldable pub put_permission : Uuid → Uuid → Bool → Bool → ChatDb → Bool × ChatDb
put_permission account chat read send d =
    if not (any_row (is_chat account chat) d.chats)
    then (false, d)
    else if any_row (is_permission account chat) d.permissions
    then (
      true,
      record d {
        permissions =
            update_where (is_permission account chat)
              (λ p. record p { can_read = read; can_send = send }) d.permissions;
      },
    )
    else (
      true,
      record d {
        permissions =
            record { account_id = account; chat_id = chat; can_read = read; can_send = send }
            ∷ d.permissions;
      },
    )

abbrev refuses : Option ℕ → Bool
refuses none = false
refuses (some code) = true

abbrev code_of : Option ℕ → ℕ
code_of none = 0
code_of (some code) = code

-- `flags` is the decoded body, can_read and can_send.
unfoldable pub account_permission :
    Option Uuid → Option Uuid → Option (Bool × Bool) → Option ℕ → Handler Answer ChatDb Answer
account_permission owner chat_id flags audit_refusal = do
  account ← expect (refused 401) owner
  chat ← expect (refused 400) chat_id
  (read, send) ← expect (refused 400) flags
  written ← query (refused 500) (put_permission account chat read send)
  stop_if (not written) (refused 404)
  stop_if (refuses audit_refusal) (refused (code_of audit_refusal))
  pure (saved read send)
