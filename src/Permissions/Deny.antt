-- ===== src/Permissions/Deny.antt =====
-- internal/httpserver/chat_permissions.go: what a saved permission allows and denies.
use telegram_gateway.Base.{
  ℕ, Bool, true, false, Option, none, some, List, [], ◌∷◌, ◌&&◌, ◌==◌, ◌≡◌, refl, ap, ◌∙◌, arith,
  if◌then◌else◌, any_row, update_where, Bool-cases, inl, inr,
}
use telegram_gateway.Base.Handler.{World, Outcome, reply, go, ◌>>=◌}
use telegram_gateway.Schema.{Uuid}
use telegram_gateway.Permissions.{
  ChatDb, ChatPermission, Answer, refused, saved, is_chat, is_permission, permits, is_allowed_chat,
  allow_chat, put_permission, account_permission,
}

any_row-updated :
    (account chat : Uuid) (read send asked : Bool) (ps : List ChatPermission)
    → any_row (permits account chat asked) (
        update_where
          (is_permission account chat)
          (λ p. record p { can_read = read; can_send = send })
          ps)
      ≡ (any_row (is_permission account chat) ps && (if asked then send else read))
any_row-updated account chat read send asked [] = refl
any_row-updated account chat read send asked (p ∷ ps) =
    elim (Bool-cases (is_permission account chat p)) [
      | inl mine ↦
          rw mine (rw mine (ground (arith, any_row-updated account chat read send asked ps)))
      | inr other ↦
          rw other (rw other (ground (arith, any_row-updated account chat read send asked ps)))
    ]

no_permission :
    (account chat : Uuid) (asked : Bool) (ps : List ChatPermission)
    → any_row (is_permission account chat) ps ≡ false
    → any_row (permits account chat asked) ps ≡ false
no_permission account chat asked [] h = refl
no_permission account chat asked (p ∷ ps) h = ground (arith, no_permission account chat asked ps)

as_it_is : (b : Bool) → (if b then true else false) ≡ b
as_it_is true = refl
as_it_is false = refl

same_uuid : (a : Uuid) → (a == a) ≡ true
same_uuid a = ground arith

put_permission-is_allowed_chat :
    (account chat : Uuid) (read send asked : Bool) (d : ChatDb)
    → (put_permission account chat read send d).0 ≡ true
    → is_allowed_chat account chat asked (put_permission account chat read send d).1
      ≡ (if asked then send else read)
unfolding put_permission is_allowed_chat
put_permission-is_allowed_chat account chat read send asked d h =
    elim (Bool-cases (any_row (is_chat account chat) d.chats)) [
      | inr gone ↦ absurd (ground arith)
      | inl there ↦ elim (Bool-cases (any_row (is_permission account chat) d.permissions)) [
        | inl old ↦ rw there (
            rw old
              (rw there (any_row-updated account chat read send asked d.permissions ∙ rw old refl)))
        | inr new ↦ rw there (
            rw new (
              rw there (
                rw (same_uuid account) (
                  rw (same_uuid chat) (
                    rw (no_permission account chat asked d.permissions new)
                      (as_it_is (if asked then send else read)))))))
      ]
    ]

answer_of : Bool → Outcome Answer Unit
answer_of allowed = if allowed then go tt else reply (refused 403)

allow_chat-answer :
    (account chat : Uuid) (asked : Bool) (u : World ChatDb)
    → u.faults ≡ []
    → (allow_chat account (some chat) asked u).0
      ≡ answer_of (is_allowed_chat account chat asked u.db)
unfolding allow_chat answer_of ◌>>=◌
allow_chat-answer account chat asked u h = ground arith

account_permission-go :
    (account chat : Uuid) (flags : Option (Bool × Bool)) (audit_refusal : Option ℕ)
    (read send : Bool) (w w' : World ChatDb)
    → account_permission (some account) (some chat) flags audit_refusal w
      ≡ (go (saved read send), w')
    → (flags ≡ some (read, send))
      × ((put_permission account chat read send w.db).0 ≡ true)
      × (w'.db ≡ (put_permission account chat read send w.db).1)
unfolding account_permission ◌>>=◌
account_permission-go account chat none audit_refusal read send w w' h = absurd (cc)
account_permission-go account chat (some (r, s)) audit_refusal read send w w' h =
    (ground arith, ground arith, ground arith)

-- After an account's owner has saved the permissions of a chat, a request to read the chat is let
-- through exactly where reading was allowed, and one to send exactly where sending was; otherwise it is
-- answered 403. The request meets no database error, and no change of the database in between.
pub saved_permission_decides :
    (account chat : Uuid) (flags : Option (Bool × Bool)) (audit_refusal : Option ℕ)
    (read send asked : Bool) (w w' u : World ChatDb)
    → account_permission (some account) (some chat) flags audit_refusal w
      ≡ (go (saved read send), w')
    → u.db ≡ w'.db
    → u.faults ≡ []
    → (allow_chat account (some chat) asked u).0
      ≡ (if (if asked then send else read) then go tt else reply (refused 403))
unfolding answer_of
saved_permission_decides account chat flags audit_refusal read send asked w w' u h same ok =
    let (flag, written, stored) =
      account_permission-go account chat flags audit_refusal read send w w' h in
    allow_chat-answer account chat asked u ok
    ∙ ap answer_of (
        ap (is_allowed_chat account chat asked) (same ∙ stored)
        ∙ put_permission-is_allowed_chat account chat read send asked w.db written)
