-- ===== src/Send/Once.antt =====
-- internal/httpserver/send.go: how often a request id is handed to Telegram.
use telegram_gateway.Base.{
  ℕ, String, Bool, true, false, some, List, [], ◌∷◌, ◌≤◌, ◌≡◌, refl, sym, ap, ◌∙◌, arith, any_row,
  delete_where, update_where, count_where, if◌then◌else◌, Bool-cases, inl, inr,
}
use mathlib.Core.Path.{subst}
use telegram_gateway.Base.Handler.{World, Handler, ◌>>=◌}
use telegram_gateway.Base.Handler.Ends.{
  From, stop_if-From, expect-From, query-From, attempt-From, pure-From,
}
use telegram_gateway.Schema.{Digest}
use telegram_gateway.Send.{
  Key, same_key, of_key, SendRequest, Dispatch, SendDb, SendStatus, Inputs, Reply, reserve, forget,
  call_telegram, save_status, answer_again, dispatch, give_up, transmit, deliver, send_message,
  is_allowed, key_of,
}

-- How often a request id was handed to Telegram.
unfoldable pub times_sent : Key → SendDb → ℕ
times_sent k d = count_where (λ (m : Dispatch). same_key m.key k) d.dispatched

unfoldable pub is_reserved : Key → SendDb → Bool
is_reserved k d = any_row (of_key k) d.requests

-- Every request id was dispatched at most once, and only if its row is there.
unfoldable pub AtMostOnce : SendDb → Type 0
AtMostOnce d = (k : Key) → (times_sent k d ≤ 1) × (is_reserved k d ≡ false → times_sent k d ≡ 0)

-- The id is reserved and nothing was dispatched under it.
Ready : Key → SendDb → Type 0
Ready k d = AtMostOnce d × (is_reserved k d ≡ true) × (times_sent k d ≡ 0)

true_ne_false : true ≡ false → ⊥
true_ne_false h = cc

same_key_refl : (k : Key) → same_key k k ≡ true
same_key_refl k = ground arith

same_key_sound : (a b : Key) → same_key a b ≡ true → a ≡ b
same_key_sound a b h =
    let x : a.account_id ≡ b.account_id = ground arith in
    let y : a.client_id ≡ b.client_id = ground arith in
    let z : a.request_id ≡ b.request_id = ground arith in cc

any_row-forget :
    (k k' : Key) (xs : List SendRequest)
    → same_key k k' ≡ false
    → any_row (of_key k') (delete_where (of_key k) xs) ≡ any_row (of_key k') xs
any_row-forget k k' [] other = refl
any_row-forget k k' (x ∷ xs) other = elim (Bool-cases (of_key k x)) [
  | inl mine ↦
      let e : same_key x.key k' ≡ false =
        subst (λ j. same_key j k' ≡ false) (sym (same_key_sound x.key k mine)) other in
      rw mine (rw e (any_row-forget k k' xs other))
  | inr left ↦ rw left (elim (Bool-cases (of_key k' x)) [
    | inl t ↦ rw t refl
    | inr t ↦ rw t (any_row-forget k k' xs other)
  ])
]

any_row-save :
    (k : Key) (p : SendRequest → Bool) (f : SendRequest → SendRequest) (xs : List SendRequest)
    → ((r : SendRequest) → (f r).key ≡ r.key)
    → any_row (of_key k) (update_where p f xs) ≡ any_row (of_key k) xs
any_row-save k p f [] same = refl
any_row-save k p f (x ∷ xs) same = elim (Bool-cases (p x)) [
  | inl t ↦ rw t (rw (same x) (rw (any_row-save k p f xs same) refl))
  | inr t ↦ rw t (rw (any_row-save k p f xs same) refl)
]

reserve-Ready :
    (k : Key) (hash : Digest) (d : SendDb)
    → AtMostOnce d
    → (reserve k hash d).0 ≡ true
    → Ready k (reserve k hash d).1
unfolding reserve Ready AtMostOnce times_sent is_reserved
reserve-Ready k hash d once new = elim (Bool-cases (any_row (of_key k) d.requests)) [
  | inl taken ↦ absurd (ground arith)
  | inr free ↦
      let still = (once k).1 free in
      let there = same_key_refl k in
      rw free (
        (λ k'. elim (Bool-cases (same_key k k')) [
          | inl t ↦ rw t ((once k').0, λ gone. absurd (true_ne_false gone))
          | inr t ↦ rw t (once k')
        ]),
        rw there refl,
        still,
      )
]

unreserved :
    (k : Key) (hash : Digest) (d : SendDb)
    → AtMostOnce d
    → (reserve k hash d).0 ≡ false
    → AtMostOnce (reserve k hash d).1
unfolding reserve
unreserved k hash d once old = elim (Bool-cases (any_row (of_key k) d.requests)) [
  | inl taken ↦ rw taken once
  | inr free ↦ absurd (ground arith)
]

forget-AtMostOnce : (k : Key) (d : SendDb) → Ready k d → AtMostOnce (forget k d)
unfolding Ready AtMostOnce times_sent is_reserved
forget-AtMostOnce k d ready k' = elim (Bool-cases (same_key k k')) [
  | inl t ↦
      let none_sent = subst (λ j. times_sent j d ≡ 0) (same_key_sound k k' t) ready.2 in
      (ground arith, λ _. none_sent)
  | inr t ↦ ((ready.0 k').0, λ gone. (ready.0 k').1 (sym (any_row-forget k k' d.requests t) ∙ gone))
]

sent-AtMostOnce :
    (k : Key) (chat : ℕ) (text : String) (d : SendDb)
    → Ready k d
    → AtMostOnce (call_telegram k chat text d)
unfolding Ready AtMostOnce times_sent is_reserved
sent-AtMostOnce k chat text d ready k' = elim (Bool-cases (same_key k k')) [
  | inl t ↦
      let none_sent = subst (λ j. times_sent j d ≡ 0) (same_key_sound k k' t) ready.2 in
      let there = subst (λ j. is_reserved j d ≡ true) (same_key_sound k k' t) ready.1 in
      (ground arith, λ gone. absurd (ground arith))
  | inr t ↦ rw t (ready.0 k')
]

saved-AtMostOnce :
    (k : Key) (status : SendStatus) (id : ℕ) (d : SendDb)
    → AtMostOnce d
    → AtMostOnce (save_status k status id d)
unfolding AtMostOnce times_sent is_reserved
saved-AtMostOnce k status id d once k' =
    rw
      (any_row-save k' (of_key k) (λ r. record r { status = status; telegram_message_id = some id })
        d.requests (λ r. refl))
      (once k')

dispatch-From :
    (k : Key) (chat : ℕ) (text : String) (f : Unit {0} → Handler Reply SendDb Reply) (d : SendDb)
    → From AtMostOnce (call_telegram k chat text d) (f tt)
    → From AtMostOnce d (dispatch k chat text >>= f)
unfolding dispatch ◌>>=◌
dispatch-From k chat text f d next w e =
    next (record w { db = call_telegram k chat text w.db }) (ap (call_telegram k chat text) e)

give_up-AtMostOnce : (k : Key) (d : SendDb) → Ready k d → From AtMostOnce d (give_up k)
unfolding give_up Ready
give_up-AtMostOnce k d ready =
    attempt-From AtMostOnce tt (forget k) _ d (pure-From Reply AtMostOnce _ d ready.0)
      (pure-From Reply AtMostOnce _ (forget k d) (forget-AtMostOnce k d ready))

transmit-AtMostOnce :
    (i : Inputs) (k : Key) (chat : ℕ) (d : SendDb)
    → Ready k d
    → From AtMostOnce d (transmit i k chat)
unfolding transmit Ready
transmit-AtMostOnce i k chat d ready =
    let sent = call_telegram k chat i.text d in
    let once = sent-AtMostOnce k chat i.text d ready in
    let saved = saved-AtMostOnce k _ _ sent once in
    stop_if-From AtMostOnce _ _ _ d ready.0 (λ _. stop_if-From AtMostOnce _ _ _ d ready.0 (λ _.
      dispatch-From k chat i.text _ d (
        query-From AtMostOnce _ _ _ sent once
          (stop_if-From AtMostOnce _ _ _ _ saved (λ _. pure-From Reply AtMostOnce _ _ saved)))))

deliver-AtMostOnce :
    (i : Inputs) (k : Key) (chat : ℕ) (d : SendDb)
    → Ready k d
    → From AtMostOnce d (deliver i k chat)
unfolding deliver
deliver-AtMostOnce i k chat d ready = elim (Bool-cases (is_allowed i.limit)) [
  | inl t ↦ rw t (transmit-AtMostOnce i k chat d ready)
  | inr t ↦ rw t (give_up-AtMostOnce k d ready)
]

answer_again-AtMostOnce :
    (k : Key) (hash : Digest) (d : SendDb) → AtMostOnce d → From AtMostOnce d (answer_again k hash)
unfolding answer_again
answer_again-AtMostOnce k hash d once = query-From AtMostOnce _ _ _ d once (
    expect-From AtMostOnce _ _ _ d once (λ r _.
      stop_if-From AtMostOnce _ _ _ d once
        (λ _. stop_if-From AtMostOnce _ _ _ d once (λ _. pure-From Reply AtMostOnce _ d once))))

after_reserve :
    (i : Inputs) (k : Key) (chat : ℕ) (hash : Digest) (d : SendDb)
    → AtMostOnce d
    → From AtMostOnce
        (reserve k hash d).1
        (if (reserve k hash d).0 then deliver i k chat else answer_again k hash)
after_reserve i k chat hash d once = elim (Bool-cases (reserve k hash d).0) [
  | inl t ↦ rw t (deliver-AtMostOnce i k chat _ (reserve-Ready k hash d once t))
  | inr t ↦ rw t (answer_again-AtMostOnce k hash _ (unreserved k hash d once t))
]

-- Whatever request is handled, on whatever branch and with whatever statements failing, no request id
-- is handed to Telegram a second time, and none whose reservation is gone was ever handed over.
pub send-AtMostOnce :
    (body_hash : String → String → Digest) (i : Inputs) (w : World SendDb)
    → AtMostOnce w.db
    → AtMostOnce (send_message body_hash i w).1.db
unfolding send_message
send-AtMostOnce body_hash i w once =
    let d = w.db in
    expect-From AtMostOnce _ _ _ d once
      (λ p _. stop_if-From AtMostOnce _ _ _ d once (λ _.
        expect-From AtMostOnce _ _ _ d once (λ request _.
          expect-From AtMostOnce _ _ _ d once (λ chat _.
            expect-From AtMostOnce _ _ _ d once (λ sender _.
              stop_if-From AtMostOnce _ _ _ d once (λ _. stop_if-From AtMostOnce _ _ _ d once (λ _.
                query-From AtMostOnce _ _ _ d once
                  (after_reserve i (key_of p request) chat (body_hash i.chat i.text) d once))))))))
      w refl
