-- ===== src/Examples/Logs.antt =====
-- The audit log with a digest of one byte.
use telegram_gateway.Base.{
  ℕ, ◌≡◌, refl, sym, ap, ◌∙◌, String, Bool, true, false, Option, none, some, ◌&&◌, eq_iff,
  if◌then◌else◌, List, [], ◌∷◌, ◌+◌, ◌⊎◌, arith, select_where, text_eq, trim_space,
}
use telegram_gateway.Base.Handler.{World, go, ◌>>=◌}
use telegram_gateway.Audit.{
  Bytes, Event, missing, Row, Codec, write, chain_key, truncate, stored_row, head_hash,
  verify_chain, check_rows, check_row, row_payload, Payload, payload_of, verified, Progress,
  beginning,
}
use telegram_gateway.Audit.Chain.{Canonical, write_verifies}
use telegram_gateway.Audit.Tamper.{Collision, SameEvents, TellsApart, size, same_head-SameEvents}

abbrev sum : Bytes → ℕ
sum [] = 0
sum (x ∷ xs) = sum xs + (x + 1)

abbrev event : Event
event = record {
  account_id = some "account";
  actor_type = "USER";
  actor_id = "";
  action = "LOGIN";
  resource_type = "session";
  resource_id = "";
  ip_address = "";
  user_agent = "";
  request_id = none;
  metadata = missing;
  created_at = some 123456;
}

abbrev is_account : Option String → Bool
is_account none = false
is_account (some s) = text_eq s "account"

abbrev is_absent : Option String → Bool
is_absent none = true
is_absent (some s) = false

-- Only the payload of the event, at any time, has a JSON text here.
unfoldable is_event : Payload → Bool
is_event p =
    is_account p.account_id
    && (text_eq p.actor_type "USER"
        && (text_eq p.actor_id ""
            && (text_eq p.action "LOGIN"
                && (text_eq p.resource_type "session"
                    && (text_eq p.resource_id ""
                        && (text_eq p.ip_address ""
                            && (text_eq p.user_agent ""
                                && (is_absent p.request_id && text_eq p.metadata "{}"))))))))

abbrev codec : Codec
codec = record {
  sha256 = λ b. sum b ∷ [];
  marshal = λ p. if is_event p then some (p.created_at ∷ 1 ∷ []) else none;
  reencode = λ s. some "{}";
  uuid_text = λ s. some s;
  inet_text = λ s. some s;
  jsonb_text = λ s. some s;
}

abbrev empty_log : World (List Row)
empty_log = record { db = []; faults = [] }

logged : World (List Row)
logged = (write codec 5 1 event empty_log).1

logged_once : write codec 5 1 event empty_log ≡ (go tt, logged)
unfolding write logged is_event ◌>>=◌ chain_key truncate stored_row head_hash trim_space
logged_once = refl

empty_verifies : verify_chain codec [] (chain_key event.account_id) ≡ verified beginning
unfolding verify_chain chain_key trim_space check_rows
empty_verifies = refl

canonical : Canonical codec event
canonical = record {
  account = λ s h. refl;
  request = λ s h. refl;
  address = λ h. refl;
  json = λ m s h k. ground arith;
}

write_verifies_example :
    (s' : Progress) × (verify_chain codec logged.db (chain_key event.account_id) ≡ verified s')
    × (s'.entries ≡ beginning.entries + 1)
    × (s'.last_id ≡ 1)
write_verifies_example =
    write_verifies codec 5 1 event empty_log logged tt beginning canonical empty_verifies
      logged_once

abbrev one_entry : Progress
one_entry = record { entries = 1; first_id = 1; last_id = 1; previous = 123003 ∷ [] }

logged_verifies : verify_chain codec logged.db "account" ≡ verified one_entry
unfolding verify_chain logged write ◌>>=◌ chain_key truncate stored_row head_hash trim_space
    check_rows check_row row_payload is_event
logged_verifies = refl

same_size : (a b : Bytes) → size codec (codec.sha256 a) ≡ size codec (codec.sha256 b)
unfolding size
same_size a b = refl

account_found : (o : Option String) → is_account o ≡ true → o ≡ some "account"
account_found none h = absurd (cc)
account_found (some s) h = ap some ((eq_iff s "account").0 h)

absent_found : (o : Option String) → is_absent o ≡ true → o ≡ none
absent_found none h = refl
absent_found (some s) h = absurd (cc)

event_found : (p : Payload) → is_event p ≡ true → p ≡ payload_of event "{}" p.created_at
unfolding is_event
event_found p h =
    let account : p.account_id ≡ some "account" = account_found p.account_id (ground arith) in
    let actor_type : p.actor_type ≡ "USER" = (eq_iff p.actor_type "USER").0 (ground arith) in
    let actor_id : p.actor_id ≡ "" = (eq_iff p.actor_id "").0 (ground arith) in
    let action : p.action ≡ "LOGIN" = (eq_iff p.action "LOGIN").0 (ground arith) in
    let resource_type : p.resource_type ≡ "session" =
      (eq_iff p.resource_type "session").0 (ground arith) in
    let resource_id : p.resource_id ≡ "" = (eq_iff p.resource_id "").0 (ground arith) in
    let ip_address : p.ip_address ≡ "" = (eq_iff p.ip_address "").0 (ground arith) in
    let user_agent : p.user_agent ≡ "" = (eq_iff p.user_agent "").0 (ground arith) in
    let request : p.request_id ≡ none = absent_found p.request_id (ground arith) in
    let metadata : p.metadata ≡ "{}" = (eq_iff p.metadata "{}").0 (ground arith) in
    λ i. record {
      account_id = account i;
      actor_type = actor_type i;
      actor_id = actor_id i;
      action = action i;
      resource_type = resource_type i;
      resource_id = resource_id i;
      ip_address = ip_address i;
      user_agent = user_agent i;
      request_id = request i;
      metadata = metadata i;
      created_at = p.created_at;
    }

told_apart : TellsApart codec
told_apart p q a b json n m h k =
    let here : is_event p ≡ true = ground arith in
    let there : is_event q ≡ true = ground arith in
    let time : p.created_at ≡ q.created_at = ground arith in
    event_found p here ∙ ap (payload_of event "{}") time ∙ sym (event_found q there)

-- The same log under another row id, with its metadata spelled otherwise.
abbrev copied : List Row
copied =
    record {
      id = 8;
      account_id = some "account";
      chain_key = "account";
      actor_type = "USER";
      actor_id = some "";
      action = "LOGIN";
      resource_type = "session";
      resource_id = none;
      ip_address = none;
      user_agent = none;
      request_id = none;
      metadata = "{ }";
      previous_hash = [];
      hash = 123003 ∷ [];
      created_at = 123;
    }
    ∷ []

abbrev copied_entry : Progress
copied_entry = record { entries = 1; first_id = 8; last_id = 8; previous = 123003 ∷ [] }

copied_verifies : verify_chain codec copied "account" ≡ verified copied_entry
unfolding verify_chain trim_space check_rows check_row row_payload is_event
copied_verifies = refl

same_head-SameEvents_example :
    Collision codec
    ⊎ SameEvents codec
        (select_where (λ (r : Row). text_eq r.chain_key (trim_space "account")) logged.db)
        (select_where (λ (r : Row). text_eq r.chain_key (trim_space "account")) copied)
same_head-SameEvents_example =
    same_head-SameEvents codec "account" logged.db copied one_entry copied_entry told_apart
      same_size logged_verifies copied_verifies refl refl
