-- ===== src/Examples/Sessions.antt =====
-- A session lease that another worker takes over, and a permission that is saved.
use telegram_gateway.Base.{◌≡◌, refl, true, false, none, some, List, [], ◌∷◌, trim_space}
use telegram_gateway.Base.Keyed.{change}
use telegram_gateway.Base.Handler.{World, go, reply, ◌>>=◌}
use telegram_gateway.Runtime.{
  SessionRow, SessionLease, ready, acquire_session, renew, release, set_observed_state, ensure_row,
  set_desired_online,
}
use telegram_gateway.Runtime.Growth.{done, step, switched, reported}
use telegram_gateway.Runtime.Fencing.{Refused, acquired_session_fenced}
use telegram_gateway.Permissions.{
  ChatDb, refused, saved, allow_chat, account_permission, put_permission,
}
use telegram_gateway.Permissions.Deny.{saved_permission_decides}

abbrev start : World (List SessionRow)
start = record { db = []; faults = [] }

abbrev earlier : SessionLease
earlier = record {
  account_id = "a";
  worker_id = "w1";
  token = 11;
  generation = 1;
  expires_at = 1010;
}

abbrev current : SessionLease
current = record {
  account_id = "a";
  worker_id = "w2";
  token = 12;
  generation = 2;
  expires_at = 3000;
}

held : World (List SessionRow)
held = (acquire_session true 10 11 "a" "w1" "" 1000000 start).1

held_first : acquire_session true 10 11 "a" "w1" "" 1000000 start ≡ (go earlier, held)
unfolding acquire_session held ensure_row change trim_space ◌>>=◌
held_first = refl

switched_on : World (List SessionRow)
switched_on = (set_desired_online "a" true held).1

taken : World (List SessionRow)
taken = (acquire_session true 2000 12 "a" "w2" "" 1000000 switched_on).1

taken_over : acquire_session true 2000 12 "a" "w2" "" 1000000 switched_on ≡ (go current, taken)
unfolding acquire_session set_desired_online held switched_on taken ensure_row change trim_space
    ◌>>=◌
taken_over = refl

observed_once : World (List SessionRow)
observed_once = (set_observed_state 2010 current (some ready) "" taken).1

acquired_session_fenced_example :
    Refused observed_once (renew 2020 earlier 1000000 observed_once)
    × Refused observed_once (release earlier observed_once)
    × Refused observed_once (set_observed_state 2020 earlier (some ready) "" observed_once)
unfolding set_desired_online switched_on set_observed_state observed_once
acquired_session_fenced_example =
    acquired_session_fenced true true 10 2000 2020 11 12 "a" "a" "w1" "w2" "" "" 1000000 1000000
      1000000 earlier current start held switched_on taken observed_once (some ready) "" held_first
      (step _ _ _ (switched "a" true held) (done _)) taken_over refl
      (step _ _ _ (reported 2010 current (some ready) "" taken) (done _))

abbrev chat_world : World ChatDb
chat_world = record {
  db = record { chats = record { id = 5; account_id = 1 } ∷ []; permissions = []; media = [] };
  faults = [];
}

permitted_world : World ChatDb
permitted_world = (account_permission (some 1) (some 5) (some (true, false)) none chat_world).1

permission_saved :
    account_permission (some 1) (some 5) (some (true, false)) none chat_world
    ≡ (go (saved true false), permitted_world)
unfolding account_permission permitted_world put_permission ◌>>=◌
permission_saved = refl

no_faults : permitted_world.faults ≡ []
unfolding account_permission permitted_world put_permission ◌>>=◌
no_faults = refl

saved_permission_decides_example :
    (allow_chat 1 (some 5) true permitted_world).0 ≡ reply (refused 403)
saved_permission_decides_example =
    saved_permission_decides 1 5 (some (true, false)) none true false true chat_world
      permitted_world permitted_world permission_saved refl no_faults
