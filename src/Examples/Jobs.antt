-- ===== src/Examples/Jobs.antt =====
-- Leases, sending, jobs and rate limits at concrete inputs.
use telegram_gateway.Base.{
  ℕ, ◌≡◌, ◌≢◌, ◌≤◌, ◌<◌, ◌+◌, ◌*◌, ◌-◌, ◌/◌, refl, true, false, Option, none, some, List, [], ◌∷◌,
  arith, trim_space, find_row,
}
use telegram_gateway.Base.Keyed.{change}
use telegram_gateway.Base.Handler.{World, go, ◌>>=◌}
use telegram_gateway.SyncState.{
  State, pending, running, Lease, SyncError, acquire, progress, complete, fail, has_id, is_held_by,
}
use telegram_gateway.SyncState.Fencing.{done, Refused, superseded_lease-Refused}
use telegram_gateway.SyncState.Bounds.{held_state_not_acquired, progress_widens}
use telegram_gateway.Send.{SendDb, Inputs, delivered, send_message}
use telegram_gateway.Send.Once.{AtMostOnce, times_sent, is_reserved, send-AtMostOnce}
use telegram_gateway.Worker.{
  Error, plain, flood_wait, second, Kind, Envelope, active, is_valid, kind_of, process_message,
  handle, disposition, ack_success, ack_retry, reading, permitted, before_telegram, retry_after,
  as_flood_wait, telegram_error, fail_sync, generic_retry_delay, is_permanent, retry_error,
  retry_delay,
}
use telegram_gateway.Worker.Outcomes.{
  acknowledged_only_when_done, stopped_call_retried, flood_wait_respected, retry_delay_positive,
}
use telegram_gateway.Ratelimit.{Limit, set_account_cooldown, run_cooldown, remaining_ms}
use telegram_gateway.Ratelimit.Bounds.{
  granted, last_tick, Ascending, bucket_bound, cooldown_never_shorter,
}

abbrev state : State
state = record {
  id = "s";
  account_id = "a";
  chat_id = none;
  sync_type = "contacts";
  status = pending;
  cursor = "{}";
  oldest_message_id = some 5;
  newest_message_id = none;
  last_synced_at = none;
  next_sync_at = none;
  retry_count = 0;
  last_error = none;
  generation = 0;
  lease_owner = none;
  lease_token = none;
  lease_expires_at = none;
}

abbrev world₁ : World (List State)
world₁ = record { db = state ∷ []; faults = [] }

abbrev lease₁ : Lease
lease₁ = record { state_id = "s"; owner = "w1"; token = 11; generation = 1; expires_at = 1010 }

abbrev lease₂ : Lease
lease₂ = record { state_id = "s"; owner = "w2"; token = 12; generation = 2; expires_at = 3000 }

world₂ : World (List State)
world₂ = (acquire 10 11 "s" "w1" 1000000 world₁).1

acquired_first : acquire 10 11 "s" "w1" 1000000 world₁ ≡ (go (some lease₁), world₂)
unfolding acquire world₂ change trim_space ◌>>=◌
acquired_first = refl

world₃ : World (List State)
world₃ = (acquire 2000 12 "s" "w2" 1000000 world₂).1

acquired_second : acquire 2000 12 "s" "w2" 1000000 world₂ ≡ (go (some lease₂), world₃)
unfolding acquire world₂ world₃ change trim_space ◌>>=◌
acquired_second = refl

superseded_lease-Refused_example :
    Refused world₃ (progress 2001 lease₁ (some "{}") none none world₃)
    × Refused world₃ (complete 2001 lease₁ world₃)
    × Refused world₃ (fail 2001 lease₁ none 0 world₃)
superseded_lease-Refused_example =
    superseded_lease-Refused 10 2000 11 12 "s" "s" "w1" "w2" 1000000 1000000 lease₁ lease₂ world₁
      world₂ world₂ world₃ world₃ 2001 (some "{}") none none none 0 acquired_first (done world₂.db)
      acquired_second refl (done world₃.db)

abbrev held : State
held = record state {
  status = running;
  generation = 1;
  lease_owner = some "w1";
  lease_token = some 11;
  lease_expires_at = some 1010;
}

found_held : find_row (has_id (trim_space "s")) world₂.db ≡ some held
unfolding acquire world₂ change trim_space ◌>>=◌
found_held = refl

held_state_not_acquired_example :
    ((l : Lease) (w' : World (List State))
      → acquire 500 12 "s" "w2" 1000000 world₂ ≢ (go (some l), w'))
    × ((acquire 500 12 "s" "w2" 1000000 world₂).1.db ≡ world₂.db)
held_state_not_acquired_example =
    held_state_not_acquired 500 12 "s" "w2" 1000000 held 1010 world₂ found_held refl (omega arith)

abbrev progressed_state : State
progressed_state = record held {
  cursor = "{}";
  oldest_message_id = some 3;
  newest_message_id = some 9;
  last_synced_at = some 20;
}

after_progress : World (List State)
after_progress = (progress 20 lease₁ (some "{}") (some 3) (some 9) world₂).1

progressed_once :
    progress 20 lease₁ (some "{}") (some 3) (some 9) world₂ ≡ (go progressed_state, after_progress)
unfolding acquire progress world₂ after_progress change trim_space is_held_by ◌>>=◌
progressed_once = refl

progress_widens_example :
    (before : State) × (a : ℕ) × (b : ℕ) × (find_row (has_id "s") world₂.db ≡ some before)
    × (find_row (has_id "s") after_progress.db ≡ some progressed_state)
    × (progressed_state.cursor ≡ "{}")
    × (progressed_state.oldest_message_id ≡ some a)
    × (progressed_state.newest_message_id ≡ some b)
    × (a ≤ 3)
    × (9 ≤ b)
    × ((c : ℕ) → before.oldest_message_id ≡ some c → a ≤ c)
    × ((c : ℕ) → before.newest_message_id ≡ some c → c ≤ b)
    × (progressed_state.lease_owner ≡ before.lease_owner)
    × (progressed_state.lease_token ≡ before.lease_token)
    × (progressed_state.lease_expires_at ≡ before.lease_expires_at)
    × (progressed_state.generation ≡ before.generation)
    × (progressed_state.generation ≡ 1)
progress_widens_example =
    progress_widens 20 lease₁ "{}" 3 9 progressed_state world₂ after_progress progressed_once

abbrev inputs : Inputs
inputs = record {
  principal = some (1, 2);
  decoded = true;
  text = "hello";
  valid_utf8 = true;
  request_id = some 3;
  chat = "chat";
  telegram_chat = some 4;
  session = some true;
  cooldown = some 0;
  limit = some true;
  audit_refusal = none;
  chat_refusal = none;
  result = delivered 5;
}

abbrev unsent : World SendDb
unsent = record { db = record { requests = []; dispatched = [] }; faults = [] }

none_sent : AtMostOnce unsent.db
unfolding AtMostOnce times_sent is_reserved
none_sent k = (omega arith, λ gone. refl)

send-AtMostOnce_example : AtMostOnce (send_message (λ c t. 0) inputs unsent).1.db
send-AtMostOnce_example = send-AtMostOnce (λ c t. 0) inputs unsent none_sent

abbrev envelope : Envelope
envelope = record {
  version = 1;
  job_id = "j";
  kind = "contacts.sync";
  account_id = "a";
  payload = 123 ∷ [];
}

abbrev no_error : Option Error
no_error = none

finished_job : process_message (λ k b. true) (λ k e. none) active (some envelope) ≡ ack_success
unfolding process_message handle disposition is_valid kind_of trim_space
finished_job = refl

acknowledged_only_when_done_example :
    (e : Envelope) × (k : Kind) × (some envelope ≡ some e)
    × (is_valid e ≡ true)
    × (active ≡ active)
    × (kind_of e.kind ≡ some k)
    × (true ≡ true)
    × (no_error ≡ none)
acknowledged_only_when_done_example =
    acknowledged_only_when_done (λ k b. true) (λ k e. none) active (some envelope) finished_job

retried : disposition (some (retry_error 7 plain)) ≡ ack_retry 7
unfolding disposition retry_delay is_permanent
retried = refl

retry_delay_positive_example : 0 < 7
retry_delay_positive_example = retry_delay_positive (some (retry_error 7 plain)) 7 retried

cooling :
    before_telegram (reading 5) (reading permitted) (reading permitted)
    ≡ some (retry_error second plain)
unfolding before_telegram retry_after
cooling = refl

abbrev persisted : Option SyncError
persisted = none

stopped_call_retried_example :
    (d : ℕ) × (disposition (some (fail_sync persisted (retry_error second plain))) ≡ ack_retry d)
    × (second ≤ d)
    × (persisted ≡ none → 5 ≤ d)
    × ((f : SyncError) → persisted ≡ some f → d ≡ generic_retry_delay)
stopped_call_retried_example =
    stopped_call_retried persisted (reading 5) (reading permitted) (reading permitted)
      (retry_error second plain) cooling

flood : as_flood_wait (flood_wait 37000000000 plain) ≡ some 37000000000
unfolding as_flood_wait
flood = refl

not_permanent : is_permanent (flood_wait 37000000000 plain) ≡ false
unfolding is_permanent
not_permanent = refl

flood_wait_respected_example :
    (d : ℕ) × (disposition
        (some (fail_sync persisted (telegram_error (λ d. some d) (flood_wait 37000000000 plain))))
      ≡ ack_retry d)
    × (persisted ≡ none → 37000000000 ≤ d)
    × ((f : SyncError) → persisted ≡ some f → d ≡ generic_retry_delay)
flood_wait_respected_example =
    flood_wait_respected persisted (λ d. some d) (flood_wait 37000000000 plain) 37000000000
      38000000000 flood refl (omega arith) not_permanent

abbrev limit : Limit
limit = record { capacity = 10; refill = 2; cost = 4 }

in_order : Ascending 5 (5 ∷ 6 ∷ 9 ∷ [])
unfolding Ascending
in_order = (omega arith, (omega arith, (omega arith, tt)))

bucket_bound_example :
    granted limit none (5 ∷ 5 ∷ 6 ∷ 9 ∷ []) * 4 ≤ 10 + (last_tick 5 (5 ∷ 6 ∷ 9 ∷ []) - 5) * 2
bucket_bound_example = bucket_bound limit 5 (5 ∷ 6 ∷ 9 ∷ []) in_order

cooled : set_account_cooldown 100 "a" 3000000 (some 150) ≡ (some 50000000, some 150)
unfolding set_account_cooldown run_cooldown remaining_ms trim_space
cooled = refl

cooldown_never_shorter_example :
    (remaining_ms 100 (some 150) ≤ remaining_ms 100 (some 150))
    × (3000000 / 1000000 ≤ remaining_ms 100 (some 150))
    × (1 ≤ remaining_ms 100 (some 150))
    × (50000000 ≡ remaining_ms 100 (some 150) * 1000000)
cooldown_never_shorter_example =
    cooldown_never_shorter 100 "a" 3000000 (some 150) (some 150) 50000000 cooled
