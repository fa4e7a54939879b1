-- ===== src/Runtime.antt =====
-- internal/runtime/repository.go: the leases on Telegram sessions, one for each account. A duration is
-- a number of nanoseconds (0 for a negative one), a timestamp a number of microseconds; `now` is NOW()
-- and `token` what gen_random_uuid() returns. `eligible` is the query that an account is pending or
-- active, which belongs to another table.
pub mod Growth
pub mod Fencing
use telegram_gateway.Base.{
  ℕ, String, Bool, true, false, Option, none, some, List, [], ◌∷◌, ◌&&◌, ◌||◌, ◌==◌, ◌+◌, ◌*◌, ◌/◌,
  leb, ltb, not, is_empty, text_eq, trim_space, if◌then◌else◌, any_row,
}
use telegram_gateway.Base.Keyed.{change}
use telegram_gateway.Base.Handler.{Handler, ◌>>=◌, ◌>>◌, query, expect, stop_if, pure, in_tx}
use telegram_gateway.Schema.{Time, Uuid}

pub data ObservedState : Type 0 where
  offline starting authorizing ready backoff error : ObservedState

pub record SessionRow : Type 0 where
  pub account_id : String
  pub shard_key : String
  pub desired_online : Bool
  pub observed_state : ObservedState
  pub worker_id : Option String
  pub lease_token : Option Uuid
  pub lease_expires_at : Option Time
  pub generation : ℕ
  pub last_error : Option String
  pub last_started_at : Option Time
  pub last_ready_at : Option Time

pub record SessionLease : Type 0 where
  pub account_id : String
  pub worker_id : String
  pub token : Uuid
  pub generation : ℕ
  pub expires_at : Time

pub data RuntimeError : Type 0 where
  invalid_argument lease_lost database_error no_rows : RuntimeError
  not_acquired : RuntimeError

abbrev pub of_account : String → SessionRow → Bool
of_account id r = text_eq r.account_id id

-- $4 * interval '1 millisecond', of ttl.Milliseconds()
abbrev pub session_interval : ℕ → Time
session_interval d = d / 1000000 * 1000

abbrev new_row : String → String → SessionRow
new_row account shard = record {
  account_id = account;
  shard_key = shard;
  desired_online = true;
  observed_state = offline;
  worker_id = none;
  lease_token = none;
  lease_expires_at = none;
  generation = 0;
  last_error = none;
  last_started_at = none;
  last_ready_at = none;
}

-- INSERT … SELECT … ON CONFLICT (account_id) DO NOTHING
unfoldable pub ensure_row : Bool → String → String → List SessionRow → List SessionRow
ensure_row eligible account shard d =
    if any_row (of_account account) d || not eligible then d else new_row account shard ∷ d

abbrev pub can_start : Time → SessionRow → Bool
can_start now r = r.desired_online && elim r.lease_expires_at [ none ↦ true | some t ↦ leb t now ]

abbrev pub started : Time → Uuid → String → String → ℕ → SessionRow → SessionRow
started now token worker shard ttl r = record r {
  shard_key = shard;
  worker_id = some worker;
  lease_token = some token;
  lease_expires_at = some (now + session_interval ttl);
  generation = r.generation + 1;
  observed_state = starting;
  last_started_at = some now;
  last_error = none;
}

abbrev pub lease_of_row : Time → Uuid → String → ℕ → SessionRow → SessionLease
lease_of_row now token worker ttl r = record {
  account_id = r.account_id;
  worker_id = worker;
  token = token;
  generation = r.generation;
  expires_at = now + session_interval ttl;
}

-- `Acquire`; the answer `false` without an error is `not_acquired`, which rolls back as well.
unfoldable pub acquire_session :
    Bool
    → Time
    → Uuid
    → String
    → String
    → String
    → ℕ
    → Handler RuntimeError (List SessionRow) SessionLease
acquire_session eligible now token account_id worker_id shard_key ttl = do
  let account = trim_space account_id
  let worker = trim_space worker_id
  let given = trim_space shard_key
  let shard = if is_empty given then "default" else given
  stop_if (is_empty account || is_empty worker) invalid_argument
  stop_if (ttl == 0) invalid_argument
  row ←
      in_tx database_error (λ _. database_error)
        (do
          query database_error (λ d. (tt, ensure_row eligible account shard d))
          row ←
              query database_error
                (change (of_account account) (can_start now) (started now token worker shard ttl))
          expect not_acquired row)
  pure (lease_of_row now token worker ttl row)

abbrev same_worker : Option String → String → Bool
same_worker none s = false
same_worker (some t) s = text_eq t s

abbrev same_uuid : Option Uuid → Uuid → Bool
same_uuid none n = false
same_uuid (some m) n = m == n

-- worker_id = $2 AND lease_token = $3 AND generation = …
unfoldable pub is_owned_by : SessionLease → SessionRow → Bool
is_owned_by l r =
    same_worker r.worker_id l.worker_id
    && (same_uuid r.lease_token l.token && r.generation == l.generation)

abbrev pub is_running : Time → SessionRow → Bool
is_running now r = elim r.lease_expires_at [ none ↦ false | some t ↦ ltb now t ]

abbrev pub extended : Time → ℕ → SessionRow → SessionRow
extended now ttl r = record r { lease_expires_at = some (now + session_interval ttl) }

-- `Renew`; a uuid as a token is never blank.
unfoldable pub renew : Time → SessionLease → ℕ → Handler RuntimeError (List SessionRow) SessionRow
renew now l ttl = do
  stop_if (is_empty (trim_space l.account_id) || is_empty (trim_space l.worker_id)) invalid_argument
  stop_if (ttl == 0) invalid_argument
  row ← query database_error (
      change (of_account l.account_id) (λ r. is_owned_by l r && is_running now r)
        (extended now ttl))
  expect lease_lost row

abbrev pub released : SessionRow → SessionRow
released r = record r {
  worker_id = none;
  lease_token = none;
  lease_expires_at = none;
  observed_state = offline;
}

unfoldable pub release : SessionLease → Handler RuntimeError (List SessionRow) SessionRow
release l = do
  row ← query database_error (change (of_account l.account_id) (is_owned_by l) released)
  expect lease_lost row

abbrev is_ready : ObservedState → Bool
is_ready ready = true
is_ready _ = false

abbrev pub observed : Time → ObservedState → String → SessionRow → SessionRow
observed now state last_error r = record r {
  observed_state = state;
  last_error = if is_empty last_error then none else some last_error;
  last_ready_at = if is_ready state then some now else r.last_ready_at;
}

-- `SetObservedState` of a valid state, `none` being an invalid one
unfoldable pub set_observed_state :
    Time
    → SessionLease
    → Option ObservedState
    → String
    → Handler RuntimeError (List SessionRow) SessionRow
set_observed_state now l state last_error = do
  valid ← expect invalid_argument state
  row ← query database_error (
      change (of_account l.account_id) (is_owned_by l) (observed now valid (trim_space last_error)))
  expect lease_lost row

unfoldable pub set_desired_online :
    String → Bool → Handler RuntimeError (List SessionRow) SessionRow
set_desired_online account_id online = do
  row ← query database_error (
      change (of_account (trim_space account_id)) (λ r. true)
        (λ r. record r { desired_online = online }))
  expect no_rows row
