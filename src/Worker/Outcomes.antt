-- ===== src/Worker/Outcomes.antt =====
-- When a job is acknowledged, when it is retried, and after how long.
use telegram_gateway.Base.{
  ℕ, zero, suc, Bool, true, false, Option, none, some, List, ◌+◌, ◌≤◌, ◌<◌, ◌≡◌, refl, sym, ap, ◌∙◌,
  arith, ltb, if◌then◌else◌, Option-cases, inl, inr,
}
use telegram_gateway.SyncState.{SyncError}
use telegram_gateway.Worker.{
  Error, plain, second, retry_after, retry_delay, is_permanent, ack_success, ack_retry,
  generic_retry_delay, disposition, Kind, kind_of, Envelope, is_valid, AccountLookup, active,
  missing, lookup_failed, handle, process_message, minimum_retry, Reading, reading, reading_failed,
  Permit, permitted, denied, before_telegram, as_flood_wait, telegram_error, fail_sync,
}

-- A job is acknowledged only when its envelope is valid, its account is active, its payload decodes,
-- and the handler of its kind has finished it without an error.
pub acknowledged_only_when_done :
    (decodes : Kind → List ℕ → Bool) (work : Kind → Envelope → Option Error)
    (account : AccountLookup) (m : Option Envelope)
    → process_message decodes work account m ≡ ack_success
    → (e : Envelope) × (k : Kind) × (m ≡ some e)
      × (is_valid e ≡ true)
      × (account ≡ active)
      × (kind_of e.kind ≡ some k)
      × (decodes k e.payload ≡ true)
      × (work k e ≡ none)
unfolding process_message handle disposition is_permanent
acknowledged_only_when_done decodes work account none h = absurd (cc)
acknowledged_only_when_done decodes work missing (some e) h = absurd (ground arith)
acknowledged_only_when_done decodes work lookup_failed (some e) h = absurd (ground arith)
acknowledged_only_when_done decodes work active (some e) h = elim (Option-cases (kind_of e.kind)) [
  | inl unknown ↦ absurd (ground arith)
  | inr (k, ek) ↦ elim (Option-cases (work k e)) [
    | inl finished ↦ (e, k, refl, ground arith, refl, ek, ground arith, finished)
    | inr (x, stopped) ↦ absurd (ground arith)
  ]
]

-- A job that is put back waits for a positive time.
pub retry_delay_positive : (e : Option Error) (d : ℕ) → disposition e ≡ ack_retry d → 0 < d
unfolding disposition retry_delay
retry_delay_positive none d h = absurd (cc)
retry_delay_positive (some e) d h = ground arith

at_least_second : ℕ → ℕ
at_least_second d = if ltb d second then second else d

disposition-retry_after :
    (d : ℕ) (e : Error)
    → is_permanent e ≡ false
    → (x : ℕ) × (disposition (some (retry_after d e)) ≡ ack_retry x) × (second ≤ x) × (d ≤ x)
unfolding disposition retry_after retry_delay is_permanent at_least_second
disposition-retry_after d e temporary =
    (at_least_second d, ground arith, ground arith, ground arith)

-- The cooldown that is left, as far as it could be read.
abbrev pub time_left : Reading ℕ → ℕ
time_left (reading c) = c
time_left reading_failed = 0

put_back :
    (persisted : Option SyncError) (e : Error) (low d : ℕ)
    → disposition (some e) ≡ ack_retry d
    → second ≤ d
    → low ≤ d
    → (x : ℕ) × (disposition (some (fail_sync persisted e)) ≡ ack_retry x)
      × (second ≤ x)
      × (persisted ≡ none → low ≤ x)
      × ((f : SyncError) → persisted ≡ some f → x ≡ generic_retry_delay)
unfolding fail_sync disposition is_permanent retry_delay
put_back none e low d answer least long = (d, answer, least, λ n. long, λ f n. absurd (cc))
put_back (some g) e low d answer least long =
    (generic_retry_delay, refl, omega arith, λ n. absurd (cc), λ f n. refl)

stopped_call :
    (cooldown : Reading ℕ) (account method : Reading Permit) (e : Error)
    → before_telegram cooldown account method ≡ some e
    → (d : ℕ) × (disposition (some e) ≡ ack_retry d) × (second ≤ d) × (time_left cooldown ≤ d)
unfolding before_telegram disposition retry_delay is_permanent minimum_retry
stopped_call reading_failed account method e h =
    (generic_retry_delay, ground arith, omega arith, omega arith)
stopped_call (reading zero) reading_failed method e h =
    (generic_retry_delay, ground arith, omega arith, omega arith)
stopped_call (reading zero) (reading permitted) reading_failed e h =
    (generic_retry_delay, ground arith, omega arith, omega arith)
stopped_call (reading zero) (reading permitted) (reading permitted) e h = absurd (cc)
stopped_call (reading zero) (reading permitted) (reading (denied d)) e h =
    let (x, answer, least, long) = disposition-retry_after (minimum_retry d) plain refl in
    (x, ap disposition (sym h) ∙ answer, least, omega (arith, long))
stopped_call (reading zero) (reading (denied d)) method e h =
    let (x, answer, least, long) = disposition-retry_after (minimum_retry d) plain refl in
    (x, ap disposition (sym h) ∙ answer, least, omega (arith, long))
stopped_call (reading (suc n)) account method e h =
    let (x, answer, least, long) = disposition-retry_after (suc n) plain refl in
    let made : before_telegram (reading (suc n)) account method ≡ some (retry_after (suc n) plain) =
      ground arith in
    (x, ap disposition (sym h ∙ made) ∙ answer, least, omega (arith, long))

-- A call to Telegram that the cooldown or a rate limit stops never terminates the job: it is put back,
-- for at least a second, and for at least the cooldown that is left. That is so where the handler
-- returns the error as it is and where it returns it through failSync and the failure is persisted;
-- where failSync cannot persist it, the job is put back for the generic 15 seconds.
pub stopped_call_retried :
    (persisted : Option SyncError) (cooldown : Reading ℕ) (account method : Reading Permit)
    (e : Error)
    → before_telegram cooldown account method ≡ some e
    → (d : ℕ) × (disposition (some (fail_sync persisted e)) ≡ ack_retry d)
      × (second ≤ d)
      × (persisted ≡ none → time_left cooldown ≤ d)
      × ((f : SyncError) → persisted ≡ some f → d ≡ generic_retry_delay)
stopped_call_retried persisted cooldown account method e h =
    let (d, answer, least, long) = stopped_call cooldown account method e h in
    put_back persisted e (time_left cooldown) d answer least long

-- A FLOOD_WAIT answer that is not permanent puts the job back for at least the time that Telegram asks
-- for, where the stored cooldown is at most a millisecond shorter than the requested one. That is so
-- where the handler returns the error as it is and where it returns it through failSync and the
-- failure is persisted; where failSync cannot persist it, the job is put back for the generic 15
-- seconds.
pub flood_wait_respected :
    (persisted : Option SyncError) (set_cooldown : ℕ → Option ℕ) (e : Error) (wait stored : ℕ)
    → as_flood_wait e ≡ some wait
    → set_cooldown (wait + second) ≡ some stored
    → wait + second ≤ stored + 1000000
    → is_permanent e ≡ false
    → (d : ℕ) × (disposition (some (fail_sync persisted (telegram_error set_cooldown e)))
        ≡ ack_retry d)
      × (persisted ≡ none → wait ≤ d)
      × ((f : SyncError) → persisted ≡ some f → d ≡ generic_retry_delay)
unfolding telegram_error
flood_wait_respected persisted set_cooldown e wait stored fl st close temporary =
    let (x, answer, least, long) = disposition-retry_after stored e temporary in
    let made : telegram_error set_cooldown e ≡ retry_after stored e = ground arith in
    let (d, back, _, kept, lost) =
      put_back persisted (telegram_error set_cooldown e) wait x
        (ap (λ a. disposition (some a)) made ∙ answer) least (omega arith) in
    (d, back, kept, lost)
