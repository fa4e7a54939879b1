-- ===== src/Ratelimit.antt =====
-- internal/ratelimit/limiter.go: the token bucket and the account cooldown, which Redis runs as scripts.
-- Tokens and the refill rate are counted in units of 1/scale of a token, the clock in whole ticks: the
-- floating-point rounding of the scripts is not modelled. An expired key is the state of a key that was
-- never set.
pub mod Bounds
use telegram_gateway.Base.{
  ℕ, String, Bool, true, false, Option, none, some, ◌||◌, ◌==◌, ◌+◌, ◌-◌, ◌*◌, ◌/◌, leb, ltb, min,
  max, is_empty, trim_space, if◌then◌else◌,
}

pub record Limit : Type 0 where
  pub capacity : ℕ
  pub refill : ℕ
  pub cost : ℕ

pub record Bucket : Type 0 where
  pub tokens : ℕ
  pub last : ℕ

pub record Result : Type 0 where
  pub allowed : Bool
  pub remaining : ℕ
  pub retry_after : ℕ

-- The tokens at `now`; `none` is a bucket that is not there. The subtraction of ℕ is math.max(0, …).
unfoldable pub refilled : Limit → ℕ → Option Bucket → ℕ
refilled l now none = min l.capacity l.capacity
refilled l now (some b) = min l.capacity (b.tokens + (now - b.last) * l.refill)

-- (a + b - 1) / b, the least whole number of ticks
abbrev pub ceiling : ℕ → ℕ → ℕ
ceiling a b = (a + (b - 1)) / b

-- tokenBucketScript
unfoldable pub take_tokens : Limit → ℕ → Option Bucket → Result × Bucket
take_tokens l now b =
    let tokens = refilled l now b in
    if leb l.cost tokens
    then (
      record { allowed = true; remaining = tokens - l.cost; retry_after = 0 },
      record { tokens = tokens - l.cost; last = now },
    )
    else (
      record {
        allowed = false;
        remaining = tokens;
        retry_after = ceiling (l.cost - tokens) l.refill;
      },
      record { tokens = tokens; last = now },
    )

abbrev with_cost : ℕ → Limit → Limit
with_cost unit l = record l { cost = if l.cost == 0 then unit else l.cost }

-- `Allow`, `unit` being one token; `none` is an error, which leaves the bucket alone.
unfoldable pub allow : ℕ → String → Limit → ℕ → Option Bucket → Option Result × Option Bucket
allow unit key l now b =
    let limit = with_cost unit l in
    let run = take_tokens limit now b in
    if is_empty (trim_space key)
      || (l.capacity == 0 || (l.refill == 0 || ltb l.capacity limit.cost))
    then (none, b)
    else (some run.0, some run.1)

-- cooldownScript; a cooldown is the instant (in milliseconds) at which its key expires
unfoldable pub remaining_ms : ℕ → Option ℕ → ℕ
remaining_ms now none = 0
remaining_ms now (some until) = until - now

unfoldable pub run_cooldown : ℕ → ℕ → Option ℕ → ℕ × Option ℕ
run_cooldown now requested current =
    if ltb requested (remaining_ms now current)
    then (remaining_ms now current, current)
    else (requested, some (now + requested))

-- `SetAccountCooldown` for a duration in nanoseconds; the answer is in nanoseconds too.
unfoldable pub set_account_cooldown : ℕ → String → ℕ → Option ℕ → Option ℕ × Option ℕ
set_account_cooldown now account duration current =
    let ms = max 1 (duration / 1000000) in
    let run = run_cooldown now ms current in
    if is_empty (trim_space account) || duration == 0
    then (none, current)
    else (some (run.0 * 1000000), run.1)
