-- ===== src/Ratelimit/Bounds.antt =====
-- internal/ratelimit/limiter.go: what a bucket lets through, and how long a cooldown lasts.
use telegram_gateway.Base.{
  ℕ, zero, suc, String, Option, none, some, List, [], ◌∷◌, ◌+◌, ◌-◌, ◌*◌, ◌/◌, ◌≤◌, leb, leb→le,
  ◌≡◌, arith, if◌then◌else◌, Bool-cases, inl, inr,
}
use telegram_gateway.Ratelimit.{
  Limit, Bucket, refilled, take_tokens, run_cooldown, remaining_ms, set_account_cooldown,
}

-- Requests at the given ticks, one after another on one bucket: how many were let through.
unfoldable pub granted : Limit → Option Bucket → List ℕ → ℕ
granted l b [] = 0
granted l b (now ∷ later) =
    let run = take_tokens l now b in
    let rest = granted l (some run.1) later in if run.0.allowed then rest + 1 else rest

-- The tick of the last request, and that the ticks do not go back.
unfoldable pub last_tick : ℕ → List ℕ → ℕ
last_tick start [] = start
last_tick start (now ∷ later) = last_tick now later

unfoldable pub Ascending : ℕ → List ℕ → Type 0
Ascending start [] = Unit
Ascending start (now ∷ later) = (start ≤ now) × Ascending now later

last_tick_le : (start : ℕ) (ticks : List ℕ) → Ascending start ticks → start ≤ last_tick start ticks
unfolding last_tick Ascending
last_tick_le start [] a = omega arith
last_tick_le start (now ∷ later) a = ground (arith, last_tick_le now later a.1, a.0)

ticks_split : (a b c r : ℕ) → a ≤ b → b ≤ c → (b - a) * r + (c - b) * r ≡ (c - a) * r
ticks_split a b c zero p q = omega arith
ticks_split a b c (suc r) p q = ground (arith, ticks_split a b c r p q)

refilled_le :
    (l : Limit) (now : ℕ) (b : Bucket)
    → refilled l now (some b) ≤ b.tokens + (now - b.last) * l.refill
unfolding refilled
refilled_le l now b = omega arith

taken_bound :
    (n tokens held cost in₁ in₂ in₃ : ℕ)
    → in₁ + in₂ ≡ in₃
    → tokens ≤ held + in₁
    → cost ≤ tokens
    → n * cost ≤ (tokens - cost) + in₂
    → (n + 1) * cost ≤ held + in₃
taken_bound n tokens held cost in₁ in₂ in₃ s t c r = ground arith

-- A bucket that is there lets through at most what it holds and what flows in up to the last request.
granted-from :
    (l : Limit) (b : Bucket) (ticks : List ℕ)
    → Ascending b.last ticks
    → granted l (some b) ticks * l.cost ≤ b.tokens + (last_tick b.last ticks - b.last) * l.refill
unfolding granted last_tick Ascending take_tokens
granted-from l b [] a = ground arith
granted-from l b (now ∷ later) a =
    let split =
      ticks_split b.last now (last_tick now later) l.refill a.0 (last_tick_le now later a.1) in
    elim (Bool-cases (leb l.cost (refilled l now (some b)))) [
      | inl enough ↦
          let rest =
            granted-from l (record { tokens = refilled l now (some b) - l.cost; last = now }) later
              a.1 in
          rw enough (
            taken_bound
              (granted l (some (record { tokens = refilled l now (some b) - l.cost; last = now }))
                later)
              (refilled l now (some b)) b.tokens l.cost _ _ _ split (refilled_le l now b)
              (leb→le _ _ enough) rest)
      | inr short ↦
          let rest =
            granted-from l (record { tokens = refilled l now (some b); last = now }) later a.1 in
          rw short (ground (arith, split, refilled_le l now b, rest))
    ]

fresh_le : (l : Limit) (now : ℕ) → refilled l now none ≤ l.capacity + 0
unfolding refilled
fresh_le l now = omega arith

-- Requests on a new bucket, the first of them at `first` and the others in order of time: what is let
-- through costs at most the capacity and what flows in until the last of them.
pub bucket_bound :
    (l : Limit) (first : ℕ) (later : List ℕ)
    → Ascending first later
    → granted l none (first ∷ later) * l.cost
      ≤ l.capacity + (last_tick first later - first) * l.refill
unfolding granted take_tokens
bucket_bound l first later a = elim (Bool-cases (leb l.cost (refilled l first none))) [
  | inl enough ↦
      let b : Bucket = record { tokens = refilled l first none - l.cost; last = first } in
      rw enough (
        taken_bound (granted l (some b) later) (refilled l first none) l.capacity l.cost 0 _ _
          (omega arith) (fresh_le l first) (leb→le _ _ enough) (granted-from l b later a))
  | inr short ↦
      let b : Bucket = record { tokens = refilled l first none; last = first } in
      let rest = granted-from l b later a in rw short (ground (arith, fresh_le l first, rest))
]

-- Setting a cooldown never shortens the one that runs, and leaves at least the requested whole
-- milliseconds; the answer is the time that is left then.
pub cooldown_never_shorter :
    (now : ℕ) (account : String) (duration : ℕ) (current next : Option ℕ) (answer : ℕ)
    → set_account_cooldown now account duration current ≡ (some answer, next)
    → (remaining_ms now current ≤ remaining_ms now next)
      × (duration / 1000000 ≤ remaining_ms now next)
      × (1 ≤ remaining_ms now next)
      × (answer ≡ remaining_ms now next * 1000000)
unfolding set_account_cooldown run_cooldown remaining_ms
cooldown_never_shorter now account duration none next answer h =
    (ground arith, ground arith, ground arith, ground arith)
cooldown_never_shorter now account duration (some until) next answer h =
    (ground arith, ground arith, ground arith, ground arith)
