-- ===== src/RateLimit/Bucket.antt =====
-- app/core/rate_limit.py: the Lua script on one bucket and `check_rate_limit`. The floats of the
-- source are fractions here. Times are microseconds, a refill rate is in thousandths of a token a
-- second, and a bucket counts billionths of a token, so that a rate times a time is an amount of
-- tokens and nothing is rounded. Redis forgets a key at its expiry.
use iotaps.Common.{
  ℕ, ◌+◌, ◌-◌, ◌*◌, ◌/◌, min, max, Bool, true, false, Option, none, some, leb, ltb, ◌==◌,
  if◌then◌else◌,
}
use iotaps.Common.Text.{Text}
use iotaps.Common.TextStore.{TextStore, put_text}

-- A token, in billionths.
abbrev pub token : ℕ
token = 1000000000

-- A second, in microseconds.
abbrev pub second : ℕ
second = 1000000

pub record RateLimitPolicy : Type 0 where
  pub capacity : ℕ
  pub refill_rate : ℕ

unfoldable pub ttl_seconds : RateLimitPolicy → ℕ
ttl_seconds p = if p.refill_rate == 0 then 60 else max 60 (p.capacity * 1000 / p.refill_rate + 60)

-- The two fields of the hash, and the time at which Redis drops the key.
pub record Bucket : Type 0 where
  pub tokens : ℕ
  pub ts : ℕ
  pub expires : ℕ

-- The hint of the script: a number of microseconds as a fraction, -1, or 0.
pub data RetryAfter : Type 0 where
  at_once never : RetryAfter
  wait : (deficit rate : ℕ) → RetryAfter

pub record RateLimitResult : Type 0 where
  pub allowed : Bool
  pub remaining : ℕ
  pub retry_after : RetryAfter

-- `max(1, int(self.retry_after + 0.999))`, and 1 for what is not positive.
unfoldable pub retry_after_seconds : RateLimitResult → ℕ
retry_after_seconds r = elim r.retry_after [
  | at_once ↦ 1
  | never ↦ 1
  | wait deficit rate ↦ max 1 ((deficit + 999000 * rate) / (1000000 * rate))
]

-- `HMGET`, on the clock of Redis, with the defaults for a bucket that is not there.
unfoldable pub stored : ℕ → RateLimitPolicy → ℕ → Option Bucket → Bucket
stored clock p now none = record { tokens = p.capacity * token; ts = now; expires = 0 }
stored clock p now (some b) =
    if ltb clock b.expires then b else record { tokens = p.capacity * token; ts = now; expires = 0 }

-- The tokens after the refill; a time before that of the last check counts as that time.
unfoldable pub refill : RateLimitPolicy → ℕ → Bucket → ℕ
refill p now b = min (p.capacity * token) (b.tokens + (now - b.ts) * p.refill_rate)

-- The script's test and what it leaves in the bucket.
unfoldable pub decide : RateLimitPolicy → ℕ → ℕ → RateLimitResult × ℕ
decide p requested tokens =
    if leb (requested * token) tokens
    then (
      record {
        allowed = true;
        remaining = (tokens - requested * token) / token;
        retry_after = at_once;
      },
      tokens - requested * token,
    )
    else (
      record {
        allowed = false;
        remaining = tokens / token;
        retry_after =
            if p.refill_rate == 0 then never else wait (requested * token - tokens) p.refill_rate;
      },
      tokens,
    )

unfoldable pub script : ℕ → RateLimitPolicy → ℕ → ℕ → Option Bucket → RateLimitResult × Bucket
unfolding ttl_seconds stored refill decide
script clock p now requested b =
    let (result, tokens) = decide p requested (refill p now (stored clock p now b)) in
    (result, record { tokens = tokens; ts = now; expires = clock + ttl_seconds p * second })

-- What the caller is told when Redis is not there or the script fails.
abbrev pub fail_open : RateLimitPolicy → RateLimitResult
fail_open p = record { allowed = true; remaining = p.capacity; retry_after = at_once }

-- `available` says that there is a client and that `eval` does not raise.
unfoldable pub check_rate_limit :
    (available : Bool) (clock : ℕ) (key : Text) (p : RateLimitPolicy) (cost now : ℕ)
    → TextStore Bucket
    → RateLimitResult × TextStore Bucket
check_rate_limit available clock key p cost now buckets =
    let (result, b) = script clock p now cost (buckets key) in
    if available then (result, put_text key b buckets) else (fail_open p, buckets)
