-- ===== src/RateLimit/Retry.antt =====
-- The hint that a refused caller of app/core/rate_limit.py gets.
use iotaps.Common.{
  ℕ, ◌%◌, ◌+◌, ◌-◌, ◌*◌, ◌/◌, ◌≤◌, ◌<◌, max, ◌≡◌, true, false, Option, some, arith, inl, inr,
  Bool-cases, ltb,
}
use iotaps.RateLimit.Bucket.{
  token, second, RateLimitPolicy, Bucket, RateLimitResult, retry_after_seconds, stored, refill,
  decide, script,
}
use native.Mathlib.Omega.{div_any}
use native.Mathlib.Nat.{mod-lt, le_trans, mul-le-mul_right}

-- The rounding of the hint falls short by less than a millisecond.
rounded :
    (deficit rate : ℕ)
    → 0 < rate
    → deficit ≤ (max 1 ((deficit + 999000 * rate) / (1000000 * rate)) * second + 1000) * rate
rounded deficit rate h =
    let q : ℕ = (deficit + 999000 * rate) / (1000000 * rate) in
    let e : 1000000 * rate * q + (deficit + 999000 * rate) % (1000000 * rate)
        ≡ deficit + 999000 * rate =
      div_any (deficit + 999000 * rate) (1000000 * rate) in
    let l = mod-lt (deficit + 999000 * rate) {m = 1000000 * rate} (omega arith) in
    let bound : deficit ≤ (q * second + 1000) * rate = omega arith in
    le_trans bound (mul-le-mul_right rate (omega arith))

-- The time at which a caller that heeds the hint comes back: the seconds of the header and a
-- millisecond for its rounding.
abbrev pub retry_time : ℕ → RateLimitResult → ℕ
retry_time now r = now + (retry_after_seconds r * second + 1000)

le_sub : (now seconds now' : ℕ) → now + seconds ≤ now' → seconds ≤ now' - now
le_sub now seconds now' h = omega arith

hint :
    (p : RateLimitPolicy) (cost tokens now now' : ℕ)
    → 0 < p.refill_rate
    → (decide p cost tokens).0.allowed ≡ false
    → retry_time now (decide p cost tokens).0 ≤ now'
    → cost * token ≤ (decide p cost tokens).1 + (now' - now) * p.refill_rate
unfolding decide retry_after_seconds
hint p cost tokens now now' h refused later =
    let r = rounded (cost * token - tokens) p.refill_rate h in
    let m = mul-le-mul_right p.refill_rate (le_sub now _ now' later) in ground (arith, r, m)

decide_enough :
    (p : RateLimitPolicy) (cost tokens : ℕ)
    → cost * token ≤ tokens
    → (decide p cost tokens).0.allowed ≡ true
unfolding decide
decide_enough p cost tokens h = ground arith

-- The tokens that a bucket offers at a time, whether Redis still has it or not, are enough once the
-- deficit is refilled.
offers :
    (clock : ℕ) (p : RateLimitPolicy) (cost now : ℕ) (b : Bucket)
    → cost ≤ p.capacity
    → cost * token ≤ b.tokens + (now - b.ts) * p.refill_rate
    → cost * token ≤ refill p now (stored clock p now (some b))
unfolding refill stored
offers clock p cost now b h enough = elim (Bool-cases (ltb clock b.expires)) [
  | inl live ↦ rw live (ground arith)
  | inr gone ↦ rw gone (ground arith)
]

-- Of a policy that refills, a caller that is refused a cost within the capacity is admitted at any
-- time from the hint's on, a millisecond added, if the bucket is not used in between. Redis may
-- have dropped the bucket by then or not.
pub retry_succeeds :
    (p : RateLimitPolicy) (cost clock now clock' now' : ℕ) (b : Option Bucket)
    → 0 < p.refill_rate
    → cost ≤ p.capacity
    → (script clock p now cost b).0.allowed ≡ false
    → retry_time now (script clock p now cost b).0 ≤ now'
    → (script clock' p now' cost (some (script clock p now cost b).1)).0.allowed ≡ true
unfolding script
retry_succeeds p cost clock now clock' now' b h fits refused later =
    let tokens = refill p now (stored clock p now b) in
    let left = (decide p cost tokens).1 in
    let enough : cost * token ≤ left + (now' - now) * p.refill_rate =
      hint p cost tokens now now' h refused later in
    decide_enough p cost _ (offers clock' p cost now' _ fits enough)
