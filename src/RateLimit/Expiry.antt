-- ===== src/RateLimit/Expiry.antt =====
-- The expiry of a bucket of app/core/rate_limit.py against one that is kept for ever.
use iotaps.Common.{
  ℕ, ◌+◌, ◌-◌, ◌*◌, ◌/◌, ◌%◌, ◌≤◌, ◌<◌, ◌≡◌, refl, ap, Option, some, arith, inl, inr, Bool-cases,
  ltb,
}
use iotaps.RateLimit.Bucket.{
  token, second, RateLimitPolicy, Bucket, ttl_seconds, stored, refill, decide, script,
}
use native.Mathlib.Nat.{mod-lt, le_trans, mul-le-mul_right}
use native.Mathlib.Omega.{div_any}

ttl_refills :
    (p : RateLimitPolicy) (ts now : ℕ)
    → 0 < p.refill_rate
    → ts + ttl_seconds p * second ≤ now
    → p.capacity * token ≤ (now - ts) * p.refill_rate
unfolding ttl_seconds
ttl_refills p ts now h later =
    let q : ℕ = p.capacity * 1000 / p.refill_rate in
    let e : p.refill_rate * q + p.capacity * 1000 % p.refill_rate ≡ p.capacity * 1000 =
      div_any (p.capacity * 1000) p.refill_rate in
    let l = mod-lt (p.capacity * 1000) {m = p.refill_rate} h in
    let long : (q + 60) * second ≤ now - ts = ground arith in
    let bound : p.capacity * token ≤ (q + 60) * second * p.refill_rate = omega arith in
    le_trans bound (mul-le-mul_right p.refill_rate long)

-- Redis keeps the bucket for the time to live from its last use on.
abbrev pub IsKept : RateLimitPolicy → Bucket → Type 0
IsKept p b = b.expires ≡ b.ts + ttl_seconds p * second

pub script-IsKept :
    (p : RateLimitPolicy) (now cost : ℕ) (b : Option Bucket) → IsKept p (script now p now cost b).1
unfolding script
script-IsKept p now cost b = refl

pub forgotten_refill :
    (p : RateLimitPolicy) (now : ℕ) (b : Bucket)
    → 0 < p.refill_rate
    → IsKept p b
    → refill p now (stored now p now (some b)) ≡ refill p now b
unfolding refill stored
forgotten_refill p now b h kept = elim (Bool-cases (ltb now b.expires)) [
  | inl live ↦ rw live refl
  | inr gone ↦ let full = ttl_refills p b.ts now h (ground arith) in rw gone (ground (arith, full))
]

-- Of a policy that refills, dropping an idle bucket changes no answer: whatever the time of the next
-- check, its result is that of a bucket that was never dropped, when Redis and the callers read one
-- clock.
pub expiry_harmless :
    (p : RateLimitPolicy) (ts now spent cost : ℕ) (b : Option Bucket)
    → 0 < p.refill_rate
    → let b' = (script ts p ts spent b).1 in
      (script now p now cost (some b')).0 ≡ (decide p cost (refill p now b')).0
unfolding script
expiry_harmless p ts now spent cost b h =
    ap (λ (tokens : ℕ). (decide p cost tokens).0)
      (forgotten_refill p now (script ts p ts spent b).1 h (script-IsKept p ts spent b))
