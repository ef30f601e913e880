-- ===== src/RateLimit/Window.antt =====
-- What a bucket of app/core/rate_limit.py admits over a run of requests, whatever Redis forgets.
use iotaps.Common.{
  ℕ, ◌+◌, ◌-◌, ◌*◌, ◌≤◌, ◌<◌, ◌≡◌, sym, ap, ◌∙◌, Option, some, List, [], ◌∷◌, arith, if◌then◌else◌,
}
use iotaps.RateLimit.Bucket.{token, RateLimitPolicy, Bucket, stored, refill, decide, script}
use iotaps.RateLimit.Expiry.{IsKept, script-IsKept, forgotten_refill}
use native.Mathlib.Nat.{add-mul, mul-le-mul_right}

-- A request: its time, on the clock of Redis and of the caller, and its cost.
pub record Arrival : Type 0 where
  pub at : ℕ
  pub cost : ℕ

-- The tokens that the admitted ones of a list of requests take.
unfoldable pub admitted : RateLimitPolicy → List Arrival → Option Bucket → ℕ
admitted p [] b = 0
admitted p (a ∷ rest) b =
    let (result, b') = script a.at p a.at a.cost b in
    (if result.allowed then a.cost else 0) + admitted p rest (some b')

-- The times do not fall, from `now` to `last`.
abbrev pub Within : ℕ → ℕ → List Arrival → Type 0
Within now last [] = now ≤ last
Within now last (a ∷ rest) = (now ≤ a.at) × Within a.at last rest

-- One check takes what it admits from the tokens.
decide_takes :
    (p : RateLimitPolicy) (cost tokens : ℕ)
    → (if (decide p cost tokens).0.allowed then cost else 0) * token + (decide p cost tokens).1
      ≡ tokens
unfolding decide
decide_takes p cost tokens = ground arith

refill_most :
    (p : RateLimitPolicy) (now : ℕ) (b : Bucket)
    → refill p now b ≤ b.tokens + (now - b.ts) * p.refill_rate
unfolding refill
refill_most p now b = omega arith

split_time : (a b c r : ℕ) → a ≤ b → b ≤ c → (b - a) * r + (c - b) * r ≡ (c - a) * r
split_time a b c r h k = sym (add-mul (b - a) (c - b) r) ∙ ap (λ (t : ℕ). t * r) (omega arith)

Within-last : (now last : ℕ) (l : List Arrival) → Within now last l → now ≤ last
Within-last now last [] h = h
Within-last now last (a ∷ l) (h, k) = let ih = Within-last a.at last l k in omega arith

-- The bound on what follows a check that left `b`.
kept_run :
    (p : RateLimitPolicy) (last : ℕ) (l : List Arrival) (b : Bucket)
    → 0 < p.refill_rate
    → IsKept p b
    → Within b.ts last l
    → admitted p l (some b) * token ≤ b.tokens + (last - b.ts) * p.refill_rate
unfolding admitted script
kept_run p last [] b h kept within = omega arith
kept_run p last (a ∷ l) b h kept (now, within) =
    let tokens : ℕ = refill p a.at (stored a.at p a.at (some b)) in
    let b' = (script a.at p a.at a.cost (some b)).1 in
    let forgotten = forgotten_refill p a.at b h kept in
    let takes = decide_takes p a.cost tokens in
    let ih = kept_run p last l b' h (script-IsKept p a.at a.cost (some b)) within in
    let time = split_time b.ts a.at last p.refill_rate now (Within-last a.at last l within) in
    let most = refill_most p a.at b in omega arith

late : (first at last : ℕ) → first ≤ at → last - at ≤ last - first
late first at last h = omega arith

fresh_most :
    (clock : ℕ) (p : RateLimitPolicy) (now : ℕ) (b : Option Bucket)
    → refill p now (stored clock p now b) ≤ p.capacity * token
unfolding refill
fresh_most clock p now b = omega arith

-- Of a policy that refills, whatever the bucket held and whenever Redis dropped it, the requests
-- between two times are admitted for no more tokens than the capacity and what is refilled between
-- these times, when Redis and the callers read one clock.
pub window_bound :
    (p : RateLimitPolicy) (first last : ℕ) (l : List Arrival) (b : Option Bucket)
    → 0 < p.refill_rate
    → Within first last l
    → admitted p l b * token ≤ p.capacity * token + (last - first) * p.refill_rate
unfolding admitted script
window_bound p first last [] b h within = omega arith
window_bound p first last (a ∷ l) b h (start, within) =
    let tokens : ℕ = refill p a.at (stored a.at p a.at b) in
    let b' = (script a.at p a.at a.cost b).1 in
    let takes = decide_takes p a.cost tokens in
    let ih = kept_run p last l b' h (script-IsKept p a.at a.cost b) within in
    let most = fresh_most a.at p a.at b in
    let time = mul-le-mul_right p.refill_rate (late first a.at last start) in omega arith
