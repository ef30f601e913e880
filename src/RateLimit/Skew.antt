-- ===== src/RateLimit/Skew.antt =====
-- Callers of app/core/rate_limit.py whose clocks differ: each passes its own `time.time()`.
use iotaps.Common.{
  ℕ, zero, suc, ◌+◌, ◌*◌, ◌≤◌, ◌≡◌, refl, Bool, true, Option, none, some, arith, List, [], ◌∷◌,
}
use iotaps.RateLimit.Bucket.{
  token, RateLimitPolicy, Bucket, ttl_seconds, stored, refill, decide, script,
}

-- The answers to requests for one token, made at one moment, that carry these times.
unfoldable pub answers : ℕ → RateLimitPolicy → List ℕ → Option Bucket → List Bool
answers clock p [] b = []
answers clock p (now ∷ rest) b =
    let (result, b') = script clock p now 1 b in result.allowed ∷ answers clock p rest (some b')

-- Two callers in turn, one of them `skew` ahead of the other.
abbrev pub in_turn : ℕ → ℕ → ℕ → List ℕ
in_turn now skew zero = []
in_turn now skew (suc n) = (now + skew) ∷ (now ∷ in_turn now skew n)

abbrev pub all_admitted : ℕ → List Bool
all_admitted zero = []
all_admitted (suc n) = true ∷ (true ∷ all_admitted n)

twice :
    (clock : ℕ) (p : RateLimitPolicy) (now skew : ℕ) (b : Bucket)
    → 2 ≤ p.capacity
    → 2 * token ≤ skew * p.refill_rate
    → b.ts ≡ now
    → ((script clock p (now + skew) 1 (some b)).0.allowed ≡ true)
      × ((script clock p now 1 (some (script clock p (now + skew) 1 (some b)).1)).0.allowed ≡ true)
unfolding script stored refill decide ttl_seconds
twice clock p now skew b fits fast at = (ground arith, ground arith)

twice_fresh :
    (clock : ℕ) (p : RateLimitPolicy) (now skew : ℕ)
    → 2 ≤ p.capacity
    → ((script clock p (now + skew) 1 none).0.allowed ≡ true)
      × ((script clock p now 1 (some (script clock p (now + skew) 1 none).1)).0.allowed ≡ true)
unfolding script stored refill decide ttl_seconds
twice_fresh clock p now skew fits = (ground arith, ground arith)

in_turn_after :
    (n clock : ℕ) (p : RateLimitPolicy) (now skew : ℕ) (b : Bucket)
    → 2 ≤ p.capacity
    → 2 * token ≤ skew * p.refill_rate
    → b.ts ≡ now
    → answers clock p (in_turn now skew n) (some b) ≡ all_admitted n
unfolding answers
in_turn_after zero clock p now skew b fits fast at = refl
in_turn_after (suc n) clock p now skew b fits fast at =
    let (one, two) = twice clock p now skew b fits fast at in
    let b' = (script clock p now 1 (some (script clock p (now + skew) 1 (some b)).1)).1 in
    let left : b'.ts ≡ now = (unfold script in refl) in
    rw (one, two, in_turn_after n clock p now skew b' fits fast left) refl

-- Of a policy with a capacity of at least two tokens, whose bucket is not stored at first, two callers
-- that take turns at one moment, with clocks that differ by the time in which two tokens are refilled,
-- are both admitted however often they ask for one token.
pub skew_unlimited :
    (n clock : ℕ) (p : RateLimitPolicy) (now skew : ℕ)
    → 2 ≤ p.capacity
    → 2 * token ≤ skew * p.refill_rate
    → answers clock p (in_turn now skew n) none ≡ all_admitted n
unfolding answers
skew_unlimited zero clock p now skew fits fast = refl
skew_unlimited (suc n) clock p now skew fits fast =
    let (one, two) = twice_fresh clock p now skew fits in
    let b' = (script clock p now 1 (some (script clock p (now + skew) 1 none).1)).1 in
    let left : b'.ts ≡ now = (unfold script in refl) in
    rw (one, two, in_turn_after n clock p now skew b' fits fast left) refl
