-- ===== src/RateLimit/Tests.antt =====
-- Rate limits at concrete policies and requests.
use iotaps.Common.{
  ℕ, ◌+◌, ◌*◌, ◌-◌, ◌≤◌, ◌≡◌, ◌↔◌, refl, true, false, none, some, List, [], ◌∷◌, arith,
}
use iotaps.Common.Text.{Text, codes, strip}
use iotaps.Common.TextStore.{TextStore}
use iotaps.Common.Exec.{Result, ok}
use iotaps.Auth.Jwt.{
  Payload, JwtError, typed, claims_of, has_type, access_claims, decode_access_token,
}
use iotaps.Auth.Principal.{starts_with, after_space, bearer_token}
use iotaps.RateLimit.Bucket.{
  token, RateLimitPolicy, Bucket, wait, retry_after_seconds, ttl_seconds, stored, refill, decide,
  script,
}
use iotaps.RateLimit.Retry.{retry_succeeds}
use iotaps.RateLimit.Window.{Arrival, admitted, window_bound}
use iotaps.RateLimit.Expiry.{expiry_harmless}
use iotaps.RateLimit.Skew.{answers, in_turn, skew_unlimited}
use iotaps.RateLimit.Middleware.{
  rate_limit_org_key, Request, client_ip, before_comma, non_empty, passed_on, is_exempt, Moment,
  Limits, org_of, bearer_org_id, dispatch,
}
use iotaps.RateLimit.Requests.{passes_exactly, own_org_only}

-- Two tokens, and one more each second.
abbrev slow : RateLimitPolicy
slow = record { capacity = 2; refill_rate = 1000 }

abbrev drained : Bucket
drained = record { tokens = 400000000; ts = 5000000; expires = 70000000 }

-- Half a second after the bucket had four tenths of a token.
hint_of_drained :
    let r = (script 5500000 slow 5500000 1 (some drained)).0 in
    (r.allowed ≡ false) × (r.retry_after ≡ wait 100000000 1000) × (retry_after_seconds r ≡ 1)
unfolding script stored refill decide ttl_seconds retry_after_seconds
hint_of_drained = (refl, refl, refl)

retry_succeeds_example :
    (script 7000000 slow 7000000 1
      (some (script 5500000 slow 5500000 1 (some drained)).1)).0.allowed
    ≡ true
unfolding script stored refill decide ttl_seconds retry_after_seconds
retry_succeeds_example =
    retry_succeeds slow 1 5500000 5500000 7000000 7000000 (some drained) (omega arith) (omega arith)
      refl (omega arith)

-- Four requests in a second and a half.
abbrev burst : List Arrival
burst =
    (record { at = 1000000; cost = 1 })
    ∷ ((record { at = 1000000; cost = 1 })
        ∷ ((record { at = 1200000; cost = 1 }) ∷ ((record { at = 2500000; cost = 1 }) ∷ [])))

burst-admitted : admitted slow burst none ≡ 3
unfolding admitted script stored refill decide ttl_seconds
burst-admitted = refl

window_bound_example :
    admitted slow burst none * token
    ≤ slow.capacity * token + (2500000 - 1000000) * slow.refill_rate
window_bound_example = window_bound slow 1000000 2500000 burst none (omega arith) (omega arith)

expiry_harmless_example :
    let b' = (script 0 slow 0 2 none).1 in
    (script 90000000 slow 90000000 1 (some b')).0 ≡ (decide slow 1 (refill slow 90000000 b')).0
expiry_harmless_example = expiry_harmless slow 0 90000000 2 1 none (omega arith)

skew_unlimited_example :
    answers 9 slow (in_turn 5000000 2000000 3) none ≡ true ∷ true ∷ true ∷ true ∷ true ∷ true ∷ []
skew_unlimited_example = skew_unlimited 3 9 slow 5000000 2000000 (omega arith) (omega arith)

abbrev limits : Limits
limits = record { ip_policy = slow; org_policy = slow; exempt_paths = codes "/api/v1/health" ∷ [] }

abbrev moment : Moment
moment = record { available = true; clock = 1; now = 1 }

-- Every token is a valid one of the organization "acme".
abbrev reads : ℕ → Text → Result JwtError Payload
reads now t = ok (record {
  sub = codes "u";
  org_id = some (codes "acme");
  role = some (codes "device_user");
  email = none;
  iat = 0;
  exp = 9;
  jti = some (codes "j");
  typ = some (codes "access");
})

abbrev writes : Payload → Text
writes p = codes "t"

abbrev request : Request
request = record {
  path = codes "/api/v1/devices";
  forwarded_for = some (codes "10.0.0.1, 10.9.9.9");
  client_host = none;
  authorization = some (codes "Bearer t");
}

abbrev no_buckets : TextStore Bucket
no_buckets key = none

first_hop_counts : client_ip request ≡ codes "10.0.0.1"
unfolding client_ip non_empty before_comma strip
first_hop_counts = refl

passes_exactly_example :
    ((dispatch writes reads limits moment moment 1 request no_buckets).0 ≡ passed_on)
    ↔ (((script 1 slow 1 1 none).0.allowed ≡ true) × ((script 1 slow 1 1 none).0.allowed ≡ true))
unfolding bearer_org_id bearer_token starts_with after_space strip decode_access_token claims_of
    typed has_type access_claims org_of non_empty is_exempt
passes_exactly_example =
    passes_exactly writes reads limits moment moment 1 request no_buckets (codes "acme") refl refl
      refl refl

own_org_only_example :
    (dispatch writes reads limits moment moment 1 request no_buckets).1
      (rate_limit_org_key (codes "rival"))
    ≡ none
unfolding bearer_org_id bearer_token starts_with after_space strip decode_access_token claims_of
    typed has_type access_claims org_of non_empty
own_org_only_example =
    own_org_only writes reads limits moment moment 1 request no_buckets (codes "acme")
      (codes "rival") refl refl
