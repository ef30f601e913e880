-- ===== src/RateLimit/Middleware.antt =====
-- app/core/security/rate_limit_middleware.py, with the keys of app/core/redis_keys.py. PyJWT is a
-- parameter as in Auth/Jwt.
use iotaps.Common.{
  ℕ, Bool, false, ◌||◌, Option, none, some, List, [], ◌∷◌, ◌++◌, if◌then◌else◌, ◌==◌,
}
use iotaps.Common.Exec.{Result, ok, err}
use iotaps.Common.Text.{Text, codes, same_codes, strip}
use iotaps.Common.TextStore.{TextStore}
use iotaps.Auth.Jwt.{Payload, JwtError, TokenError, AccessClaims, decode_access_token}
use iotaps.Auth.Principal.{starts_with, bearer_token}
use iotaps.RateLimit.Bucket.{RateLimitPolicy, Bucket, retry_after_seconds, check_rate_limit}

-- `_key("ratelimit", axis, name)`
unfoldable pub rate_limit_key : Text → Text → Text
rate_limit_key axis name = codes "iotaps:ratelimit:" ++ (axis ++ (codes ":" ++ name))

unfoldable pub rate_limit_ip_key : Text → Text
unfolding rate_limit_key
rate_limit_ip_key ip = rate_limit_key (codes "ip") ip

unfoldable pub rate_limit_org_key : Text → Text
unfolding rate_limit_key
rate_limit_org_key org = rate_limit_key (codes "org") org

-- What the middleware reads of a request. A header or the peer that is not there is `none`.
pub record Request : Type 0 where
  pub path : Text
  pub forwarded_for : Option Text
  pub client_host : Option Text
  pub authorization : Option Text

-- `text.split(",")[0]`
unfoldable pub before_comma : Text → Text
before_comma [] = []
before_comma (c ∷ text) = let rest = before_comma text in if c == 44 then [] else c ∷ rest

-- The text, if it is there and not empty.
unfoldable pub non_empty : Option Text → Option Text
non_empty none = none
non_empty (some []) = none
non_empty (some (c ∷ text)) = some (c ∷ text)

unfoldable pub client_ip : Request → Text
client_ip r = elim (non_empty r.forwarded_for) [
  | some forwarded ↦ strip (before_comma forwarded)
  | none ↦ elim (non_empty r.client_host) [ some host ↦ host | none ↦ codes "unknown" ]
]

pub data Response : Type 0 where
  -- What `call_next` gives.
  passed_on : Response
  rejection : (retry_after : ℕ) (scope : Text) → Response

-- `any(path == p or path.startswith(p + "/") for p in self.exempt_paths)`
unfoldable pub is_exempt : List Text → Text → Bool
is_exempt [] path = false
is_exempt (p ∷ ps) path =
    (same_codes path p || starts_with path (p ++ codes "/")) || is_exempt ps path

-- The clocks, and whether Redis answers, at the two checks of a request.
pub record Moment : Type 0 where
  pub available : Bool
  pub clock : ℕ
  pub now : ℕ

unfoldable pub org_of : Result TokenError AccessClaims → Option Text
org_of (err e) = none
org_of (ok claims) = non_empty (some claims.org_id)

pub record Limits : Type 0 where
  pub ip_policy : RateLimitPolicy
  pub org_policy : RateLimitPolicy
  pub exempt_paths : List Text

-- One check, which rejects the request or goes on with the buckets that it leaves.
unfoldable pub checked :
    Moment
    → Text
    → Text
    → RateLimitPolicy
    → TextStore Bucket
    → (TextStore Bucket → Response × TextStore Bucket)
    → Response × TextStore Bucket
checked at scope key policy buckets go =
    let (result, buckets') = check_rate_limit at.available at.clock key policy 1 at.now buckets in
    if result.allowed then go buckets' else (rejection (retry_after_seconds result) scope, buckets')

module _ (encode : Payload → Text) (decode : ℕ → Text → Result JwtError Payload) where
  unfoldable pub bearer_org_id : ℕ → Request → Option Text
  bearer_org_id now r = elim (bearer_token r.authorization) [
    | none ↦ none
    | some token ↦ org_of (decode_access_token encode decode now token)
  ]

  -- The check of the organization, if the request shows one.
  unfoldable pub check_org :
      Limits → Moment → Option Text → TextStore Bucket → Response × TextStore Bucket
  check_org limits at none buckets = (passed_on, buckets)
  check_org limits at (some org) buckets =
      checked at (codes "org") (rate_limit_org_key org) limits.org_policy buckets
        (λ b. (passed_on, b))

  unfoldable pub dispatch :
      Limits
      → (ip_check org_check : Moment) → (seconds : ℕ) → Request
      → TextStore Bucket
      → Response × TextStore Bucket
  dispatch limits ip_check org_check seconds r buckets =
      if is_exempt limits.exempt_paths r.path
      then (passed_on, buckets)
      else checked ip_check (codes "ip") (rate_limit_ip_key (client_ip r)) limits.ip_policy buckets
          (check_org limits org_check (bearer_org_id seconds r))
