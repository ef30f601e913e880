-- ===== src/RateLimit/Requests.antt =====
-- How the two checks of app/core/security/rate_limit_middleware.py bear on each other.
use iotaps.Common.{
  ℕ, ◌<◌, ◌≡◌, refl, subst, sym, ◌∙◌, ◌↔◌, Bool, true, false, Option, none, some, ◌∷◌, arith,
  if◌then◌else◌, inl, inr, Bool-cases,
}
use iotaps.Common.Exec.{Result}
use iotaps.Common.Text.{Text, codes, same_codes, strip}
use iotaps.Common.TextStore.{TextStore, put_text, put_text_other}
use iotaps.Auth.Jwt.{Payload, JwtError}
use iotaps.Auth.Principal.{bearer_token}
use iotaps.RateLimit.Bucket.{
  RateLimitPolicy, Bucket, retry_after_seconds, check_rate_limit, script, stored, refill, decide,
}
use iotaps.RateLimit.Middleware.{
  rate_limit_ip_key, rate_limit_org_key, Request, client_ip, Response, passed_on, rejection,
  is_exempt, Moment, Limits, checked, bearer_org_id, check_org, dispatch, non_empty, before_comma,
}

keys_differ : (org ip : Text) → same_codes (rate_limit_org_key org) (rate_limit_ip_key ip) ≡ false
unfolding rate_limit_org_key rate_limit_ip_key
keys_differ org ip = refl

org_keys_differ :
    (org other : Text)
    → same_codes other org ≡ false
    → same_codes (rate_limit_org_key other) (rate_limit_org_key org) ≡ false
unfolding rate_limit_org_key
org_keys_differ org other h = h

module _ (at : Moment) (scope key : Text) (policy : RateLimitPolicy) (buckets : TextStore Bucket)
    (go : TextStore Bucket → Response × TextStore Bucket) where
  checked_up :
      (up : at.available ≡ true)
      → checked at scope key policy buckets go ≡ (
          let (result, b) = script at.clock policy at.now 1 (buckets key) in
          if result.allowed
          then go (put_text key b buckets)
          else (rejection (retry_after_seconds result) scope, put_text key b buckets))
  unfolding checked check_rate_limit
  checked_up up = rw up refl

  checked_down : at.available ≡ false → checked at scope key policy buckets go ≡ go buckets
  unfolding checked check_rate_limit
  checked_down down = rw down refl

  -- A check changes the bucket of its key only, and what follows decides the rest.
  checked_other :
      (j : Text)
      → same_codes j key ≡ false
      → ((b : TextStore Bucket) → (go b).1 j ≡ b j)
      → (checked at scope key policy buckets go).1 j ≡ buckets j
  unfolding checked check_rate_limit
  checked_other j other rest = elim (Bool-cases at.available) [
    | inl up ↦ rw up (elim (Bool-cases (script at.clock policy at.now 1 (buckets key)).0.allowed) [
      | inl passes ↦ rw passes (rest _ ∙ put_text_other j key _ buckets other)
      | inr refused ↦ rw refused (put_text_other j key _ buckets other)
    ])
    | inr down ↦ rw down (rest buckets)
  ]

-- The answer that two checks in a row give.
both :
    (a b : Bool) (m n : ℕ) (s t : Text) (x y z : TextStore Bucket)
    → ((if◌then◌else◌ {A = Response × TextStore Bucket} a
          (if b then (passed_on, x) else (rejection m s, y))
          (rejection n t, z)).0
        ≡ passed_on)
      ↔ ((a ≡ true) × (b ≡ true))
both true true m n s t x y z = (λ h. (refl, refl), λ h. refl)
both true false m n s t x y z = (λ h. cc, λ h. cc)
both false b m n s t x y z = (λ h. cc, λ h. cc)

abbrev Other : Text → Option Text → Type 0
Other other none = Unit
Other other (some org) = same_codes other org ≡ false

module _ (encode : Payload → Text) (decode : ℕ → Text → Result JwtError Payload) (limits : Limits)
    (ip_check org_check : Moment) (seconds : ℕ) (r : Request) (buckets : TextStore Bucket) where
  check_org-Other :
      (org : Option Text) (other : Text) (b : TextStore Bucket)
      → Other other org
      → (check_org encode decode limits org_check org b).1 (rate_limit_org_key other)
        ≡ b (rate_limit_org_key other)
  unfolding check_org
  check_org-Other none other b h = refl
  check_org-Other (some org) other b h =
      checked_other org_check (codes "org") (rate_limit_org_key org) limits.org_policy b
        (λ x. (passed_on, x)) (rate_limit_org_key other) (org_keys_differ org other h) (λ x. refl)

  -- A request, admitted or not, leaves the bucket of every organization as it was but for the one
  -- that its token shows.
  pub own_org_only :
      (org other : Text)
      → bearer_org_id encode decode seconds r ≡ some org
      → same_codes other org ≡ false
      → (dispatch encode decode limits ip_check org_check seconds r buckets).1
          (rate_limit_org_key other)
        ≡ buckets (rate_limit_org_key other)
  unfolding dispatch
  own_org_only org other shown h = elim (Bool-cases (is_exempt limits.exempt_paths r.path)) [
    | inl exempt ↦ rw exempt refl
    | inr limited ↦ rw limited (
        checked_other ip_check (codes "ip") (rate_limit_ip_key (client_ip r)) limits.ip_policy
          buckets (check_org encode decode limits org_check (bearer_org_id encode decode seconds r))
          (rate_limit_org_key other) (keys_differ other (client_ip r))
          (λ b.
            check_org-Other (bearer_org_id encode decode seconds r) other b
              (subst (λ o. Other other o) (sym shown) h)))
  ]

  -- A request that the check of its address rejects, at a path that is not exempt, costs no
  -- organization a token.
  pub ip_rejection :
      is_exempt limits.exempt_paths r.path ≡ false
      → ip_check.available ≡ true
      → (script ip_check.clock limits.ip_policy ip_check.now 1
          (buckets (rate_limit_ip_key (client_ip r)))).0.allowed
        ≡ false
      → let (response, buckets') =
          dispatch encode decode limits ip_check org_check seconds r buckets in
        (response
          ≡ rejection
              (retry_after_seconds
                (script ip_check.clock limits.ip_policy ip_check.now 1
                  (buckets (rate_limit_ip_key (client_ip r)))).0)
              (codes "ip"))
        × ((org : Text) → buckets' (rate_limit_org_key org) ≡ buckets (rate_limit_org_key org))
  unfolding dispatch checked check_rate_limit
  ip_rejection limited up refused =
      rw (limited, up, refused)
        (
          refl,
          λ org.
              put_text_other (rate_limit_org_key org) (rate_limit_ip_key (client_ip r)) _ buckets
                (keys_differ org (client_ip r)),
        )

  -- At a path that is not exempt and with Redis there, a request that shows an organization passes
  -- exactly when its address has a token left and the organization has one.
  pub passes_exactly :
      (org : Text)
      → is_exempt limits.exempt_paths r.path ≡ false
      → ip_check.available ≡ true
      → org_check.available ≡ true
      → bearer_org_id encode decode seconds r ≡ some org
      → ((dispatch encode decode limits ip_check org_check seconds r buckets).0 ≡ passed_on) ↔ (
          ((script ip_check.clock limits.ip_policy ip_check.now 1
              (buckets (rate_limit_ip_key (client_ip r)))).0.allowed
            ≡ true)
          × ((script org_check.clock limits.org_policy org_check.now 1
                (buckets (rate_limit_org_key org))).0.allowed
              ≡ true))
  unfolding dispatch checked check_rate_limit check_org
  passes_exactly org limited up up' shown =
      let same =
        put_text_other (rate_limit_org_key org) (rate_limit_ip_key (client_ip r))
          (script ip_check.clock limits.ip_policy ip_check.now 1
            (buckets (rate_limit_ip_key (client_ip r)))).1
          buckets (keys_differ org (client_ip r)) in
      rw (limited, up, shown, check_org, up', same) (both _ _ _ _ _ _ _ _ _)

  check_org_down :
      (org : Option Text)
      → org_check.available ≡ false
      → check_org encode decode limits org_check org buckets ≡ (passed_on, buckets)
  unfolding check_org
  check_org_down none down = refl
  check_org_down (some org) down =
      checked_down org_check (codes "org") (rate_limit_org_key org) limits.org_policy buckets
        (λ b. (passed_on, b)) down

  fresh_bucket_passes :
      (key : Text)
      → buckets key ≡ none
      → 0 < limits.ip_policy.capacity
      → (script ip_check.clock limits.ip_policy ip_check.now 1 (buckets key)).0.allowed ≡ true
  unfolding script stored refill decide
  fresh_bucket_passes key fresh room = rw fresh (ground arith)

  new_bucket_passes :
      (key : Text)
      → buckets key ≡ none
      → 0 < limits.ip_policy.capacity
      → (checked ip_check (codes "ip") key limits.ip_policy buckets (λ b. (passed_on, b))).0
        ≡ passed_on
  unfolding checked check_rate_limit
  new_bucket_passes key fresh room = elim (Bool-cases ip_check.available) [
    | inl up ↦ rw (up, fresh_bucket_passes key fresh room) refl
    | inr down ↦ rw down refl
  ]

  -- Where Redis is not there at either check, every request passes and no bucket changes.
  pub outage_passes :
      ip_check.available ≡ false
      → org_check.available ≡ false
      → dispatch encode decode limits ip_check org_check seconds r buckets ≡ (passed_on, buckets)
  unfolding dispatch
  outage_passes down down' = elim (Bool-cases (is_exempt limits.exempt_paths r.path)) [
    | inl exempt ↦ rw exempt refl
    | inr limited ↦ rw limited (
        checked_down ip_check (codes "ip") (rate_limit_ip_key (client_ip r)) limits.ip_policy
          buckets (check_org encode decode limits org_check (bearer_org_id encode decode seconds r))
          down
        ∙ check_org_down (bearer_org_id encode decode seconds r) down')
  ]

  no_org : bearer_token r.authorization ≡ none → bearer_org_id encode decode seconds r ≡ none
  unfolding bearer_org_id
  no_org anonymous = rw (anonymous, bearer_org_id) refl

  first_hop :
      (c : ℕ) (text : Text)
      → r.forwarded_for ≡ some (c ∷ text)
      → client_ip r ≡ strip (before_comma (c ∷ text))
  unfolding client_ip non_empty
  first_hop c text named = rw (named, client_ip) refl

  -- A request without a bearer token that names, as the first of `X-Forwarded-For`, an address that
  -- has no bucket yet passes, whatever its peer and the other buckets, if the policy has any capacity.
  pub new_address_passes :
      (c : ℕ) (text : Text)
      → 0 < limits.ip_policy.capacity
      → r.forwarded_for ≡ some (c ∷ text)
      → bearer_token r.authorization ≡ none
      → buckets (rate_limit_ip_key (strip (before_comma (c ∷ text)))) ≡ none
      → (dispatch encode decode limits ip_check org_check seconds r buckets).0 ≡ passed_on
  unfolding dispatch check_org
  new_address_passes c text room named anonymous fresh =
      elim (Bool-cases (is_exempt limits.exempt_paths r.path)) [
        | inl exempt ↦ rw exempt refl
        | inr limited ↦
            rw (limited, no_org anonymous, first_hop c text named) (new_bucket_passes _ fresh room)
      ]
