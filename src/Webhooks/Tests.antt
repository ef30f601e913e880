-- ===== src/Webhooks/Tests.antt =====
-- Deliveries with whole numbers in place of Python's floats; a power overflows as there.
use iotaps.Common.{
  ℕ, zero, suc, ◌+◌, ◌*◌, ◌^◌, ◌/◌, ◌≤◌, ◌<◌, min, ◌≡◌, refl, true, false, not, Option, none, some,
  [], ◌∷◌, arith, inr, ltb, leb, ◌==◌, String, if◌then◌else◌,
}
use iotaps.Json.{Value, number, string, object, Fields, end, field, Floats, get}
use iotaps.Rules.Predicate.{webhook, Action}
use iotaps.Rules.Plan.{TelemetryEvent}
use iotaps.Webhooks.Policy.{
  Numbers, RetryPolicy, default_policy, has_key, first, coerce_int, coerce_float, counts_retries,
  policy_with, from_config, backoff_for_retry,
}
use iotaps.Webhooks.Event.{
  WebhookEvent, encoded, as_text, parse_webhook_event, webhook_message, policy,
}
use iotaps.Webhooks.Delivery.{deliver_webhook}
use iotaps.Webhooks.Attempts.{
  Fails, ends, IsEnd, delivered_at_first_success, failed_after_all, delivery_ends,
}
use iotaps.Webhooks.Published.{published_webhook}

abbrev whole : Floats ℕ
whole = record {
  gt = λ a b. ltb b a;
  ge = λ a b. leb b a;
  lt = ltb;
  le = leb;
  eq = λ a b. a == b;
  ne = λ a b. not (a == b);
  nought = 0;
  clamp = λ a. a;
  thousandth = λ a. a / 1000;
  show_number = λ a. "0";
  show_object = λ fs. "{}";
}

abbrev numbers : Numbers ℕ
numbers = record {
  floats = whole;
  whole = λ a. some a;
  parse_int = λ s. none;
  parse_float = λ s. none;
  times = λ a b. a * b;
  power = λ a i. if ltb i 1024 then some (a ^ i) else none;
  least = min;
  at_least_zero = λ a. a;
  is_positive = λ a. ltb 0 a;
  initial_default = 1;
  factor_default = 2;
  max_default = 60;
}

-- Four retries, from five seconds on, up to half a minute.
abbrev config : Fields ℕ
config =
    field "max_retries" (number 4) (field "backoff" (number 5) (field "max_delay" (number 30) end))

abbrev configured : RetryPolicy ℕ
configured = record { max_attempts = 5; backoff_initial = 5; backoff_factor = 2; backoff_max = 30 }

retries_are_counted : from_config numbers (some config) ≡ some configured
unfolding from_config policy_with counts_retries coerce_int coerce_float first has_key get
retries_are_counted = refl

abbrev event : WebhookEvent ℕ
event = record {
  url = "https://example.org/hook";
  payload = end;
  retry_policy = some config;
  secret = none;
  event_type = none;
  rule_id = none;
  device_id = none;
}

event_policy : policy numbers event ≡ some configured
unfolding policy from_config policy_with counts_retries coerce_int coerce_float first has_key get
event_policy = refl

abbrev delay : ℕ → ℕ
delay i = min (5 * 2 ^ i) 30

delays_of : (i : ℕ) → i < 4 → backoff_for_retry numbers configured i ≡ some (delay i)
unfolding backoff_for_retry
delays_of i h = ground (arith, h)

-- The endpoint is down, then answers 503, then 200.
abbrev answer : ℕ → Option ℕ
answer zero = none
answer (suc zero) = none
answer (suc (suc zero)) = some 503
answer (suc (suc (suc n))) = some 200

bad_until_third : (j : ℕ) → 0 < j → j ≤ 0 + 2 → Fails (answer j)
bad_until_third zero lo hi = tt
bad_until_third (suc zero) lo hi = tt
bad_until_third (suc (suc zero)) lo hi = inr (omega arith)
bad_until_third (suc (suc (suc n))) lo hi = absurd (omega arith)

delivered_at_first_success_example :
    deliver_webhook numbers event answer ≡ ends numbers true 3 (some 200) (5 ∷ 10 ∷ [])
delivered_at_first_success_example =
    delivered_at_first_success numbers event configured answer delay 2 200 event_policy
      (λ i h. delays_of i (omega arith)) (omega arith) bad_until_third refl (omega arith)
      (omega arith)

abbrev down : ℕ → Option ℕ
down n = none

failed_after_all_example :
    deliver_webhook numbers event down ≡ ends numbers false 5 none (5 ∷ 10 ∷ 20 ∷ 30 ∷ [])
failed_after_all_example =
    failed_after_all numbers event configured down delay 4 event_policy
      (λ i h. delays_of i (omega arith)) refl (λ j lo hi. tt)

delivery_ends_example : IsEnd numbers 5 (deliver_webhook numbers event answer)
delivery_ends_example =
    delivery_ends numbers event configured answer delay event_policy
      (λ i h. delays_of i (omega arith))

abbrev action : Action ℕ
action = record {
  kind = webhook;
  config =
      field "url" (string "https://example.org/hook")
        (field "retry_policy" (object config) (field "secret" (string "s") end));
}

abbrev sample : TelemetryEvent ℕ
sample = record { org_id = 1; device_id = 2; sample = end; rule_id = some 3 }

abbrev loads : String → Option (Value ℕ)
loads s = some (object (webhook_message whole (λ n. number n) action sample))

published_webhook_example :
    (event : WebhookEvent ℕ) × (parse_webhook_event whole loads (encoded "message") ≡ some event)
    × (event.url ≡ "https://example.org/hook")
    × (event.secret ≡ none)
    × (policy numbers event ≡ some (default_policy numbers))
unfolding as_text get
published_webhook_example =
    published_webhook numbers (λ n. number n) loads action sample "https://example.org/hook"
      "message" refl refl
