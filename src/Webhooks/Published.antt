-- ===== src/Webhooks/Published.antt =====
-- Configurations of app/workers/webhook_dispatcher.py, and what of a rule's action arrives there.
use iotaps.Common.{ℕ, ◌≤◌, ◌≡◌, refl, String, Option, none, some, arith}
use iotaps.Json.{Value, object, Fields, get, truthy}
use iotaps.Rules.Predicate.{Action}
use iotaps.Rules.Plan.{TelemetryEvent}
use iotaps.Webhooks.Policy.{Numbers, RetryPolicy, default_policy, policy_with, from_config}
use iotaps.Webhooks.Event.{
  WebhookEvent, encoded, as_text, as_object, is_text, shown, event_at, parse_object, parse_loaded,
  parse_webhook_event, webhook_message, policy,
}

module _ {N : Type 0} (numbers : Numbers N) where
  -- Every policy that a configuration gives has at least one attempt.
  pub attempts_positive :
      (config : Option (Fields N)) (p : RetryPolicy N)
      → from_config numbers config ≡ some p
      → 1 ≤ p.max_attempts
  unfolding from_config policy_with default_policy
  attempts_positive none p h = ground arith
  attempts_positive (some config) p h = ground arith

  -- Where `json.loads` reads back what was published, the event that the dispatcher reads from the message that the action of a rule publishes, if the
  -- action's `url` is a text that is not empty, has that url, no secret, and the default policy, whatever
  -- retry policy and secret the action configures.
  pub published_webhook :
      (id : ℕ → Value N) (loads : String → Option (Value N)) (action : Action N)
      (sample : TelemetryEvent N) (url message : String)
      → loads message ≡ some (object (webhook_message numbers.floats id action sample))
      → as_text (get "url" action.config) ≡ some url
      → (event : WebhookEvent N) × (parse_webhook_event numbers.floats loads (encoded message)
          ≡ some event)
        × (event.url ≡ url)
        × (event.secret ≡ none)
        × (policy numbers event ≡ some (default_policy numbers))
  unfolding parse_webhook_event parse_loaded parse_object webhook_message get is_text event_at
      policy from_config shown as_object truthy
  published_webhook id loads action sample url message read h =
      rw (read, h) (_, refl, refl, refl, refl)
