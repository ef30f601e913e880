-- ===== src/Webhooks/Event.antt =====
-- `WebhookEvent` and `parse_webhook_event` of app/workers/webhook_dispatcher.py, with the messages
-- that `RedisActionSink` of app/workers/alert_checker.py publishes on a device's channel. `json.loads`
-- is a parameter that gives nothing where it raises.
use text.Mathlib.Text.{◌==◌ as str_eq}
use iotaps.Common.{ℕ, String, Bool, false, Option, none, some, if◌then◌else◌}
use iotaps.Json.{
  Value, null, boolean, number, string, array, object, Fields, end, field, Floats, get, show,
  truthy, or_else,
}
use iotaps.Rules.Predicate.{Action}
use iotaps.Rules.Plan.{TelemetryEvent}
use iotaps.Webhooks.Policy.{Numbers, RetryPolicy, has_key, from_config}

pub record WebhookEvent (N : Type 0) : Type 0 where
  pub url : String
  pub payload : Fields N
  pub retry_policy : Option (Fields N)
  pub secret : Option String
  pub event_type : Option String
  pub rule_id : Option String
  pub device_id : Option String

-- What arrives: text or bytes, a dictionary, or anything else.
pub data Raw (N : Type 0) : Type 0 where
  encoded : String → Raw N
  mapping : Fields N → Raw N
  other : Raw N

-- `isinstance(value, dict)`
unfoldable pub as_object : {N : Type 0} → Value N → Option (Fields N)
as_object (object fs) = some fs
as_object null = none
as_object (boolean b) = none
as_object (number x) = none
as_object (string s) = none
as_object (array s) = none

-- `isinstance(value, str)` of a text that is not empty.
unfoldable pub as_text : {N : Type 0} → Value N → Option String
as_text (string s) = if str_eq s "" then none else some s
as_text (object fs) = none
as_text null = none
as_text (boolean b) = none
as_text (number x) = none
as_text (array s) = none

-- `value == text`
unfoldable pub is_text : {N : Type 0} → String → Value N → Bool
is_text t (string s) = str_eq s t
is_text t (object fs) = false
is_text t null = false
is_text t (boolean b) = false
is_text t (number x) = false
is_text t (array s) = false

unfoldable pub payload_of : {N : Type 0} → Value N → Fields N
payload_of (object fs) = fs
payload_of null = end
payload_of (boolean b) = field "data" (boolean b) end
payload_of (number x) = field "data" (number x) end
payload_of (string s) = field "data" (string s) end
payload_of (array s) = field "data" (array s) end

module _ {N : Type 0} (floats : Floats N) where
  -- `str(obj[key]) if obj.get(key) else None`
  unfoldable pub shown : String → Fields N → Option String
  shown key obj = if truthy floats (get key obj) then some (show floats (get key obj)) else none

  unfoldable pub event_at : String → Fields N → WebhookEvent N
  event_at url obj = record {
    url = url;
    payload = payload_of (get "payload" obj);
    retry_policy = as_object (get "retry_policy" obj);
    secret = shown "secret" obj;
    event_type = shown "event_type" obj;
    rule_id = shown "rule_id" obj;
    device_id = shown "device_id" obj;
  }

  unfoldable pub parse_object : Fields N → Option (WebhookEvent N)
  parse_object obj =
      if is_text "webhook" (get "type" obj)
      then elim (as_text (get "url" obj)) [ none ↦ none | some url ↦ some (event_at url obj) ]
      else none

  unfoldable pub parse_loaded : Option (Value N) → Option (WebhookEvent N)
  parse_loaded none = none
  parse_loaded (some value) = elim (as_object value) [ none ↦ none | some obj ↦ parse_object obj ]

  unfoldable pub parse_webhook_event :
      (loads : String → Option (Value N)) → Raw N → Option (WebhookEvent N)
  parse_webhook_event loads (encoded s) = parse_loaded (loads s)
  parse_webhook_event loads (mapping fs) = parse_object fs
  parse_webhook_event loads other = none

  -- `config.get(key, default)`
  unfoldable pub get_or : String → Fields N → Value N → Value N
  get_or key config default = if has_key key config then get key config else default

  module _ (id : ℕ → Value N) where
    unfoldable pub rule_value : Option ℕ → Value N
    rule_value none = null
    rule_value (some rule) = id rule

    -- The message of `_do_webhook`.
    unfoldable pub webhook_message : Action N → TelemetryEvent N → Fields N
    webhook_message action event = field "type" (string "webhook") (
        field "rule_id" (rule_value event.rule_id) (
          field "device_id" (id event.device_id) (
            field "url" (get "url" action.config)
              (field "payload" (get_or "payload" action.config (object event.sample)) end))))

    -- The message of `_do_notify`.
    unfoldable pub notify_message : Action N → TelemetryEvent N → Fields N
    notify_message action event = field "type" (string "alert") (
        field "rule_id" (rule_value event.rule_id) (
          field "device_id" (id event.device_id) (
            field "title" (get "title" action.config) (
              field "message"
                (or_else floats (get "message" action.config) (get "body" action.config)) end))))

-- `event.policy()`
unfoldable pub policy : {N : Type 0} → Numbers N → WebhookEvent N → Option (RetryPolicy N)
policy numbers event = from_config numbers event.retry_policy
