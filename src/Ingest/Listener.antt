-- ===== src/Ingest/Listener.antt =====
-- `handle_telemetry` of app/workers/mqtt_listener.py with `_resolve_device_uuid`. The calls of a
-- `try` block go through, all of them, or fail at the first, as the `Env` says; what the quota needs
-- of an organization is its number, by the parameter `org_number`. Redis is up outside those blocks, and
-- no key expires during a call.
use text.Mathlib.Text.{◌==◌ as str_eq}
use iotaps.Common.{
  ℕ, String, Bool, true, false, not, ◌&&◌, ◌||◌, Option, none, some, List, [], ◌∷◌, ◌++◌, map, take,
  if◌then◌else◌,
}
use iotaps.Json.{Value, string, Fields, end, field}
use iotaps.Plans.Quota.{MessageType, Month, Meter, count_telemetry_message}
use iotaps.Ingest.Envelope.{Reading, Envelope, validate_telemetry_payload, encode_envelope}

pub record Credential : Type 0 where
  pub token : String
  pub device_id : String
  pub revoked : Bool

-- The message that goes to the dashboards.
pub record LiveReading (N : Type 0) : Type 0 where
  pub device_id : String
  pub reading : Reading N

-- The keys in Redis that the handler uses, the credentials, and the meter of the quota.
pub record Listener (N : Type 0) : Type 0 where
  pub token_cache : String → Option String
  pub credentials : List Credential
  pub latest : String → Option (Reading N)
  pub live : List (LiveReading N)
  pub queue : List (Fields N)
  pub known_keys : String → List String
  pub discoveries : List (String × String)
  pub meter : Meter

-- The text that the time of arrival has, the month, the plan that is looked up, and which calls
-- go through.
pub record ListenerEnv : Type 0 where
  pub now : String
  pub month : Month
  pub plan : Option String
  pub db_up : Bool
  pub publish_up : Bool
  pub discovery_up : Bool
  pub quota_up : Bool
  pub prompt_published : Bool

abbrev pub max_queue_size : ℕ
max_queue_size = 10000

unfoldable pub find_credential : String → List Credential → Option String
find_credential token [] = none
find_credential token (c ∷ cs) =
    let rest = find_credential token cs in
    if str_eq c.token token && not c.revoked then some c.device_id else rest

abbrev pub assign_key : {A : Type 0} → String → A → (String → A) → String → A
assign_key k v m j = if str_eq j k then v else m j

abbrev keys : {N : Type 0} → Fields N → List String
keys end = []
keys (field k v rest) = k ∷ keys rest

abbrev member : String → List String → Bool
member k [] = false
member k (j ∷ js) = str_eq j k || member k js

abbrev unknown : List String → List String → List String
unknown known [] = []
unknown known (k ∷ ks) = let rest = unknown known ks in if member k known then rest else k ∷ rest

module _ {N : Type 0} where
  abbrev cached : String → Option String → Listener N → String × Listener N
  cached token none s = (token, s)
  cached token (some d) s = (d, record s { token_cache = assign_key token (some d) s.token_cache })

  abbrev search : Bool → String → Listener N → String × Listener N
  search db_up token s =
      if db_up then cached token (find_credential token s.credentials) s else (token, s)

  abbrev look_up : Bool → String → Option String → Listener N → String × Listener N
  look_up db_up token (some d) s = if str_eq d "" then search db_up token s else (d, s)
  look_up db_up token none s = search db_up token s

  -- An empty text in the cache counts as none.
  unfoldable pub resolve_device_uuid : Bool → String → Listener N → String × Listener N
  resolve_device_uuid db_up token s = look_up db_up token (s.token_cache token) s

  unfoldable pub discover : Bool → String → Fields N → Listener N → Listener N
  discover up device readings s =
      let new = unknown (s.known_keys device) (keys readings) in
      if up
      then record s {
        known_keys = assign_key device (new ++ s.known_keys device) s.known_keys;
        discoveries = map (λ k. (device, k)) new ++ s.discoveries;
      }
      else s

  -- The latest value, the live message, and the queue with its cap.
  unfoldable pub deliver : Bool → Value N → String → Reading N → Listener N → Listener N
  deliver publish_up org device r s =
      let e : Envelope N = record {
        org_id = org;
        device_id = device;
        ts = r.ts;
        readings = r.readings;
      } in
      record s {
        latest = assign_key device (some r) s.latest;
        live =
            if publish_up
            then s.live ++ record { device_id = device; reading = r } ∷ []
            else s.live;
        queue = take max_queue_size (encode_envelope e ∷ s.queue);
      }

module _ {N : Type 0} (org_number : String → ℕ) where
  unfoldable pub count_quota : ListenerEnv → String → MessageType → Listener N → Listener N
  count_quota env org type s =
      if env.quota_up
      then record s {
        meter =
            (count_telemetry_message env.prompt_published (org_number org) env.plan type env.month
              s.meter).1;
      }
      else s

  abbrev pub accept :
      ListenerEnv → String → MessageType → Reading N → String × Listener N → Listener N
  accept env org type r (device, s) =
      count_quota env org type (
        discover env.discovery_up device r.readings
          (deliver env.publish_up (string org) device r s))

  -- What follows the validation.
  unfoldable pub handle_reading :
      ListenerEnv
      → String
      → String
      → MessageType
      → Option (Reading N)
      → Listener N
      → Bool × Listener N
  handle_reading env org token type none s = (false, s)
  handle_reading env org token type (some r) s =
      (true, accept env org type r (resolve_device_uuid env.db_up token s))

  unfoldable pub handle_telemetry :
      ListenerEnv
      → String
      → String
      → MessageType
      → Option (Fields N)
      → Listener N
      → Bool × Listener N
  handle_telemetry env org token type payload s =
      handle_reading env org token type (validate_telemetry_payload env.now payload) s
