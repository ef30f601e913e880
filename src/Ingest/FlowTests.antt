-- ===== src/Ingest/FlowTests.antt =====
-- One message of a token whose device is looked up.
use iotaps.Common.{ℕ, ◌≡◌, refl, String, true, false, none, some, [], ◌∷◌}
use iotaps.Common.Text.{is_blank, strip}
use iotaps.Json.{Fields, field, end, number, string, object, get}
use iotaps.Plans.Quota.{MessageType}
use iotaps.Ingest.Envelope.{Reading, validate_telemetry_payload, validate_object, all_readings}
use iotaps.Ingest.Batch.{process_batch, has_key}
use iotaps.Ingest.Drain.{quiet}
use iotaps.Ingest.Listener.{
  Listener, ListenerEnv, resolve_device_uuid, find_credential, handle_telemetry,
}
use iotaps.Ingest.Delivery.{read_envelope, envelope_key, telemetry_reaches_rows}

abbrev message : Fields ℕ
message = field "ts" (string "t1") (field "data" (object (field "temp" (number 21) end)) end)

abbrev reading : Reading ℕ
reading = record { ts = "t1"; readings = field "temp" (number 21) end }

abbrev env : ListenerEnv
env = record {
  now = "now";
  month = record { year = 2025; month = 7 };
  plan = some "free";
  db_up = true;
  publish_up = false;
  discovery_up = true;
  quota_up = true;
  prompt_published = true;
}

abbrev listener : Listener ℕ
listener = record {
  token_cache = λ t. none;
  credentials = record { token = "tok"; device_id = "dev"; revoked = false } ∷ [];
  latest = λ d. none;
  live = [];
  queue = [];
  known_keys = λ d. [];
  discoveries = [];
  meter = record { counts = λ o m. 0; expiries = λ o m. none; prompts = [] };
}

abbrev number_of : String → ℕ
number_of org = 5

telemetry_reaches_rows_example :
    let s' =
      (handle_telemetry number_of env "org" "tok" MessageType.telemetry
        (some message)
        listener).1 in
    let after =
      (process_batch read_envelope envelope_key 1000
        (quiet none)
        (record { queue = s'.queue; rows = [] })).1 in
    (after.queue ≡ [])
    × (has_key read_envelope envelope_key (record { device_id = "dev"; ts = "t1" }) after.rows
        ≡ true)
unfolding resolve_device_uuid find_credential is_blank strip validate_telemetry_payload
    validate_object get all_readings envelope_key
telemetry_reaches_rows_example =
    telemetry_reaches_rows number_of env "org" "tok" MessageType.telemetry (some message) reading
      listener 1000 [] refl refl refl
