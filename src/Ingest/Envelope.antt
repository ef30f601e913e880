-- ===== src/Ingest/Envelope.antt =====
-- What travels through the ingest queue: `validate_telemetry_payload` and the envelope of
-- `handle_telemetry` in app/workers/mqtt_listener.py, `_parse_envelope` in
-- app/workers/batch_writer.py. A payload is what `json.loads` gives of it: nothing if it is no JSON.
use text.Mathlib.Text.{◌==◌ as str_eq}
use iotaps.Common.{String, Bool, true, false, not, ◌&&◌, ◌||◌, Option, none, some, if◌then◌else◌}
use iotaps.Common.Text.{is_blank}
use iotaps.Json.{Value, number, string, object, Fields, end, field, get}

-- The timestamp and readings of one telemetry message.
pub record Reading (N : Type 0) : Type 0 where
  pub ts : String
  pub readings : Fields N

pub record Envelope (N : Type 0) : Type 0 where
  pub org_id : Value N
  pub device_id : String
  pub ts : String
  pub readings : Fields N

module _ {N : Type 0} where
  abbrev pub is_number : Value N → Bool
  is_number (number n) = true
  is_number _ = false

  -- Every entry has a non-empty key and a number.
  unfoldable pub all_readings : Fields N → Bool
  all_readings end = true
  all_readings (field k v rest) = not (str_eq k "") && is_number v && all_readings rest

  -- The numbers of a flat message, without `ts` and `data`.
  unfoldable pub flat_readings : Fields N → Fields N
  flat_readings end = end
  flat_readings (field k v rest) =
      let others = flat_readings rest in
      if not (str_eq k "ts" || str_eq k "data") && is_number v then field k v others else others

  abbrev pub has_fields : Fields N → Bool
  has_fields end = false
  has_fields (field k v rest) = true

  abbrev pub flat_message : String → Fields N → Option (Reading N)
  flat_message now end = none
  flat_message now (field k v rest) = some (record { ts = now; readings = field k v rest })

  -- The envelope format where `ts` is a text that is not blank and `data` has entries, which must
  -- then all be readings; else the flat format, stamped with the time of arrival.
  unfoldable pub validate_object : String → Fields N → Value N → Value N → Option (Reading N)
  unfolding all_readings flat_readings
  validate_object now obj (string ts) (object readings) =
      if not (is_blank ts) && has_fields readings
      then if all_readings readings then some (record { ts = ts; readings = readings }) else none
      else flat_message now (flat_readings obj)
  validate_object now obj _ _ = flat_message now (flat_readings obj)

  unfoldable pub validate_telemetry_payload : String → Option (Fields N) → Option (Reading N)
  unfolding validate_object get
  validate_telemetry_payload now none = none
  validate_telemetry_payload now (some obj) =
      validate_object now obj (get "ts" obj) (get "data" obj)

  -- The JSON that `handle_telemetry` pushes.
  unfoldable pub encode_envelope : Envelope N → Fields N
  encode_envelope e = field "org_id" e.org_id (
      field "device_id" (string e.device_id)
        (field "ts" (string e.ts) (field "data" (object e.readings) end)))

  unfoldable pub envelope_of : Value N → Value N → Value N → Value N → Option (Envelope N)
  envelope_of org (string device) (string ts) (object readings) =
      if str_eq device "" || is_blank ts
      then none
      else some (record { org_id = org; device_id = device; ts = ts; readings = readings })
  envelope_of _ _ _ _ = none

  unfoldable pub parse_envelope : Option (Fields N) → Option (Envelope N)
  unfolding envelope_of get
  parse_envelope none = none
  parse_envelope (some obj) =
      envelope_of (get "org_id" obj) (get "device_id" obj) (get "ts" obj) (get "data" obj)
