-- ===== src/Ingest/RoundTrip.antt =====
-- What the listener pushes, read by the batch writer.
use text.Mathlib.Text.{◌==◌ as str_eq}
use iotaps.Common.{◌≡◌, String, false, Option, none, some, arith}
use iotaps.Common.Text.{is_blank}
use iotaps.Json.{Value, null, boolean, number, string, array, object, Fields, end, field, get}
use iotaps.Ingest.Envelope.{
  Reading, Envelope, flat_readings, validate_object, validate_telemetry_payload, encode_envelope,
  envelope_of, parse_envelope, flat_message,
}

module _ {N : Type 0} where
  parse_encoded :
      (e : Envelope N)
      → str_eq e.device_id "" ≡ false
      → is_blank e.ts ≡ false
      → parse_envelope (some (encode_envelope e)) ≡ some e
  unfolding parse_envelope encode_envelope envelope_of get
  parse_encoded e hd ht = rw (hd, ht)

  flat-ts :
      (now : String) (fs : Fields N) (r : Reading N)
      → is_blank now ≡ false
      → flat_message now fs ≡ some r
      → is_blank r.ts ≡ false
  flat-ts now end r hn h = ground arith
  flat-ts now (field k v rest) r hn h = ground arith

  object-ts :
      (now : String) (obj : Fields N) (ts body : Value N) (r : Reading N)
      → is_blank now ≡ false
      → validate_object now obj ts body ≡ some r
      → is_blank r.ts ≡ false
  unfolding validate_object
  object-ts now obj null body r hn h = flat-ts now (flat_readings obj) r hn h
  object-ts now obj (boolean b) body r hn h = flat-ts now (flat_readings obj) r hn h
  object-ts now obj (number b) body r hn h = flat-ts now (flat_readings obj) r hn h
  object-ts now obj (array b) body r hn h = flat-ts now (flat_readings obj) r hn h
  object-ts now obj (object b) body r hn h = flat-ts now (flat_readings obj) r hn h
  object-ts now obj (string ts) null r hn h = flat-ts now (flat_readings obj) r hn h
  object-ts now obj (string ts) (boolean b) r hn h = flat-ts now (flat_readings obj) r hn h
  object-ts now obj (string ts) (number b) r hn h = flat-ts now (flat_readings obj) r hn h
  object-ts now obj (string ts) (array b) r hn h = flat-ts now (flat_readings obj) r hn h
  object-ts now obj (string ts) (string b) r hn h = flat-ts now (flat_readings obj) r hn h
  object-ts now obj (string ts) (object readings) r hn h =
      ground (arith, flat-ts now (flat_readings obj) r hn)

  validated-ts :
      (now : String) (payload : Option (Fields N)) (r : Reading N)
      → is_blank now ≡ false
      → validate_telemetry_payload now payload ≡ some r
      → is_blank r.ts ≡ false
  unfolding validate_telemetry_payload
  validated-ts now none r hn h = ground arith
  validated-ts now (some obj) r hn h = object-ts now obj (get "ts" obj) (get "data" obj) r hn h

  -- Whatever payload the listener accepts, on whatever format, the envelope that it pushes is one
  -- that the batch writer reads back whole, for a device with a name and a time of arrival that is
  -- no blank text.
  pub parse-encode-validated :
      (now device : String) (org : Value N) (payload : Option (Fields N)) (r : Reading N)
      → is_blank now ≡ false
      → str_eq device "" ≡ false
      → validate_telemetry_payload now payload ≡ some r
      → let e : Envelope N = record {
        org_id = org;
        device_id = device;
        ts = r.ts;
        readings = r.readings;
      } in
        parse_envelope (some (encode_envelope e)) ≡ some e
  parse-encode-validated now device org payload r hn hd h =
      parse_encoded (record { org_id = org; device_id = device; ts = r.ts; readings = r.readings })
        hd (validated-ts now payload r hn h)
